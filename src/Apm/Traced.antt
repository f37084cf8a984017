-- ===== src/Apm/Traced.antt =====
-- `process_event` of apm.c with `append_backtrace` of backtrace.c (PHP_VERSION_ID >= 70000).
use php_apm.Common.{
  ℕ, ℤ, true, false, ◌<◌, ◌≤◌, pos_part, Bool, if◌then◌else◌, Bytes, Option, some, List, [], ◌∷◌,
  ◌≡◌, refl, ap, ◌∙◌,
}
use php_apm.World.{zend_printf, Env}
use php_apm.Globals.{Globals, Run, pure, fault, emit, ◌>>=◌, ◌>>◌}
use php_apm.Driver.{EventType}
use php_apm.Apm.{process_event, elastic_event}
use php_apm.Apm.Drivers.{Build, drivers, elastic}
use php_apm.Apm.Dispatch.{call_all, wanting, event}
use php_apm.Apm.Whole.{event_delivered}
use php_apm.Backtrace.Value.{Store, Counts}
use php_apm.Backtrace.Frame.{Engine}
use php_apm.Backtrace.Walk.{Walk, walked, walk_overread, walk_out_of_fuel, append_backtrace}
use php_apm.Backtrace.Walk.Lines.{Line, numbered}
use php_apm.Backtrace.Walk.Ends.{EndsBy, append_backtrace_returns}
use php_apm.Backtrace.Walk.Trace.{IsTraceOf, append_backtrace-numbered}

-- The prints of a walk are one text here; without any there is no call.
abbrev pub print_out : Bytes → Run (Unit {0})
print_out [] = pure tt
print_out (c ∷ s) = emit (zend_printf (c ∷ s))

abbrev pub finish : Walk → Run Bytes
finish (walked trace printed c) = print_out printed >>= λ _. pure trace
finish walk_overread = fault
finish walk_out_of_fuel = fault

-- `append_backtrace` as the call of `process_event`: the limit of the dumps is a setting.
unfoldable pub backtrace : Engine → Store → (fuel : ℕ) → Counts → Run Bytes
backtrace engine store f c g =
    finish (append_backtrace engine g.settings.dump_max_depth store f c) g

finish_returns :
    (w : Walk) (trace printed : Bytes) (c : Counts) (g : Globals)
    → w ≡ walked trace printed c
    → (h : Globals) × (finish w g ≡ some (trace, h)) × (h ≡ record g { log = h.log })
finish_returns w trace [] c g e = (g, ap (λ (w : Walk). finish w g) e, refl)
finish_returns w trace (b ∷ s) c g e =
    (record g { log = zend_printf (b ∷ s) ∷ g.log }, ap (λ (w : Walk). finish w g) e, refl)

-- The lines of an event's trace: those of the engine's frames, or none if no traces are stored.
abbrev pub HasLines :
    (store_stacktrace : Bool) → Engine → (max_depth : ℤ) → Store → ℕ → Counts → List Line → Type 0
HasLines true engine max_depth store f c ls = IsTraceOf engine max_depth store f c ls
HasLines false engine max_depth store f c ls = ls ≡ []

module _ (engine : Engine) (distance : ℕ → ℕ) (store : Store) (f : ℕ) (c : Counts)
    (chain : EndsBy engine distance)
    (near : (p : ℕ) → engine.current_execute_data ≡ some p → distance p < f) where
  trace_returns :
      (b : Bool) (g : Globals)
      → pos_part g.settings.dump_max_depth ≤ 127
      → pos_part g.settings.dump_max_depth < f
      → (h : Globals) × (ls : List Line) × ((if b then backtrace engine store f c else pure []) g
          ≡ some (numbered 0 ls, h))
        × (h ≡ record g { log = h.log })
        × HasLines b engine g.settings.dump_max_depth store f c ls
  unfolding backtrace numbered
  trace_returns true g small fuel =
      let (trace, printed, c', e) =
        append_backtrace_returns engine distance g.settings.dump_max_depth store f c chain near
          small fuel in
      let (ls, text, _, _, lines) =
        append_backtrace-numbered engine g.settings.dump_max_depth store f c trace printed c' e in
      let (h, ran, same) = finish_returns _ trace printed c' g e in
      (h, ls, ran ∙ ap (λ t. some (t, h)) text, same, lines)
  trace_returns false g small fuel = (g, [], refl, refl, refl)

-- In every build, with the traces of PHP 7: where the chain of the engine's frames ends, the fuel is
-- more than the distance of the first frame from its end and more than the limit for the depth, and
-- that limit is 127 at most, an event gets a trace that has one line for each of the engine's frames, in
-- their order and numbered from 0 on, each with its call, arguments and end, or an empty one if no
-- traces are stored; and it goes with it, up to the first NUL, to the drivers that want it and to no
-- other, each of them once and in the order of the list, and then to the driver for Elasticsearch if
-- that is there and enabled. Before that nothing but the log has changed.
pub event_traced :
    (env : Env) (b : Build) (engine : Engine) (distance : ℕ → ℕ) (store : Store) (f : ℕ)
    (c : Counts) (event_type : EventType) (type : ℕ) (error_filename : Option Bytes)
    (error_lineno : ℕ) (msg : Bytes) (g : Globals)
    → EndsBy engine distance
    → ((p : ℕ) → engine.current_execute_data ≡ some p → distance p < f)
    → pos_part g.settings.dump_max_depth ≤ 127
    → pos_part g.settings.dump_max_depth < f
    → (h : Globals) × (ls : List Line) × (process_event
          (drivers env b)
          (elastic env b)
          (backtrace engine store f c)
          event_type
          type
          error_filename
          error_lineno
          msg
          g
        ≡ (call_all
                (λ d. d.process_event (event type error_filename error_lineno msg (numbered 0 ls)))
                (wanting (λ d. d.want_event event_type type msg) h (drivers env b))
              >> elastic_event
                  (drivers env b)
                  (elastic env b)
                  (event type error_filename error_lineno msg (numbered 0 ls)))
            h)
      × (h ≡ record g { log = h.log })
      × HasLines g.settings.store_stacktrace engine g.settings.dump_max_depth store f c ls
event_traced env b engine distance store f c event_type type error_filename error_lineno msg g chain
      near small fuel =
    let (h, ls, ran, same, lines) =
      trace_returns engine distance store f c chain near g.settings.store_stacktrace g small fuel in
    (
      h,
      ls,
      event_delivered env b (backtrace engine store f c) event_type type error_filename error_lineno
          msg g h (numbered 0 ls) ran,
      same,
      lines,
    )
