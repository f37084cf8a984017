-- ===== src/Apm/Dispatch.antt =====
-- Which drivers `process_event` of apm.c hands an event to.
use php_apm.Common.{
  ℕ, Bool, true, false, if◌then◌else◌, Bytes, c_string, Option, none, some, List, [], ◌∷◌, ◌≡◌,
  refl, ap, ◌∙◌, All,
}
use php_apm.Globals.{EventArgs, Globals, Run, pure, ◌>>◌, when}
use php_apm.Globals.Runs.{continued}
use php_apm.Driver.{EventType, Driver}
use php_apm.Apm.{each_driver, Elastic, elastic_event, process_event}

-- The calls of all the drivers of a list, in its order.
unfoldable pub call_all : (Driver → Run (Unit {0})) → List Driver → Run (Unit {0})
call_all call [] = pure tt
call_all call (d ∷ ds) = call d >> call_all call ds

-- The drivers that want it, as the globals are.
unfoldable pub wanting : (Driver → Globals → Bool) → Globals → List Driver → List Driver
wanting wants g [] = []
wanting wants g (d ∷ ds) = let rest = wanting wants g ds in if wants d g then d ∷ rest else rest

module _ (wants : Driver → Globals → Bool) (call : Driver → Run (Unit {0})) where
  -- A driver's call does not change what the drivers after it want.
  abbrev pub IsIndependent : List Driver → Type 0
  IsIndependent [] = Unit
  IsIndependent (d ∷ ds) =
      ((g h : Globals) → call d g ≡ some (tt, h) → All (λ d'. wants d' h ≡ wants d' g) ds)
      × IsIndependent ds

  wanting-same :
      (g h : Globals) (ds : List Driver)
      → All (λ d. wants d h ≡ wants d g) ds
      → wanting wants h ds ≡ wanting wants g ds
  unfolding wanting
  wanting-same g h [] same = refl
  wanting-same g h (d ∷ ds) (same, rest) = rw (same, wanting-same g h ds rest) refl

  -- Behind a driver's call, both loops go on alike.
  behind :
      (d : Driver) (ds : List Driver) (g : Globals) (r : Option (Unit {0} × Globals))
      → call d g ≡ r
      → ((h : Globals) → call d g ≡ some (tt, h) → All (λ d'. wants d' h ≡ wants d' g) ds)
      → ((h : Globals) → each_driver wants call ds h ≡ call_all call (wanting wants h ds) h)
      → elim r [ none ↦ none | some (a, h) ↦ each_driver wants call ds h ]
        ≡ elim r [ none ↦ none | some (a, h) ↦ call_all call (wanting wants g ds) h ]
  behind d ds g none e same rest = refl
  behind d ds g (some (tt, h)) e same rest =
      rest h ∙ ap (λ l. call_all call l h) (wanting-same g h ds (same h e))

  at_driver :
      (b : Bool) (d : Driver) (ds : List Driver) (g : Globals)
      → ((h : Globals) → call d g ≡ some (tt, h) → All (λ d'. wants d' h ≡ wants d' g) ds)
      → ((h : Globals) → each_driver wants call ds h ≡ call_all call (wanting wants h ds) h)
      → (when b (call d) >> each_driver wants call ds) g
        ≡ call_all call (if b then d ∷ wanting wants g ds else wanting wants g ds) g
  unfolding call_all
  at_driver true d ds g same rest = behind d ds g (call d g) refl same rest
  at_driver false d ds g same rest = rest g

  pub each_driver-wanting :
      (ds : List Driver) (g : Globals)
      → IsIndependent ds
      → each_driver wants call ds g ≡ call_all call (wanting wants g ds) g
  unfolding each_driver call_all wanting
  each_driver-wanting [] g h = refl
  each_driver-wanting (d ∷ ds) g (same, h) =
      at_driver (wants d g) d ds g (same g) λ k. each_driver-wanting ds k h

-- The event as the drivers are given it.
abbrev pub event : ℕ → Option Bytes → ℕ → Bytes → Bytes → EventArgs
event type error_filename error_lineno msg trace_val = record {
  type = type;
  error_filename = error_filename;
  error_lineno = error_lineno;
  msg = some msg;
  trace = some (c_string trace_val);
}

-- Once the trace is there, an event goes to the drivers that want it and to no other, each of them
-- once and in the order of the list, and then to the driver for Elasticsearch if that is enabled. The
-- drivers are taken not to change by their work what the drivers after them want.
pub process_event_delivers :
    (ds : List Driver) (e : Option Elastic) (append_backtrace : Run Bytes) (event_type : EventType)
    (type : ℕ) (error_filename : Option Bytes) (error_lineno : ℕ) (msg : Bytes) (g h : Globals)
    (trace_val : Bytes)
    → (if g.settings.store_stacktrace then append_backtrace else pure []) g ≡ some (trace_val, h)
    → IsIndependent
        (λ d. d.want_event event_type type msg)
        (λ d. d.process_event (event type error_filename error_lineno msg trace_val))
        ds
    → process_event ds e append_backtrace event_type type error_filename error_lineno msg g
      ≡ (call_all
              (λ d. d.process_event (event type error_filename error_lineno msg trace_val))
              (wanting (λ d. d.want_event event_type type msg) h ds)
            >> elastic_event ds e (event type error_filename error_lineno msg trace_val))
          h
unfolding process_event
process_event_delivers ds e append_backtrace event_type type error_filename error_lineno msg g h
      trace_val traced h' =
    let call =
      λ (d : Driver). d.process_event (event type error_filename error_lineno msg trace_val) in
    let wants = λ (d : Driver). d.want_event event_type type msg in
    let end = elastic_event ds e (event type error_filename error_lineno msg trace_val) in
    continued _ traced
    ∙ ap (λ (r : Option (Unit {0} × Globals)). elim r [ none ↦ none | some (a, k) ↦ end k ])
        (each_driver-wanting wants call ds h h')
