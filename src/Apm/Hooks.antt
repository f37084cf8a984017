-- ===== src/Apm/Hooks.antt =====
-- The engine's hooks over a request: RINIT and RSHUTDOWN of apm.c.
use php_apm.Common.{
  Bool, true, false, if◌then◌else◌, Option, none, some, List, [], ◌∷◌, ◌≡◌, sym, ap, ◌∙◌, All,
  arith, Bool-cases, inl, inr,
}
use php_apm.World.{Env}
use php_apm.Globals.{Globals, Hook, Run, Status, success, failure, pure, ◌>>=◌}
use php_apm.Globals.Runs.{bound, then_value, else_value, Keeps-pure, some_inj}
use php_apm.Driver.{Driver}
use php_apm.Apm.{
  on_success, worse, until_failure, each_driver, all_shut_down, stats_wanted, measured,
  above_threshold, report_stats, Elastic, elastic_end, prepared, install, restore_handlers, rinit,
  rshutdown,
}

-- The handlers of the silence operator, those that they replace, and the callback for errors that
-- was there before the module.
abbrev pub handlers : Globals → Option Hook × Option Hook × Option Hook × Option Hook × Hook
handlers g = (
  g.begin_silence_handler, g.end_silence_handler, g.orig_begin_silence_handler,
  g.orig_end_silence_handler, g.old_error_cb,
)

-- A run that leaves them alone.
abbrev pub IsQuiet : {A : Type 0} → Run A → Type 0
IsQuiet {A} m = (g : Globals) (a : A) (h : Globals) → m g ≡ some (a, h) → handlers h ≡ handlers g

pub pure-IsQuiet : {A : Type 0} (a : A) → IsQuiet (pure a)
pure-IsQuiet a g b h e = ap handlers (Keeps-pure a g b h e)

pub bind-IsQuiet :
    {A B : Type 0} (m : Run A) (f : A → Run B)
    → IsQuiet m
    → ((a : A) → IsQuiet (f a))
    → IsQuiet (m >>= f)
bind-IsQuiet m f quiet rest g b h e =
    let (a, k, e1, e2) = bound {r = m g} {f = f} e in rest a k b h e2 ∙ quiet g a k e1

pub if-IsQuiet :
    {A : Type 0} (b : Bool) (m n : Run A) → IsQuiet m → IsQuiet n → IsQuiet (if b then m else n)
if-IsQuiet true m n p q = p
if-IsQuiet false m n p q = q

on_success-IsQuiet : (m : Run Status) (s : Status) → IsQuiet m → IsQuiet (on_success m s)
on_success-IsQuiet m success p = p
on_success-IsQuiet m failure p = pure-IsQuiet failure

pub until_failure-IsQuiet :
    (wants : Driver → Globals → Bool) (call : Driver → Run Status) (ds : List Driver)
    → All (λ d. IsQuiet (call d)) ds
    → IsQuiet (until_failure wants call ds)
unfolding until_failure
until_failure-IsQuiet wants call [] h g a k e = pure-IsQuiet success g a k e
until_failure-IsQuiet wants call (d ∷ ds) (first, h) g a k e =
    bind-IsQuiet _ _ (if-IsQuiet (wants d g) (call d) (pure success) first (pure-IsQuiet success))
      (λ s. on_success-IsQuiet _ s (until_failure-IsQuiet wants call ds h)) g a k e

each_driver-IsQuiet :
    (wants : Driver → Globals → Bool) (call : Driver → Run (Unit {0})) (ds : List Driver)
    → All (λ d. IsQuiet (call d)) ds
    → IsQuiet (each_driver wants call ds)
unfolding each_driver
each_driver-IsQuiet wants call [] h g a k e = pure-IsQuiet tt g a k e
each_driver-IsQuiet wants call (d ∷ ds) (first, h) g a k e =
    bind-IsQuiet _ _ (if-IsQuiet (wants d g) (call d) (pure tt) first (pure-IsQuiet tt))
      (λ s. each_driver-IsQuiet wants call ds h) g a k e

all_shut_down-IsQuiet :
    (ds : List Driver) (code : Status)
    → All (λ d. IsQuiet d.rshutdown) ds
    → IsQuiet (all_shut_down ds code)
unfolding all_shut_down
all_shut_down-IsQuiet [] code h g a k e = pure-IsQuiet code g a k e
all_shut_down-IsQuiet (d ∷ ds) code (first, h) g a k e =
    bind-IsQuiet _ _
      (if-IsQuiet (d.is_enabled g) d.rshutdown (pure success) first (pure-IsQuiet success))
      (λ s. all_shut_down-IsQuiet ds (worse s code) h) g a k e

measured-handlers :
    (ds : List Driver) (el : Option Elastic) (env : Env) (g : Globals)
    → handlers (measured ds el env g) ≡ handlers g
unfolding measured
measured-handlers ds el env g = ground arith

prepared-handlers :
    (ds : List Driver) (el : Option Elastic) (env : Env) (g : Globals)
    → ((prepared ds el env g).orig_begin_silence_handler ≡ g.begin_silence_handler)
      × ((prepared ds el env g).orig_end_silence_handler ≡ g.end_silence_handler)
      × ((prepared ds el env g).old_error_cb ≡ g.old_error_cb)
unfolding prepared
prepared-handlers ds el env g = ground arith

report_stats-IsQuiet :
    (ds : List Driver) (el : Option Elastic) (env : Env)
    → All (λ d. IsQuiet d.process_stats) ds
    → IsQuiet (report_stats ds el env)
unfolding report_stats
report_stats-IsQuiet ds el env quiet g a k e = elim (Bool-cases (stats_wanted ds g)) [
  | inl wanted ↦
      if-IsQuiet (above_threshold ds el env (measured ds el env g)) _ (pure tt)
        (each_driver-IsQuiet (λ d. d.want_stats) (λ d. d.process_stats) ds quiet) (pure-IsQuiet tt)
        (measured ds el env g) a k (then_value (stats_wanted ds g) _ _ e wanted)
      ∙ measured-handlers ds el env g
  | inr unwanted ↦ pure-IsQuiet tt g a k (else_value (stats_wanted ds g) _ _ e unwanted)
]

rinit_saves :
    (ds : List Driver) (el : Option Elastic) (env : Env) (g g1 : Globals)
    → All (λ d. IsQuiet d.rinit) ds
    → g.settings.enabled ≡ true
    → rinit ds el env g ≡ some (success, g1)
    → handlers g1 ≡ handlers (prepared ds el env g)
unfolding rinit
rinit_saves ds el env g g1 quiet on e =
    let (a, k, e1, r1) =
      bound {r = until_failure (λ d. d.is_enabled) (λ d. d.rinit) ds (prepared ds el env g)}
        (then_value g.settings.enabled _ _ e on) in
    installed a k r1
    ∙ until_failure-IsQuiet (λ d. d.is_enabled) (λ d. d.rinit) ds quiet (prepared ds el env g) a k
        e1
  where
    installed :
        (a : Status) (k : Globals)
        → on_success (λ h. pure success (install ds el h)) a k ≡ some (success, g1)
        → handlers g1 ≡ handlers k
    installed success k e = ap handlers (some_inj _ _ _ _ e)
    installed failure k e = ap handlers (some_inj _ _ _ _ e)

rshutdown_restores :
    (ds : List Driver) (el : Option Elastic) (env : Env) (g h : Globals) (s : Status)
    → All (λ d. IsQuiet d.rshutdown) ds
    → All (λ d. IsQuiet d.process_stats) ds
    → IsQuiet (elastic_end ds el)
    → g.settings.enabled ≡ true
    → rshutdown ds el env g ≡ some (s, h)
    → (handlers h ≡ handlers (restore_handlers ds el g))
      × (h.throw_exception_hook ≡ none)
      × (h.zend_error_cb ≡ h.old_error_cb)
unfolding rshutdown
rshutdown_restores ds el env g h s ends stats elastic on e =
    let (a, g1, e1, r1) =
      bound {r = report_stats ds el env (restore_handlers ds el g)}
        (then_value g.settings.enabled _ _ e on) in
    let (b, g2, e2, r2) = bound {r = elastic_end ds el g1} r1 in
    let (code, g3, e3, r3) = bound {r = all_shut_down ds success g2} r2 in
    let end = some_inj _ _ _ _ r3 in
    let same =
      all_shut_down-IsQuiet ds success ends g2 code g3 e3
      ∙ elastic g1 b g2 e2
      ∙ report_stats-IsQuiet ds el env stats (restore_handlers ds el g) a g1 e1 in
    (
      ap handlers end ∙ same,
      ap (λ k. k.throw_exception_hook) end,
      ap (λ k. k.zend_error_cb) end ∙ sym (ap (λ k. k.old_error_cb) end),
    )

-- Where no driver touches the hooks and nothing else does during the request: a request that RINIT
-- begins with success and whose RSHUTDOWN returns leaves the opcode handlers that were there before
-- it, no hook for exceptions, and the callback for errors that MINIT found.
pub request_restores :
    (ds : List Driver) (el : Option Elastic) (env : Env) (g g1 g2 h : Globals) (s : Status)
    → All (λ d. IsQuiet d.rinit) ds
    → All (λ d. IsQuiet d.rshutdown) ds
    → All (λ d. IsQuiet d.process_stats) ds
    → IsQuiet (elastic_end ds el)
    → g.settings.enabled ≡ true
    → g2.settings.enabled ≡ true
    → rinit ds el env g ≡ some (success, g1)
    → handlers g2 ≡ handlers g1
    → rshutdown ds el env g2 ≡ some (s, h)
    → (h.begin_silence_handler ≡ g.begin_silence_handler)
      × (h.end_silence_handler ≡ g.end_silence_handler)
      × (h.throw_exception_hook ≡ none)
      × (h.zend_error_cb ≡ g.old_error_cb)
request_restores ds el env g g1 g2 h s begins ends stats elastic on on2 begun between ended =
    let start = rinit_saves ds el env g g1 begins on begun in
    let end = rshutdown_restores ds el env g2 h s ends stats elastic on2 ended in
    let (b, e, o) = prepared-handlers ds el env g in
    let saved = between ∙ start in
    let (ended_with, no_hook, callback) = end in
    (
      ap (λ x. x.0) ended_with ∙ ap (λ x. x.2) saved ∙ b,
      ap (λ x. x.1) ended_with ∙ ap (λ x. x.3) saved ∙ e,
      no_hook,
      callback ∙ ap (λ x. x.4) ended_with ∙ ap (λ x. x.4) saved ∙ o,
    )
