-- ===== src/Apm/Whole.antt =====
-- apm.c with the list of drivers that a build has, whatever that is.
mod Tests
use php_apm.Common.{
  ℕ, Bool, true, false, if◌then◌else◌, Bytes, Option, none, some, List, [], ◌∷◌, ◌++◌, ◌≡◌, ◌≢◌,
  refl, sym, ap, ◌∙◌, All, arith, Bool-cases, inl, inr,
}
use php_apm.World.{Env}
use php_apm.Globals.{apm_hook, EventArgs, Globals, Run, Status, success, pure, ◌>>◌}
use php_apm.Globals.Runs.{continued, if_true, if_false}
use php_apm.Globals.Owners.{Owner, of_sqlite3, of_mysql, of_statsd, of_socket, IsLocal, with_part}
use php_apm.Driver.{EventType, Driver, create}
use php_apm.Apm.{
  process_event, elastic_event, elastic_end, until_failure, rinit, rshutdown, prepared, install,
}
use php_apm.Apm.Drivers.{Build, built, driver_of, all_drivers, drivers, elastic}
use php_apm.Apm.Composed.{
  KeepsToItself, driver_of-KeepsToItself, IsLocal-IsQuiet, elastic_end-IsQuiet,
}
use php_apm.Apm.Dispatch.{call_all, wanting, event, IsIndependent, process_event_delivers}
use php_apm.Apm.Hooks.{IsQuiet, until_failure-IsQuiet, handlers, request_restores}
use php_apm.Sqlite3
use php_apm.Mysql
use php_apm.Statsd
use php_apm.Socket.Shutdown

abbrev AreDistinct : List Owner → Type 0
AreDistinct [] = Unit
AreDistinct (o ∷ os) = All (λ o'. o ≢ o') os × AreDistinct os

built-AreDistinct : (b : Build) → AreDistinct (built b)
unfolding built
built-AreDistinct b = ground arith

-- What a driver wants does not depend on the part of another.
wants-local :
    (env : Env) (type : EventType) (level : ℕ) (msg : Bytes) (o o' : Owner) (g k : Globals)
    → o ≢ o'
    → (driver_of env o').want_event type level msg (with_part o g k)
      ≡ (driver_of env o').want_event type level msg g
unfolding driver_of
wants-local env type level msg of_sqlite3 of_sqlite3 g k n = absurd (n refl)
wants-local env type level msg of_sqlite3 of_mysql g k n = refl
wants-local env type level msg of_sqlite3 of_statsd g k n = refl
wants-local env type level msg of_sqlite3 of_socket g k n = refl
wants-local env type level msg of_mysql of_sqlite3 g k n = refl
wants-local env type level msg of_mysql of_mysql g k n = absurd (n refl)
wants-local env type level msg of_mysql of_statsd g k n = refl
wants-local env type level msg of_mysql of_socket g k n = refl
wants-local env type level msg of_statsd of_sqlite3 g k n = refl
wants-local env type level msg of_statsd of_mysql g k n = refl
wants-local env type level msg of_statsd of_statsd g k n = absurd (n refl)
wants-local env type level msg of_statsd of_socket g k n = refl
wants-local env type level msg of_socket of_sqlite3 g k n = refl
wants-local env type level msg of_socket of_mysql g k n = refl
wants-local env type level msg of_socket of_statsd g k n = refl
wants-local env type level msg of_socket of_socket g k n = absurd (n refl)

module _ (env : Env) (type : EventType) (level : ℕ) (msg : Bytes) where
  wants_same :
      (o : Owner) (os : List Owner) (g h : Globals)
      → All (λ o'. o ≢ o') os
      → h ≡ with_part o g h
      → All
          (λ d. d.want_event type level msg h ≡ d.want_event type level msg g)
          (all_drivers env os)
  wants_same o [] g h n e = tt
  wants_same o (o' ∷ os) g h (n, ns) e = (
    ap ((driver_of env o').want_event type level msg) e ∙ wants-local env type level msg o o' g h n,
    wants_same o os g h ns e,
  )

  all_drivers-IsIndependent :
      (x : EventArgs) (os : List Owner)
      → AreDistinct os
      → IsIndependent
          (λ d. d.want_event type level msg)
          (λ d. d.process_event x)
          (all_drivers env os)
  all_drivers-IsIndependent x [] h = tt
  all_drivers-IsIndependent x (o ∷ os) (n, h) = (
    λ g k e. wants_same o os g k n ((driver_of-KeepsToItself env o).process_event x g tt k e),
    all_drivers-IsIndependent x os h,
  )

-- In every build, once the trace of an event is there, the event goes to the drivers that want it and
-- to no other, each of them once and in the order of the list, and then to the driver for
-- Elasticsearch if that is there and enabled.
pub event_delivered :
    (env : Env) (b : Build) (append_backtrace : Run Bytes) (event_type : EventType) (type : ℕ)
    (error_filename : Option Bytes) (error_lineno : ℕ) (msg : Bytes) (g h : Globals)
    (trace_val : Bytes)
    → (if g.settings.store_stacktrace then append_backtrace else pure []) g ≡ some (trace_val, h)
    → process_event
        (drivers env b)
        (elastic env b)
        append_backtrace
        event_type
        type
        error_filename
        error_lineno
        msg
        g
      ≡ (call_all
              (λ d. d.process_event (event type error_filename error_lineno msg trace_val))
              (wanting (λ d. d.want_event event_type type msg) h (drivers env b))
            >> elastic_event
                (drivers env b)
                (elastic env b)
                (event type error_filename error_lineno msg trace_val))
          h
unfolding drivers
event_delivered env b append_backtrace event_type type error_filename error_lineno msg g h trace_val
      traced =
    process_event_delivers (all_drivers env (built b)) (elastic env b) append_backtrace event_type
      type error_filename error_lineno msg g h trace_val traced
      (all_drivers-IsIndependent env event_type type msg _ (built b) (built-AreDistinct b))

pub all_drivers-All :
    (env : Env) (P : Driver → Type 0) (os : List Owner)
    → ((o : Owner) → P (driver_of env o))
    → All P (all_drivers env os)
all_drivers-All env P [] h = tt
all_drivers-All env P (o ∷ os) h = (h o, all_drivers-All env P os h)

-- RINIT of a driver succeeds, whatever the globals are.
driver_of-begins :
    (env : Env) (o : Owner) (g : Globals)
    → (h : Globals) × ((driver_of env o).rinit g ≡ some (success, h))
unfolding driver_of Sqlite3.rinit Mysql.rinit Statsd.rinit Shutdown.rinit
driver_of-begins env of_sqlite3 g = (_, refl)
driver_of-begins env of_mysql g = (_, refl)
driver_of-begins env of_statsd g = (_, refl)
driver_of-begins env of_socket g = (_, refl)

all_begin :
    (env : Env) (os : List Owner) (g : Globals)
    → (h : Globals) × (until_failure (λ d. d.is_enabled) (λ d. d.rinit) (all_drivers env os) g
        ≡ some (success, h))
unfolding until_failure
all_begin env [] g = (g, refl)
all_begin env (o ∷ os) g =
    let (k, e) = begun ((driver_of env o).is_enabled g) in
    let (h, e') = all_begin env os k in (h, continued _ e ∙ e')
  where
    begun :
        (b : Bool)
        → (k : Globals) × ((if b then (driver_of env o).rinit else pure success) g
            ≡ some (success, k))
    begun true = driver_of-begins env o g
    begun false = (g, refl)

-- RINIT of an enabled module succeeds in every build, and from then on the engine's errors and
-- exceptions go to the module, as do the two opcodes of the silence operator, whose earlier handlers
-- are kept.
pub request_begins :
    (env : Env) (b : Build) (g : Globals)
    → g.settings.enabled ≡ true
    → (h : Globals) × (rinit (drivers env b) (elastic env b) env g ≡ some (success, h))
      × (h.zend_error_cb ≡ apm_hook)
      × (h.throw_exception_hook ≡ some apm_hook)
      × (handlers h ≡ (
        some apm_hook,
        some apm_hook,
        g.begin_silence_handler,
        g.end_silence_handler,
        g.old_error_cb,
      ))
unfolding rinit drivers prepared
request_begins env b g on =
    let start = prepared (drivers env b) (elastic env b) env g in
    let (k, ran) = all_begin env (built b) start in
    let quiet =
      until_failure-IsQuiet (λ d. d.is_enabled) (λ d. d.rinit) (all_drivers env (built b))
        (all_drivers-All env (λ d. IsQuiet d.rinit) (built b)
          λ o. IsLocal-IsQuiet o _ (driver_of-KeepsToItself env o).rinit)
        start success k ran in
    (
      install (drivers env b) (elastic env b) k,
      if_true _ _ _ on ∙ continued _ ran,
      refl,
      refl,
      quiet ∙ prepared_handlers,
    )
  where
    prepared_handlers : handlers (prepared (drivers env b) (elastic env b) env g) ≡ (
      some apm_hook,
      some apm_hook,
      g.begin_silence_handler,
      g.end_silence_handler,
      g.old_error_cb,
    )
    prepared_handlers = elim (Bool-cases g.settings.event_enabled) [
      | inl measured ↦ ap handlers (if_true _ _ _ measured)
      | inr unmeasured ↦ ap handlers (if_false _ _ _ unmeasured)
    ]

-- A whole request in any build, during which nothing else touches the hooks: if the module is enabled
-- at its beginning and at its end and RSHUTDOWN returns, that leaves the opcode handlers that were there
-- before the request, no hook for exceptions, and the callback for errors that MINIT found.
pub request_restored :
    (env : Env) (b : Build) (g g1 g2 h : Globals) (s : Status)
    → g.settings.enabled ≡ true
    → g2.settings.enabled ≡ true
    → rinit (drivers env b) (elastic env b) env g ≡ some (success, g1)
    → handlers g2 ≡ handlers g1
    → rshutdown (drivers env b) (elastic env b) env g2 ≡ some (s, h)
    → (h.begin_silence_handler ≡ g.begin_silence_handler)
      × (h.end_silence_handler ≡ g.end_silence_handler)
      × (h.throw_exception_hook ≡ none)
      × (h.zend_error_cb ≡ g.old_error_cb)
unfolding drivers
request_restored env b g g1 g2 h s on on2 begun between ended =
    let quiet : (o : Owner) → KeepsToItself o (driver_of env o) = driver_of-KeepsToItself env in
    request_restores (all_drivers env (built b)) (elastic env b) env g g1 g2 h s
      (all_drivers-All env (λ d. IsQuiet d.rinit) (built b)
        λ o. IsLocal-IsQuiet o _ (quiet o).rinit)
      (all_drivers-All env (λ d. IsQuiet d.rshutdown) (built b)
        λ o. IsLocal-IsQuiet o _ (quiet o).rshutdown)
      (all_drivers-All env (λ d. IsQuiet d.process_stats) (built b)
        λ o. IsLocal-IsQuiet o _ (quiet o).process_stats)
      (elastic_end-IsQuiet env b) on on2 begun between ended
