-- ===== src/Apm.antt =====
-- apm.c: the module's life cycle, the callbacks that it installs in the engine, and the loops over the
-- drivers. The list of drivers is a parameter, since the build's options decide which ones are
-- there (`apm_driver_*_create`), and so are the trace of an event and the driver for Elasticsearch.
pub mod Hooks
pub mod Dispatch
pub mod Silence
pub mod Drivers
pub mod Entries
pub mod Locality
pub mod Composed
pub mod Whole
pub mod Traced
pub mod Ready
pub mod Returns
pub mod Begins
pub mod Reports
pub mod Ends
pub mod Served
mod Tests
use php_apm.Common.{
  ℕ, pos, Bool, true, false, ◌&&◌, ◌||◌, if◌then◌else◌, Bytes, c_string, codes, is_some, Option,
  none, some, List, [], ◌∷◌,
}
use php_apm.World.{Timeval, Rusage, Effect, old_error_cb_called, opcode_handler_called, Log, Env}
use php_apm.Globals.{
  EventArgs, Hook, apm_hook, Globals, Run, Status, success, failure, pure, ◌>>=◌, ◌>>◌, get, emit,
  when,
}
use php_apm.Request.{empty_request_data}
use php_apm.Driver.{EventType, error_event, exception_event, Driver}
use php_apm.Driver.Level.{e_exception}

-- `if (test(driver)) call(driver)` for every driver, each on the globals that the last one left
unfoldable pub each_driver :
    (Driver → Globals → Bool) → (Driver → Run (Unit {0})) → List Driver → Run (Unit {0})
each_driver wants call [] = pure tt
each_driver wants call (d ∷ ds) =
    (do g ← get; when (wants d g) (call d)) >> each_driver wants call ds

abbrev pub on_success : Run Status → Status → Run Status
on_success m success = m
on_success m failure = pure failure

-- The loops that stop at a driver's failure.
unfoldable pub until_failure :
    (Driver → Globals → Bool) → (Driver → Run Status) → List Driver → Run Status
until_failure wants call [] = pure success
until_failure wants call (d ∷ ds) = do
  g ← get
  s ← (if wants d g then call d else pure success)
  on_success (until_failure wants call ds) s

abbrev pub worse : Status → Status → Status
worse failure code = failure
worse success code = code

-- The loop of RSHUTDOWN, which remembers a failure and goes on.
unfoldable pub all_shut_down : List Driver → Status → Run Status
all_shut_down [] code = pure code
all_shut_down (d ∷ ds) code = do
  g ← get
  s ← (if d.is_enabled g then d.rshutdown else pure success)
  all_shut_down ds (worse s code)

-- the first driver that wants statistics ends the search
unfoldable pub stats_wanted : List Driver → Globals → Bool
stats_wanted [] g = false
stats_wanted (d ∷ ds) g = let rest = stats_wanted ds g in if d.want_stats g then true else rest

-- The driver for Elasticsearch, which stands outside the list; `none` where curl was not found.
pub record Elastic : Type 0 where
  pub process_event : EventArgs → Run (Unit {0})
  pub process_stats : Run (Unit {0})
  pub minit : Run Status
  pub mshutdown : Run Status
  pub rshutdown : Run (Unit {0})

-- What the throw hook reads of an exception.
pub record Exception : Type 0 where
  pub message : Bytes
  pub file : Bytes
  pub line : ℕ

module _ (drivers : List Driver) (elastic : Option Elastic) where
  abbrev pub elastic_event : EventArgs → Run (Unit {0})
  elastic_event x g = elim elastic [
    | none ↦ some (tt, g)
    | some e ↦ when g.elasticsearch.settings.enabled (e.process_event x) g
  ]

  abbrev pub elastic_end : Run (Unit {0})
  elastic_end g = elim elastic [
    | none ↦ some (tt, g)
    | some e ↦ when g.elasticsearch.settings.enabled (e.process_stats >> e.rshutdown) g
  ]

  module _ (append_backtrace : Run Bytes) where
    -- `process_event`; the drivers get the trace as a `char *`, up to its first NUL.
    unfoldable pub process_event : EventType → ℕ → Option Bytes → ℕ → Bytes → Run (Unit {0})
    unfolding each_driver
    process_event event_type type error_filename error_lineno msg = do
      g ← get
      trace_str ← (if g.settings.store_stacktrace then append_backtrace else pure [])
      let x : EventArgs = record {
        type = type;
        error_filename = error_filename;
        error_lineno = error_lineno;
        msg = some msg;
        trace = some (c_string trace_str);
      }
      each_driver (λ d. d.want_event event_type type msg) (λ d. d.process_event x) drivers
      elastic_event x

    -- `apm_error_cb`; the message is the formatted one
    unfoldable pub apm_error_cb : ℕ → Option Bytes → ℕ → Bytes → Run (Unit {0})
    unfolding process_event
    apm_error_cb type error_filename error_lineno msg = do
      g ← get
      when g.settings.event_enabled (process_event error_event type error_filename error_lineno msg)
      emit (old_error_cb_called type msg error_lineno)

    -- `apm_throw_exception_hook`
    unfoldable pub apm_throw_exception_hook : Option Exception → Run (Unit {0})
    unfolding process_event
    apm_throw_exception_hook none = pure tt
    apm_throw_exception_hook (some e) = do
      g ← get
      when g.settings.event_enabled
          (process_event exception_event e_exception (some e.file) e.line e.message)

  abbrev pub install : Globals → Globals
  install g = record g { zend_error_cb = apm_hook; throw_exception_hook = some apm_hook }

  abbrev pub elastic_status : (Elastic → Run Status) → Run (Unit {0})
  elastic_status call g = elim elastic [ none ↦ some (tt, g) | some e ↦ (do s ← call e; pure tt) g ]

  -- PHP_MINIT_FUNCTION
  unfoldable pub minit : Run Status
  unfolding until_failure
  minit = do
    λ g. pure tt (record g { old_error_cb = g.zend_error_cb })
    g ← get
    s ←
        (if g.settings.enabled
          then until_failure (λ d h. true) (λ d. d.minit) drivers
            >>= on_success (λ h. pure success (install h))
          else pure success)
    on_success (elastic_status (λ e. e.minit) >> pure success) s

  -- PHP_MSHUTDOWN_FUNCTION
  unfoldable pub mshutdown : Run Status
  unfolding until_failure
  mshutdown = do
    g ← get
    s ←
        (if g.settings.enabled
          then until_failure (λ d h. true) (λ d. d.mshutdown) drivers
          else pure success)
    on_success
        (elastic_status (λ e. e.mshutdown) >> λ h.
          pure success (record h { zend_error_cb = h.old_error_cb }))
        s

  -- RINIT's preparation: the handlers for the silence operator, the request's data, the clocks
  unfoldable pub prepared : Env → Globals → Globals
  prepared env g =
      let g = record g {
        orig_begin_silence_handler = g.begin_silence_handler;
        begin_silence_handler = some apm_hook;
        orig_end_silence_handler = g.end_silence_handler;
        end_silence_handler = some apm_hook;
        request_data = empty_request_data;
      } in
      if g.settings.event_enabled
      then record g { begin_tp = env.gettimeofday g.log; begin_usg = env.getrusage g.log }
      else g

  -- PHP_RINIT_FUNCTION
  unfoldable pub rinit : Env → Run Status
  unfolding until_failure prepared
  rinit env g =
      if g.settings.enabled
      then (until_failure (λ d. d.is_enabled) (λ d. d.rinit) drivers
            >>= on_success (λ h. pure success (install h)))
          (prepared env g)
      else pure success g

  -- RSHUTDOWN's measurements; without a reading of the usage its times are what they were
  unfoldable pub measured : Env → Globals → Globals
  measured env g =
      let end_tp = env.gettimeofday g.log in
      let g = record g {
        duration = env.elapsed g.begin_tp end_tp;
        mem_peak_usage = env.memory_peak_usage true g.log;
      } in
      elim (env.getrusage g.log) [
        | none ↦ g
        | some usg ↦
            let begin = begin_of g.begin_usg in
            record g {
              user_cpu = env.elapsed begin.ru_utime usg.ru_utime;
              sys_cpu = env.elapsed begin.ru_stime usg.ru_stime;
            }
      ]
    where
      begin_of : Option Rusage → Rusage
      begin_of none = record {
        ru_utime = record { tv_sec = pos 0; tv_usec = pos 0 };
        ru_stime = record { tv_sec = pos 0; tv_usec = pos 0 };
      }
      begin_of (some u) = u

  unfoldable pub above_threshold : Env → Globals → Bool
  above_threshold env g =
      env.exceeds g.duration g.settings.stats_duration_threshold
      || env.exceeds g.user_cpu g.settings.stats_user_cpu_threshold
      || env.exceeds g.sys_cpu g.settings.stats_sys_cpu_threshold

  -- the statistics
  unfoldable pub report_stats : Env → Run (Unit {0})
  unfolding stats_wanted measured above_threshold each_driver
  report_stats env g =
      if stats_wanted drivers g
      then (let h = measured env g in
          when (above_threshold env h)
            (each_driver (λ d. d.want_stats) (λ d. d.process_stats) drivers) h)
      else pure tt g

  abbrev pub restore_handlers : Globals → Globals
  restore_handlers g = record g {
    begin_silence_handler = g.orig_begin_silence_handler;
    end_silence_handler = g.orig_end_silence_handler;
  }

  abbrev pub restore_callbacks : Globals → Globals
  restore_callbacks g = record g {
    zend_error_cb = g.old_error_cb;
    throw_exception_hook = none;
    request_data = record g.request_data { cookies = []; post_vars = [] };
  }

  -- PHP_RSHUTDOWN_FUNCTION
  unfoldable pub rshutdown : Env → Run Status
  unfolding report_stats all_shut_down
  rshutdown env g =
      if g.settings.enabled
      then (do
        report_stats env
        elastic_end
        code ← all_shut_down drivers success
        λ h. pure code (restore_callbacks h))
          (restore_handlers g)
      else pure success g

abbrev pub call_original : Option Hook → Bool → Run (Unit {0})
call_original none b = pure tt
call_original (some h) b = emit (opcode_handler_called b)

-- `apm_begin_silence_opcode_handler` and `apm_end_silence_opcode_handler`
unfoldable pub silence : (begin : Bool) → Run (Unit {0})
silence true g =
    call_original g.orig_begin_silence_handler true (record g { currently_silenced = true })
silence false g =
    call_original g.orig_end_silence_handler false (record g { currently_silenced = false })
