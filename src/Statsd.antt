-- ===== src/Statsd.antt =====
-- driver_statsd.c: every event and the statistics are one packet each, sent on a socket of their own.
pub mod Packets
mod Tests
use php_apm.Common.{
  ℕ, Bool, true, false, ◌&&◌, not, ◌==◌, if◌then◌else◌, Bytes, codes, decimal, decimal_ℤ, Option,
  none, some, List, [], ◌∷◌, ◌++◌,
}
use php_apm.World.{Effect, opened, sent, closed, getaddrinfo, freeaddrinfo, Env}
use php_apm.Globals.{
  EventArgs, Globals, Run, Status, success, pure, fault, ◌>>=◌, ◌>>◌, get, emit, sprintf,
}
use php_apm.Driver.Level.{
  e_error, e_warning, e_parse, e_notice, e_core_error, e_core_warning, e_compile_error,
  e_compile_warning, e_user_error, e_user_warning, e_user_notice, e_strict, e_recoverable_error,
  e_deprecated, e_user_deprecated, e_exception,
}

-- the `switch` on the type
unfoldable pub type_string : ℕ → Bytes
type_string type =
    if type == e_exception
    then codes "exception"
    else if type == e_error
    then codes "error"
    else if type == e_warning
    then codes "warning"
    else if type == e_parse
    then codes "parse_error"
    else if type == e_notice
    then codes "notice"
    else if type == e_core_error
    then codes "core_error"
    else if type == e_core_warning
    then codes "core_warning"
    else if type == e_compile_error
    then codes "compile_error"
    else if type == e_compile_warning
    then codes "compile_warning"
    else if type == e_user_error
    then codes "user_error"
    else if type == e_user_warning
    then codes "user_warning"
    else if type == e_user_notice
    then codes "user_notice"
    else if type == e_strict
    then codes "strict"
    else if type == e_recoverable_error
    then codes "recoverable_error"
    else if type == e_deprecated
    then codes "deprecated"
    else if type == e_user_deprecated
    then codes "user_deprecated"
    else codes "unknown"

unfoldable pub event_data : (prefix : Bytes) → ℕ → Bytes
event_data prefix type = prefix ++ codes "." ++ type_string type ++ codes ":1|ms"

module _ (env : Env) where
  -- `socket`, the body if that succeeds, `close`. The address is read first.
  abbrev with_socket : (ℕ → Run (Unit {0})) → Run (Unit {0})
  with_socket body g = if not g.statsd.servinfo then none else elim (env.socket g.log) [
    | none ↦ some (tt, g)
    | some fd ↦ (do emit (opened fd); body fd; emit (closed fd)) g
  ]

  -- `apm_driver_statsd_process_event`
  unfoldable pub process_event : EventArgs → Run (Unit {0})
  process_event x = with_socket λ fd. do
    g ← get
    data_text ← sprintf 1024 (event_data g.statsd.prefix x.type)
    emit (sent fd data_text)

  unfoldable pub stats_data : Globals → Bytes
  stats_data g =
      let prefix = g.statsd.prefix in
      prefix
      ++ codes ".duration:"
      ++ env.print_msec g.duration
      ++ codes "|ms\n"
      ++ prefix
      ++ codes ".user_cpu:"
      ++ env.print_msec g.user_cpu
      ++ codes "|ms\n"
      ++ prefix
      ++ codes ".sys_cpu:"
      ++ env.print_msec g.sys_cpu
      ++ codes "|ms\n"
      ++ prefix
      ++ codes ".mem_peak_usage:"
      ++ decimal_ℤ g.mem_peak_usage
      ++ codes "|g\n"
      ++ prefix
      ++ codes ".response.code."
      ++ decimal_ℤ (env.http_response_code g.log)
      ++ codes ":1|c"

  -- `apm_driver_statsd_process_stats`
  unfoldable pub process_stats : Run (Unit {0})
  process_stats =
      with_socket
        λ fd. do g ← get; data_text ← sprintf 1024 (stats_data g); emit (sent fd data_text)

  -- `apm_driver_statsd_minit`; the port is printed into eight bytes
  unfoldable pub minit : Run Status
  minit = do
    g ← get
    if not (g.settings.enabled && g.statsd.settings.enabled) then pure success else do
      port ← sprintf 8 (decimal g.statsd.port)
      emit (getaddrinfo g.statsd.host port)
      λ h. pure success (record h {
        statsd =
            if env.resolves g.log g.statsd.host port
            then record h.statsd { servinfo = true }
            else record h.statsd { settings = record h.statsd.settings { enabled = false } };
      })

-- `apm_driver_statsd_rinit` and `apm_driver_statsd_rshutdown`
unfoldable pub rinit : Run Status
rinit = pure success

unfoldable pub rshutdown : Run Status
rshutdown = pure success

-- `apm_driver_statsd_mshutdown`
unfoldable pub mshutdown : Run Status
mshutdown g =
    if not (g.settings.enabled && g.statsd.settings.enabled)
    then pure success g
    else (do emit freeaddrinfo; pure success) g
