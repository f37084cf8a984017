-- ===== src/Socket/Shutdown.antt =====
-- driver_socket.c as a driver: `apm_driver_socket_rshutdown`, which reports a request to every
-- connection, and the functions of the event list as runs on the globals.
use php_apm.Common.{
  ℕ, pos, Bool, not, ◌&&◌, ◌||◌, if◌then◌else◌, Bytes, codes, c_string, Option, none, some, List,
  [], ◌∷◌, ◌++◌,
}
use php_apm.World.{
  sent, closed, Env, Scalar, json_string, json_long, json_double, json_zval, JsonValue, scalar,
  array, Var,
}
use php_apm.Globals.{
  EventArgs, Item, SocketState, Globals, Run, Status, success, pure, fault, ◌>>=◌, ◌>>◌, get, emit,
}
use php_apm.Request.{extract_data}
use php_apm.Socket
use php_apm.Socket.{Report, collect_errors, has_events, clear_events}
use php_apm.Socket.Connect.{connect_all}

-- The array `data`, keys and values in the order in which they are added.
abbrev pub Fields : Type 0
Fields = List (Bytes × JsonValue)

-- A part of the driver that faults or has a result, as a run that changes nothing.
abbrev pub from_list : {A : Type 0} → (SocketState → Option A) → Run A
from_list f g = elim (f g.socket) [ none ↦ none | some a ↦ some (a, g) ]

-- A part of the driver that changes its own state.
abbrev pub on_list : (SocketState → Option SocketState) → Run (Unit {0})
on_list f g = elim (f g.socket) [ none ↦ none | some s ↦ some (tt, record g { socket = s }) ]

-- `add_assoc_string_ex`, which takes the length of the string
abbrev pub string_field : Bytes → Option Bytes → Run Fields
string_field key none = fault
string_field key (some s) = pure ((key, scalar (json_string s)) ∷ [])

-- ADD_Z_DATA
abbrev pub zval_of : Bytes → Option Var → Run Fields
zval_of key none = fault
zval_of key (some v) = pure ((key, scalar (json_zval v)) ∷ [])

abbrev pub add_z_data : Bytes → Item → Run Fields
add_z_data key i = if i.found then zval_of key i.var else pure []

abbrev pub error_fields : Report → List (Bytes × Scalar)
error_fields r =
    (codes "type", json_long (pos r.type))
    ∷ (codes "line", json_long (pos r.line))
    ∷ (codes "file", json_string r.file)
    ∷ (codes "message", json_string r.message)
    ∷ (codes "trace", json_string r.trace)
    ∷ []

abbrev pub all_error_fields : List Report → List (List (Bytes × Scalar))
all_error_fields [] = []
all_error_fields (r ∷ rs) = error_fields r ∷ all_error_fields rs

-- The loops over the connections.
unfoldable pub send_all : List ℕ → Bytes → Run (Unit {0})
send_all [] buf = pure tt
send_all (sd ∷ sds) buf = emit (sent sd buf) >> send_all sds buf

unfoldable pub close_all : List ℕ → Run (Unit {0})
close_all [] = pure tt
close_all (sd ∷ sds) = emit (closed sd) >> close_all sds

module _ (env : Env) where
  abbrev pub above_threshold : Globals → Bool
  above_threshold g =
      env.exceeds g.duration g.settings.stats_duration_threshold
      || env.exceeds g.user_cpu g.settings.stats_user_cpu_threshold
      || env.exceeds g.sys_cpu g.settings.stats_sys_cpu_threshold

  abbrev pub request_details : Globals → Run Fields
  request_details g = do
    ip ← add_z_data (codes "ip") g.request_data.ip
    referer ← add_z_data (codes "referer") g.request_data.referer
    method ← add_z_data (codes "method") g.request_data.method
    pure (ip ++ referer ++ method)

  -- The fields of a request with an event, or with statistics above a threshold.
  unfoldable pub detail_fields : Bool → Run Fields
  detail_fields events g = if events || above_threshold g then request_details g g else some ([], g)

  abbrev pub stats_fields : Globals → Fields
  stats_fields g =
      if g.socket.settings.stats_enabled
      then (codes "duration", scalar (json_double g.duration))
        ∷ (codes "mem_peak_usage", scalar (json_long g.mem_peak_usage))
        ∷ (codes "user_cpu", scalar (json_double g.user_cpu))
        ∷ (codes "sys_cpu", scalar (json_double g.sys_cpu))
        ∷ []
      else []

  unfoldable pub errors_field : Bool → Run Fields
  errors_field events =
      if events
      then (do
        rs ← from_list collect_errors
        pure ((codes "errors", array (all_error_fields rs)) ∷ []))
      else pure []

  -- `data`, as it is encoded
  unfoldable pub request_fields : Run Fields
  unfolding detail_fields errors_field
  request_fields = do
    g ← get
    let rd = g.request_data
    application_id ← string_field (codes "application_id") g.settings.application_id
    ts ← add_z_data (codes "ts") rd.ts
    script ← add_z_data (codes "script") rd.script
    uri ← add_z_data (codes "uri") rd.uri
    host ← add_z_data (codes "host") rd.host
    events ← from_list has_events
    details ← detail_fields events
    errors ← errors_field events
    pure (
        application_id
        ++ ((codes "response_code", scalar (json_long (env.http_response_code g.log))) ∷ [])
        ++ ts
        ++ script
        ++ uri
        ++ host
        ++ details
        ++ stats_fields g
        ++ errors)

  -- what `rshutdown` does with the connections it has
  unfoldable pub report_to : List ℕ → Run Status
  unfolding request_fields send_all close_all
  report_to sds = do
    fields ← request_fields
    send_all sds (env.php_json_encode fields)
    on_list clear_events
    close_all sds
    pure success

  -- `apm_driver_socket_rshutdown`
  unfoldable pub rshutdown : Run Status
  unfolding report_to
  rshutdown = do
    g ← get
    if not (g.settings.enabled && g.socket.settings.enabled) then pure success else do
      extract_data env
      h ← get
      sds ← connect_all env (c_string h.socket.path)
      report_to sds

-- `apm_driver_socket_process_event`
unfoldable pub process_event : EventArgs → Run (Unit {0})
process_event x g = on_list (Socket.process_event g.settings.store_stacktrace x) g

-- `apm_driver_socket_rinit`
unfoldable pub rinit : Run Status
rinit g = pure success (record g { socket = Socket.rinit g.socket })

-- `apm_driver_socket_minit`, `apm_driver_socket_mshutdown` and `apm_driver_socket_process_stats`
unfoldable pub minit : Run Status
minit = pure success

unfoldable pub mshutdown : Run Status
mshutdown = pure success

unfoldable pub process_stats : Run (Unit {0})
process_stats = pure tt
