-- ===== src/Elasticsearch.antt =====
-- driver_elasticsearch.c: events and statistics are documents that are collected in a batch and sent
-- to the bulk interface. The batch and the log of calls are the state.
pub mod Batch
pub mod Lines
mod Tests
use php_apm.Common.{
  ℕ, zero, suc, ◌+◌, ℤ, pos, negsuc, Bool, true, false, ◌&&◌, ◌||◌, not, leb, ltb, ◌==◌,
  if◌then◌else◌, Bytes, codes, decimal, decimal_ℤ, take, length, or_else, is_some, Option, none,
  some, List, [], ◌∷◌, ◌++◌,
}
use php_apm.World.{
  Transfer, Effect, curl_easy_perform, curl_global_init, curl_global_cleanup, Log, Env,
}
use php_apm.Globals.{
  ElasticsearchState, EventArgs, Globals, Run, Status, success, pure, ◌>>=◌, ◌>>◌, emit, get, when,
}
use php_apm.Request.{extract_data, item_string}
use php_apm.Driver.Level.{
  e_error, e_warning, e_parse, e_notice, e_core_error, e_core_warning, e_compile_error,
  e_compile_warning, e_user_error, e_user_warning, e_user_notice, e_strict, e_recoverable_error,
  e_deprecated, e_user_deprecated, e_exception,
}

-- `snprintf` into a buffer of `size` bytes: the text is cut to leave room for the NUL.
abbrev pub snprintf : (room : ℕ) → Bytes → Bytes
snprintf room s = take room s

-- `x && strlen(x) > 0 ? x : y`
abbrev pub nonempty_or : Option Bytes → Option Bytes → Option Bytes
nonempty_or none y = y
nonempty_or (some []) y = y
nonempty_or (some (c ∷ s)) y = some (c ∷ s)

abbrev userpwd_of : Option Bytes → Option Bytes → Option Bytes
userpwd_of none pass = none
userpwd_of (some []) pass = none
userpwd_of (some (c ∷ s)) pass = some (snprintf 511 ((c ∷ s) ++ codes ":" ++ or_else pass []))

-- The configured timeout, if it is positive, and 5 seconds if not.
abbrev timeout_of : ℤ → ℤ
timeout_of (pos (suc n)) = pos (suc n)
timeout_of _ = pos 5

-- What curl is set up with.
unfoldable pub transfer : ElasticsearchState → Bytes → Transfer
transfer s body = record {
  url =
      snprintf 1023 (codes "http://" ++ s.host ++ codes ":" ++ decimal_ℤ s.port ++ codes "/_bulk");
  body = body;
  timeout = timeout_of s.batch_timeout;
  userpwd = userpwd_of (nonempty_or s.username s.user) (nonempty_or s.password s.pass);
}

abbrev pub is_empty : Option Bytes → Bool
is_empty none = true
is_empty (some []) = true
is_empty (some (_ ∷ _)) = false

abbrev pub batch_size_reached : ℤ → ℕ → Bool
batch_size_reached (pos (suc n)) count = leb (suc n) count
batch_size_reached _ count = false

abbrev pub reset : ElasticsearchState → ElasticsearchState
reset s = record s { batch_buffer = none; batch_count = 0 }

unfoldable pub bulk_index_header : (index : Bytes) → Bytes
bulk_index_header index =
    snprintf 511 (codes "{\"index\":{\"_index\":\"" ++ index ++ codes "\"}}" ++ 10 ∷ [])

-- what one document adds to the buffer
unfoldable pub document : (index : Bytes) → Bytes → Bytes
document index json = bulk_index_header index ++ json ++ 10 ∷ []

abbrev pub appended : Bytes → ElasticsearchState → ElasticsearchState
appended json s = record s {
  batch_buffer = some (or_else s.batch_buffer [] ++ document s.index json);
  batch_count = s.batch_count + 1;
}

module _ (env : Env) where
  -- `send_to_elasticsearch`; nothing reads its result
  unfoldable pub send_to_elasticsearch : ElasticsearchState → Log → ElasticsearchState × Log
  unfolding transfer
  send_to_elasticsearch s l =
      if not s.settings.enabled || is_empty s.batch_buffer
      then (s, l)
      else if not (env.curl_easy_init l)
      then (s, l)
      else (reset s, curl_easy_perform (transfer s (or_else s.batch_buffer [])) ∷ l)

  unfoldable pub append_to_batch : Bytes → ElasticsearchState → Log → ElasticsearchState × Log
  unfolding send_to_elasticsearch document
  append_to_batch json s l =
      if batch_size_reached s.batch_size (s.batch_count + 1)
      then send_to_elasticsearch (appended json s) l
      else (appended json s, l)

abbrev pub one_of : ℕ → List ℕ → Bool
one_of t [] = false
one_of t (x ∷ xs) = t == x || one_of t xs

-- a fatal error, as far as the response code goes
unfoldable pub is_fatal : ℕ → Bool
is_fatal type =
    one_of type
      (e_error ∷ e_parse ∷ e_core_error ∷ e_compile_error ∷ e_user_error ∷ e_exception ∷ [])

-- A response code that was not set, or says that all is well, is overridden.
unfoldable pub response_code_of : ℕ → ℤ → ℤ
unfolding is_fatal
response_code_of type (pos code) =
    if is_fatal type && (code == 0 || code == 200) then pos 500 else pos code
response_code_of type (negsuc n) = negsuc n

-- the `switch` on the type
unfoldable pub level_of : ℕ → Bytes
level_of type =
    if one_of type (
      e_exception ∷ e_error ∷ e_parse ∷ e_core_error ∷ e_compile_error ∷ e_user_error
      ∷ e_recoverable_error ∷ [])
    then codes "error"
    else if one_of type (e_warning ∷ e_core_warning ∷ e_compile_warning ∷ e_user_warning ∷ [])
    then codes "warning"
    else if one_of type
        (e_notice ∷ e_user_notice ∷ e_strict ∷ e_deprecated ∷ e_user_deprecated ∷ [])
    then codes "notice"
    else codes "error"

-- The text that `snprintf` is given for an event, before it is cut.
unfoldable pub event_json :
    (timestamp : Bytes) → (application : Option Bytes) → ℤ → EventArgs → Bytes
unfolding level_of
event_json timestamp application response_code x =
    codes "{\"@timestamp\":\""
    ++ timestamp
    ++ codes "\",\"type\":\"error\",\"level\":\""
    ++ level_of x.type
    ++ codes "\",\"error_type\":"
    ++ decimal x.type
    ++ codes ",\"message\":\""
    ++ or_else x.msg []
    ++ codes "\",\"file\":\""
    ++ or_else x.error_filename []
    ++ codes "\",\"line\":"
    ++ decimal x.error_lineno
    ++ codes ",\"trace\":\""
    ++ or_else x.trace []
    ++ codes "\",\"application\":\""
    ++ or_else application (codes "default")
    ++ codes "\",\"response_code\":"
    ++ decimal_ℤ response_code
    ++ codes "}"

abbrev pub with_batch : ElasticsearchState × Log → Globals → Globals
with_batch (s, l) g = record g { elasticsearch = s; log = l }

-- The text for the statistics of a request, before it is cut.
unfoldable pub stats_json :
    (timestamp : Bytes)
    → (memory_usage memory_peak : ℤ) → (application : Option Bytes) → (response_code : ℤ)
    → (duration uri method : Bytes) → Bytes
stats_json timestamp memory_usage memory_peak application response_code duration uri method =
    codes "{\"@timestamp\":\""
    ++ timestamp
    ++ codes "\",\"type\":\"stats\",\"memory_usage\":"
    ++ decimal_ℤ memory_usage
    ++ codes ",\"memory_peak\":"
    ++ decimal_ℤ memory_peak
    ++ codes ",\"application\":\""
    ++ or_else application (codes "default")
    ++ codes "\",\"response_code\":"
    ++ decimal_ℤ response_code
    ++ codes ",\"duration_ms\":"
    ++ duration
    ++ codes ",\"uri\":\""
    ++ uri
    ++ codes "\",\"method\":\""
    ++ method
    ++ codes "\"}"

module _ (env : Env) where
  -- the document of an event, as it is put into the batch
  unfoldable pub event_document : EventArgs → Globals → Bytes
  event_document x g = snprintf 8191 (
      event_json (env.timestamp g.log) g.settings.application_id
        (response_code_of x.type (env.http_response_code g.log)) x)

  -- `apm_driver_elasticsearch_process_event`
  unfoldable pub process_event : EventArgs → Globals → Globals
  unfolding append_to_batch event_document
  process_event x g =
      if not g.elasticsearch.settings.enabled
      then g
      else with_batch (append_to_batch env (event_document x g) g.elasticsearch g.log) g

  -- `apm_driver_elasticsearch_process_stats`
  unfoldable pub process_stats : Run (Unit {0})
  unfolding append_to_batch stats_json
  process_stats g =
      if not (g.elasticsearch.settings.enabled && g.elasticsearch.settings.stats_enabled)
      then pure tt g
      else (do
        extract_data env
        g ← get
        uri ← item_string g.request_data.uri
        method ← item_string g.request_data.method
        let json = snprintf 4095 (
            stats_json (env.timestamp g.log) (env.memory_usage g.log)
              (env.memory_peak_usage false g.log) g.settings.application_id
              (env.http_response_code g.log)
              (env.print_duration g.begin_tp (env.gettimeofday g.log)) uri method)
        λ h. pure tt (with_batch (append_to_batch env json h.elasticsearch h.log) h))
          g

  -- `apm_driver_elasticsearch_rshutdown`
  unfoldable pub rshutdown : Globals → Globals
  unfolding send_to_elasticsearch
  rshutdown g =
      if ltb 0 g.elasticsearch.batch_count
      then with_batch (send_to_elasticsearch env g.elasticsearch g.log) g
      else g

-- `apm_driver_elasticsearch_minit` and `apm_driver_elasticsearch_mshutdown`
unfoldable pub minit : Run Status
minit = do emit curl_global_init; pure success

unfoldable pub mshutdown : Run Status
mshutdown = do emit curl_global_cleanup; pure success
