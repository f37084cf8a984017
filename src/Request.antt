-- ===== src/Request.antt =====
-- The data of the request, apm.c: `extract_data` and its macro REGISTER_INFO, and the macros by which
-- the drivers read it.
pub mod Extract
pub mod Returns
mod Tests
use php_apm.Common.{
  ℕ, ltb, Bool, true, false, ◌||◌, if◌then◌else◌, is_some, Bytes, bytes_eq, codes, Option, none,
  some, List, [], ◌∷◌, ◌++◌,
}
use php_apm.World.{Var, text, long, other, HttpArray, Env}
use php_apm.Globals.{Item, RequestData, Globals, Run, pure, fault, ◌>>=◌}

abbrev pub is_string : Var → Bool
is_string (text _) = true
is_string _ = false

abbrev pub is_long : Var → Bool
is_long (long _) = true
is_long _ = false

-- `zend_hash_find`
unfoldable pub find : Bytes → List (Bytes × Var) → Option Var
find name [] = none
find name ((k, v) ∷ rest) = if bytes_eq k name then some v else find name rest

abbrev pub has_type : (Var → Bool) → Option Var → Bool
has_type is_type none = false
has_type is_type (some v) = is_type v

-- REGISTER_INFO: the pointer is written in any case, the flag only set.
unfoldable pub register_info : List (Bytes × Var) → Bytes → (Var → Bool) → Item → Item
register_info tmp name is_type dest =
    let v = find name tmp in record dest { var = v; found = has_type is_type v || dest.found }

unfoldable pub register_server : (store_ip : Bool) → List (Bytes × Var) → RequestData → RequestData
unfolding register_info
register_server store_ip tmp rd = record rd {
  uri = register_info tmp (codes "REQUEST_URI") is_string rd.uri;
  host = register_info tmp (codes "HTTP_HOST") is_string rd.host;
  referer = register_info tmp (codes "HTTP_REFERER") is_string rd.referer;
  ts = register_info tmp (codes "REQUEST_TIME") is_long rd.ts;
  script = register_info tmp (codes "SCRIPT_FILENAME") is_string rd.script;
  method = register_info tmp (codes "REQUEST_METHOD") is_string rd.method;
  ip = if store_ip then register_info tmp (codes "REMOTE_ADDR") is_string rd.ip else rd.ip;
}

abbrev server_step : Bool → Option (List (Bytes × Var)) → RequestData → RequestData
server_step store_ip none rd = rd
server_step store_ip (some tmp) rd = register_server store_ip tmp rd

-- The printed array is appended to what the buffer holds, and a NUL behind it, where PHP is older than
-- 7.1.
unfoldable pub register_cookies : Option HttpArray → RequestData → RequestData
register_cookies none rd = rd
register_cookies (some a) rd =
    if ltb 0 a.n_num_of_elements
    then record rd { cookies = rd.cookies ++ a.printed; cookies_found = true }
    else rd

unfoldable pub register_post : Option HttpArray → RequestData → RequestData
register_post none rd = rd
register_post (some a) rd =
    if ltb 0 a.n_num_of_elements
    then record rd { post_vars = rd.post_vars ++ a.printed; post_vars_found = true }
    else rd

module _ (env : Env) where
  -- the body of `extract_data`
  unfoldable pub extract : Globals → RequestData
  unfolding register_server register_cookies register_post
  extract g =
      let rd = record g.request_data { initialized = true } in
      let rd = server_step g.settings.store_ip (env.http_server g.log) rd in
      let rd =
        if g.settings.store_cookies then register_cookies (env.http_cookie g.log) rd else rd in
      if g.settings.store_post then register_post (env.http_post g.log) rd else rd

  -- the globals that it leaves
  unfoldable pub extracted : Globals → Globals
  unfolding extract
  extracted g = if g.request_data.initialized then g else record g { request_data = extract g }

  abbrev pub extract_data : Run (Unit {0})
  extract_data g = some (tt, extracted g)

-- APM_RD_STRVAL of an item, read where its flag is set: `APM_RD(x_found) ? APM_RD_STRVAL(x) : ""`.
-- Reading a variable of another type as a string is a fault.
abbrev pub string_of : Option Var → Run Bytes
string_of (some (text t)) = pure t
string_of _ = fault

abbrev pub item_string : Item → Run Bytes
item_string i = if i.found then string_of i.var else pure []

-- `memset(&APM_G(request_data), 0, sizeof(struct apm_request_data))`
abbrev pub empty_item : Item
empty_item = record { var = none; found = false }

abbrev pub empty_request_data : RequestData
empty_request_data = record {
  uri = empty_item;
  host = empty_item;
  ip = empty_item;
  referer = empty_item;
  ts = empty_item;
  script = empty_item;
  method = empty_item;
  initialized = false;
  cookies_found = false;
  post_vars_found = false;
  cookies = [];
  post_vars = [];
}
