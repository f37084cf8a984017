-- ===== src/Mysql.antt =====
-- driver_mysql.c. The connection is one handle that lives as long as the process; the statements are
-- printed into buffers of computed sizes, and a text that does not fit is a fault.
pub mod Buffers
pub mod Account
pub mod Rows
pub mod Returns
mod Tests
use php_apm.Common.{
  c_string, ℕ, ◌+◌, ℤ, Bool, true, false, not, leb, ◌==◌, if◌then◌else◌, Bytes, codes, decimal,
  decimal_ℤ, length, or_else, Option, none, some, List, [], ◌∷◌, ◌++◌,
}
use php_apm.World.{
  mysql_library_init, mysql_library_end, mysql_real_connect, mysql_set_character_set, mysql_close,
  mysql_query, Var, text, Effect, Log, Env,
}
use php_apm.Globals.{
  MysqlState, EventArgs, Item, RequestData, Globals, Run, Status, success, pure, ◌>>=◌, ◌>>◌, get,
  emit, sprintf,
}
use php_apm.Request.{extract_data, item_string}

-- The schema's statements.
unfoldable pub create_request : Bytes
create_request =
    codes
      "CREATE TABLE IF NOT EXISTS request (    id INTEGER UNSIGNED PRIMARY KEY auto_increment,    application VARCHAR(255) NOT NULL,    ts TIMESTAMP NOT NULL,    script TEXT NOT NULL,    uri TEXT NOT NULL,    host TEXT NOT NULL,    ip INTEGER UNSIGNED NOT NULL,    cookies TEXT NOT NULL,    post_vars TEXT NOT NULL,    referer TEXT NOT NULL,    method TEXT NOT NULL)"

unfoldable pub create_event : Bytes
create_event =
    codes
      "CREATE TABLE IF NOT EXISTS event (    id INTEGER UNSIGNED PRIMARY KEY auto_increment,    request_id INTEGER UNSIGNED,    ts TIMESTAMP NOT NULL,    type SMALLINT UNSIGNED NOT NULL,    file TEXT NOT NULL,    line MEDIUMINT UNSIGNED NOT NULL,    message TEXT NOT NULL,    backtrace BLOB NOT NULL,    KEY request (request_id))"

unfoldable pub create_stats : Bytes
create_stats =
    codes
      "CREATE TABLE IF NOT EXISTS stats (    id INTEGER UNSIGNED PRIMARY KEY auto_increment,    request_id INTEGER UNSIGNED,    duration FLOAT UNSIGNED NOT NULL,    user_cpu FLOAT UNSIGNED NOT NULL,    sys_cpu FLOAT UNSIGNED NOT NULL,    mem_peak_usage INTEGER UNSIGNED NOT NULL,    KEY request (request_id))"

abbrev pub set_event_db : Bool → Globals → Globals
set_event_db b g = record g { mysql = record g.mysql { event_db = b } }

abbrev pub calls : List Effect → Globals → Globals
calls [] g = g
calls (e ∷ es) g = calls es (record g { log = e ∷ g.log })

-- `mysql_destroy`
unfoldable pub mysql_destroy : Globals → Globals
mysql_destroy g = calls (mysql_library_end ∷ []) (set_event_db false (calls (mysql_close ∷ []) g))

-- The escaped fields of a request's statement.
pub record Fields : Type 0 where
  pub application : Bytes
  pub script : Bytes
  pub uri : Bytes
  pub host : Bytes
  pub ip : ℕ
  pub cookies : Bytes
  pub post_vars : Bytes
  pub referer : Bytes
  pub method : Bytes

unfoldable pub request_sql : Fields → Bytes
request_sql f =
    codes
      "INSERT INTO request (application, script, uri, host, ip, cookies, post_vars, referer, method) VALUES ('"
    ++ f.application
    ++ codes "', '"
    ++ f.script
    ++ codes "', '"
    ++ f.uri
    ++ codes "', '"
    ++ f.host
    ++ codes "', "
    ++ decimal f.ip
    ++ codes ", '"
    ++ f.cookies
    ++ codes "', '"
    ++ f.post_vars
    ++ codes "', '"
    ++ f.referer
    ++ codes "', '"
    ++ f.method
    ++ codes "')"

-- the size of the buffer for it
unfoldable pub request_size : Fields → ℕ
request_size f =
    166
    + length f.application
    + length f.script
    + length f.uri
    + length f.host
    + length f.cookies
    + length f.post_vars
    + length f.referer
    + length f.method

unfoldable pub event_sql : (type : ℕ) (filename : Bytes) (lineno : ℕ) (msg trace : Bytes) → Bytes
event_sql type filename lineno msg trace =
    codes
      "INSERT INTO event (request_id, type, file, line, message, backtrace) VALUES (@request_id, "
    ++ decimal type
    ++ codes ", '"
    ++ filename
    ++ codes "', "
    ++ decimal lineno
    ++ codes ", '"
    ++ msg
    ++ codes "', '"
    ++ trace
    ++ codes "')"

unfoldable pub event_size : (filename msg trace : Bytes) → ℕ
event_size filename msg trace = 135 + length filename + length msg + length trace

unfoldable pub stats_sql : (duration user_cpu sys_cpu : Bytes) → ℤ → Bytes
stats_sql duration user_cpu sys_cpu mem_peak_usage =
    codes
      "INSERT INTO stats (request_id, duration, user_cpu, sys_cpu, mem_peak_usage) VALUES (@request_id, "
    ++ duration
    ++ codes ", "
    ++ user_cpu
    ++ codes ", "
    ++ sys_cpu
    ++ codes ", "
    ++ decimal_ℤ mem_peak_usage
    ++ codes ")"

-- the size that `apm_driver_mysql_process_stats` allocates
abbrev pub stats_size : ℕ
stats_size = 170

abbrev pub connect_call : MysqlState → Effect
connect_call m = mysql_real_connect m.db_host m.db_user m.db_pass m.db_name m.db_port

module _ (env : Env) where
  -- `mysql_get_instance`: whether there is a connection
  unfoldable pub mysql_get_instance : Run Bool
  unfolding mysql_destroy
  mysql_get_instance g =
      if g.mysql.event_db
      then some (true, g)
      else (let g = calls (mysql_library_init ∷ connect_call g.mysql ∷ []) (set_event_db true g) in
          if env.mysql_connect_ok g.log
          then some (
            true,
            calls
                (mysql_set_character_set (codes "utf8")
                  ∷ mysql_query create_request
                  ∷ mysql_query create_event
                  ∷ mysql_query create_stats
                  ∷ [])
                g,
          )
          else some (false, mysql_destroy g))

  abbrev pub escape : Bytes → Bytes
  escape s = env.mysql_real_escape_string (c_string s)

  -- APM_MYSQL_ESCAPE_STR and the use of its result
  abbrev pub escaped_item : Item → Run Bytes
  escaped_item i = if i.found then (do s ← item_string i; pure (escape s)) else pure []

  -- APM_MYSQL_ESCAPE_SMART_STR
  abbrev escaped_smart : Bool → Bytes → Bytes
  escaped_smart found s = if found then escape s else []

  abbrev escaped_arg : Option Bytes → Bytes
  escaped_arg none = []
  escaped_arg (some s) = escape s

  abbrev pub ip_int : Item → Run ℕ
  ip_int i = if i.found then (do s ← item_string i; pure (or_else (env.inet_pton s) 0)) else pure 0

  unfoldable pub fields : Run Fields
  fields = do
    g ← get
    let rd = g.request_data
    script ← escaped_item rd.script
    uri ← escaped_item rd.uri
    host ← escaped_item rd.host
    referer ← escaped_item rd.referer
    method ← escaped_item rd.method
    ip ← ip_int rd.ip
    pure (record {
      application = escaped_arg g.settings.application_id;
      script = script;
      uri = uri;
      host = host;
      ip = ip;
      cookies = escaped_smart rd.cookies_found rd.cookies;
      post_vars = escaped_smart rd.post_vars_found rd.post_vars;
      referer = referer;
      method = method;
    })

  -- its last part, which inserts the row
  unfoldable pub query_request : Fields → Run (Unit {0})
  query_request f = do
    sql ← sprintf (request_size f) (request_sql f)
    emit (mysql_query sql)
    emit (mysql_query (codes "SET @request_id = LAST_INSERT_ID()"))
    λ h. pure tt (record h { mysql = record h.mysql { is_request_created = true } })

  -- `apm_driver_mysql_insert_request`
  unfoldable pub insert_request : Run (Unit {0})
  insert_request = do
    extract_data env
    g ← get
    if g.mysql.is_request_created then pure tt else do
      connection ← mysql_get_instance
      if not connection then pure tt else do f ← fields; query_request f

  -- `apm_driver_mysql_process_event`
  unfoldable pub process_event : EventArgs → Run (Unit {0})
  process_event x = do
    insert_request
    connection ← mysql_get_instance
    if not connection then pure tt else do
      let filename = escaped_arg x.error_filename
      let msg = escaped_arg x.msg
      let trace = escaped_arg x.trace
      sql ←
          sprintf (event_size filename msg trace)
            (event_sql x.type filename x.error_lineno msg trace)
      emit (mysql_query sql)

  -- `apm_driver_mysql_process_stats`
  unfoldable pub process_stats : Run (Unit {0})
  process_stats = do
    insert_request
    connection ← mysql_get_instance
    if not connection then pure tt else do
      g ← get
      sql ← sprintf stats_size (
          stats_sql (env.print_sec g.duration) (env.print_sec g.user_cpu) (env.print_sec g.sys_cpu)
            g.mem_peak_usage)
      emit (mysql_query sql)

-- `apm_driver_mysql_minit` and `apm_driver_mysql_rshutdown`
unfoldable pub minit : Run Status
minit = pure success

unfoldable pub rshutdown : Run Status
rshutdown = pure success

-- `apm_driver_mysql_rinit`
unfoldable pub rinit : Run Status
rinit g = pure success (record g { mysql = record g.mysql { is_request_created = false } })

-- `apm_driver_mysql_mshutdown`
unfoldable pub mshutdown : Run Status
unfolding mysql_destroy
mshutdown g = if g.mysql.event_db then pure success (mysql_destroy g) else pure success g
