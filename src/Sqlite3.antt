-- ===== src/Sqlite3.antt =====
-- driver_sqlite3.c. The connection is opened by the first query of a request and closed at its end;
-- MAXPATHLEN, which the system defines, is an argument.
pub mod Connection
pub mod Returns
mod Tests
use php_apm.Common.{
  int_of, ℕ, ◌-◌, ℤ, pos, Bool, true, false, ◌&&◌, not, ◌==◌, if◌then◌else◌, Bytes, codes, decimal,
  take, or_else, Option, none, some, List, [], ◌∷◌, ◌++◌,
}
use php_apm.World.{
  arg_text, arg_num, arg_float, SqlArg, zend_error, mkdir, sqlite3_open, sqlite3_close,
  sqlite3_busy_timeout, sqlite3_exec, Effect, Env,
}
use php_apm.Globals.{
  Sqlite3State, EventArgs, Item, Globals, Run, Status, success, failure, pure, ◌>>=◌, ◌>>◌, get,
  emit, when,
}
use php_apm.Request.{extract_data, item_string}

abbrev pub set_event_db : Bool → Run (Unit {0})
set_event_db b g = pure tt (record g { sqlite3 = record g.sqlite3 { event_db = b } })

abbrev pub disable : Run (Unit {0})
disable g = pure tt (record g {
  sqlite3 = record g.sqlite3 { settings = record g.sqlite3.settings { enabled = false } };
})

abbrev pub disable_on_failure : Status → Run (Unit {0})
disable_on_failure success = pure tt
disable_on_failure failure = disable

unfoldable pub disconnect : Run (Unit {0})
disconnect = do g ← get; when g.sqlite3.event_db (emit sqlite3_close >> set_event_db false)

-- The statements that `sqlite_get_instance` runs.
unfoldable pub schema : Bytes
schema =
    codes
      "\nCREATE TABLE IF NOT EXISTS request (\n    id INTEGER PRIMARY KEY AUTOINCREMENT,\n    application TEXT NOT NULL,\n    ts INTEGER NOT NULL,\n    script TEXT NOT NULL,\n    uri TEXT NOT NULL,\n    host TEXT NOT NULL,\n    ip INTEGER UNSIGNED NOT NULL,\n    cookies TEXT NOT NULL,\n    post_vars TEXT NOT NULL,\n    referer TEXT NOT NULL,\n    method TEXT NOT NULL\n);\nCREATE TABLE IF NOT EXISTS event (\n    id INTEGER PRIMARY KEY AUTOINCREMENT,\n    request_id INTEGER,\n    ts INTEGER NOT NULL,\n    type INTEGER NOT NULL,\n    file TEXT NOT NULL,\n    line INTEGER NOT NULL,\n    message TEXT NOT NULL,\n    backtrace BLOB NOT NULL\n);\nCREATE INDEX IF NOT EXISTS event_request ON event (request_id);\nCREATE TABLE IF NOT EXISTS stats (\n    id INTEGER PRIMARY KEY AUTOINCREMENT,\n    request_id INTEGER,\n    duration FLOAT UNSIGNED NOT NULL,\n    user_cpu FLOAT UNSIGNED NOT NULL,\n    sys_cpu FLOAT UNSIGNED NOT NULL,\n    mem_peak_usage INTEGER UNSIGNED NOT NULL\n);\nCREATE INDEX IF NOT EXISTS stats_request ON stats (request_id);"

module _ (env : Env) where
  -- `perform_db_access_checks`, where ZTS is not defined
  unfoldable pub perform_db_access_checks : Bytes → Run Status
  perform_db_access_checks path g =
      if env.is_dir g.log path
      then access g
      else (let made = env.mkdir_ok g.log path in
          (do
            emit (mkdir path)
            if made then access else do
              emit (
                  zend_error (
                    codes "APM cannot be enabled, '"
                    ++ path
                    ++ codes "' is not a directory or it cannot be created"))
              pure failure)
            g)
    where
      access : Run Status
      access g =
          if env.access_ok g.log path
          then pure success g
          else (do
            emit (
                zend_error (
                  codes "APM cannot be enabled, "
                  ++ path
                  ++ codes " needs to be readable, writable and executable"))
            pure failure)
              g

  -- `OnUpdateDBFile`, less the setting itself, which `OnUpdateString` stores
  unfoldable pub on_update_db_file : (maxpathlen : ℕ) → Option Bytes → Run (Unit {0})
  unfolding disconnect perform_db_access_checks
  on_update_db_file maxpathlen new_value = do
    g ← get
    when (g.settings.enabled && g.sqlite3.settings.enabled) (changed new_value)
    where
      changed : Option Bytes → Run (Unit {0})
      changed none = disable
      changed (some []) = disable
      changed (some (c ∷ s)) = do
        λ g. pure tt (record g {
          sqlite3 = record g.sqlite3 {
            db_file = take (maxpathlen - 1) ((c ∷ s) ++ codes "/" ++ codes "events");
          };
        })
        disconnect
        checked ← perform_db_access_checks (c ∷ s)
        disable_on_failure checked

  -- `sqlite_get_instance`: whether there is a connection. After a failed `sqlite3_open` there is a
  -- handle too, which is to be closed.
  unfoldable pub sqlite_get_instance : Run Bool
  unfolding disconnect schema
  sqlite_get_instance g =
      if g.sqlite3.event_db
      then some (true, g)
      else (do
        emit (sqlite3_open g.sqlite3.db_file)
        set_event_db true
        if not (env.sqlite3_open_ok g.log g.sqlite3.db_file) then disconnect >> pure false else do
          emit (sqlite3_busy_timeout g.sqlite3.timeout)
          emit (sqlite3_exec (codes "PRAGMA synchronous = OFF"))
          h ← get
          emit (sqlite3_exec schema)
          let code = env.sqlite3_exec_code h.log schema
          when (not (code == 0)) (
              emit
                (zend_error (codes "APM's schema cannot be created, error code: " ++ decimal code)))
          pure true)
          g

  abbrev pub ip_int : Item → Run ℕ
  ip_int i = if i.found then (do s ← item_string i; pure (or_else (env.inet_pton s) 0)) else pure 0

  -- the statement for the request
  unfoldable pub request_sql : Run Bytes
  request_sql = do
    g ← get
    let rd = g.request_data
    ip ← ip_int rd.ip
    script ← item_string rd.script
    uri ← item_string rd.uri
    host ← item_string rd.host
    referer ← item_string rd.referer
    method ← item_string rd.method
    pure (
        env.sqlite3_mprintf
          (codes
            "INSERT INTO request (application, ts, script, uri, host, ip, cookies, post_vars, referer, method) VALUES (%Q, %d, %Q, %Q, %Q, %d, %Q, %Q, %Q, %Q)")
          (arg_text (or_else g.settings.application_id [])
            ∷ arg_num (env.time g.log)
            ∷ arg_text script
            ∷ arg_text uri
            ∷ arg_text host
            ∷ arg_num (int_of ip)
            ∷ arg_text (if rd.cookies_found then rd.cookies else [])
            ∷ arg_text (if rd.post_vars_found then rd.post_vars else [])
            ∷ arg_text referer
            ∷ arg_text method
            ∷ []))

  abbrev pub created : Run (Unit {0})
  created h = pure tt (record h {
    sqlite3 = record h.sqlite3 {
      request_id = env.sqlite3_last_insert_rowid h.log;
      is_request_created = true;
    };
  })

  -- `apm_driver_sqlite3_insert_request`
  unfoldable pub insert_request : Run (Unit {0})
  insert_request = do
    extract_data env
    g ← get
    if g.sqlite3.is_request_created then pure tt else do
      connection ← sqlite_get_instance
      if not connection then pure tt else do sql ← request_sql; emit (sqlite3_exec sql); created

  unfoldable pub event_sql : EventArgs → Globals → Bytes
  event_sql x g =
      env.sqlite3_mprintf
        (codes
          "INSERT INTO event (request_id, ts, type, file, line, message, backtrace) VALUES (%d, %d, %d, %Q, %d, %Q, %Q)")
        (arg_num (pos g.sqlite3.request_id)
          ∷ arg_num (env.time g.log)
          ∷ arg_num (pos x.type)
          ∷ arg_text (or_else x.error_filename [])
          ∷ arg_num (pos x.error_lineno)
          ∷ arg_text (or_else x.msg [])
          ∷ arg_text (or_else x.trace [])
          ∷ [])

  -- `apm_driver_sqlite3_process_event`
  unfoldable pub process_event : EventArgs → Run (Unit {0})
  process_event x = do
    insert_request
    connection ← sqlite_get_instance
    if not connection then pure tt else do g ← get; emit (sqlite3_exec (event_sql x g))

  unfoldable pub stats_sql : Globals → Bytes
  stats_sql g =
      env.sqlite3_mprintf
        (codes
          "INSERT INTO stats (request_id, duration, user_cpu, sys_cpu, mem_peak_usage) VALUES (%d, %f, %f, %f, %d)")
        (arg_num (pos g.sqlite3.request_id)
          ∷ arg_float (env.usec_to_sec g.duration)
          ∷ arg_float (env.usec_to_sec g.user_cpu)
          ∷ arg_float (env.usec_to_sec g.sys_cpu)
          ∷ arg_num g.mem_peak_usage
          ∷ [])

  -- `apm_driver_sqlite3_process_stats`
  unfoldable pub process_stats : Run (Unit {0})
  process_stats = do
    insert_request
    connection ← sqlite_get_instance
    if not connection then pure tt else do g ← get; emit (sqlite3_exec (stats_sql g))

-- `apm_driver_sqlite3_minit` and `apm_driver_sqlite3_mshutdown`
unfoldable pub minit : Run Status
minit = pure success

unfoldable pub mshutdown : Run Status
mshutdown = pure success

-- `apm_driver_sqlite3_rinit`
unfoldable pub rinit : Run Status
rinit g = pure success (record g { sqlite3 = record g.sqlite3 { is_request_created = false } })

-- `apm_driver_sqlite3_rshutdown`
unfoldable pub rshutdown : Run Status
rshutdown = disconnect >> pure success
