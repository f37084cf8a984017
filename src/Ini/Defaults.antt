-- ===== src/Ini/Defaults.antt =====
-- The defaults of the INI table, as README.md and apm.ini describe them.
use php_apm.Common.{
  ℕ, pos, Bool, true, false, Bytes, codes, Option, some, List, [], ◌∷◌, ◌++◌, ◌≡◌, subst, ◌∙◌,
}
use php_apm.World.{Env}
use php_apm.Globals.{
  DriverSettings, Settings, MysqlState, StatsdState, SocketState, ElasticsearchState, Globals,
}
use php_apm.Globals.Runs.{bound, continued, some_inj}
use php_apm.Driver.Level.{e_all}
use php_apm.Ini.{IniEntry, Engine, modify, updates}

-- The calls of the handlers with the defaults, in the order of the table.
abbrev pub defaults : List IniEntry → List (IniEntry × Option Bytes)
defaults [] = []
defaults (e ∷ es) = (e, e.value) ∷ defaults es

abbrev pub module_defaults : Settings
module_defaults = record {
  enabled = true;
  application_id = some (codes "My application");
  event_enabled = true;
  store_stacktrace = true;
  store_ip = true;
  store_cookies = true;
  store_post = true;
  stats_duration_threshold = pos 100;
  stats_user_cpu_threshold = pos 100;
  stats_sys_cpu_threshold = pos 10;
  dump_max_depth = pos 1;
}

-- A driver records uncaught exceptions and errors of all levels.
abbrev pub driver_defaults : (enabled stats_enabled process_silenced_events : Bool) → DriverSettings
driver_defaults enabled stats_enabled process_silenced_events = record {
  enabled = enabled;
  stats_enabled = stats_enabled;
  exception_mode = 1;
  error_reporting = e_all;
  process_silenced_events = process_silenced_events;
}

abbrev pub mysql_defaults : MysqlState → MysqlState
mysql_defaults s = record s {
  settings = driver_defaults true false true;
  db_host = some (codes "localhost");
  db_port = 0;
  db_user = some (codes "root");
  db_pass = some [];
  db_name = some (codes "apm");
}

abbrev pub statsd_defaults : StatsdState → StatsdState
statsd_defaults s = record s {
  settings = driver_defaults true true s.settings.process_silenced_events;
  host = codes "localhost";
  port = 8125;
  prefix = codes "apm";
}

abbrev pub socket_defaults : SocketState → SocketState
socket_defaults s = record s {
  settings = driver_defaults true true true;
  path = codes "file:/tmp/apm.sock|tcp:127.0.0.1:8264";
}

abbrev pub elasticsearch_defaults : ElasticsearchState → ElasticsearchState
elasticsearch_defaults s = record s {
  settings = driver_defaults false true true;
  host = codes "localhost";
  port = pos 9200;
  index = codes "php-apm";
  user = some [];
  pass = some [];
  username = some [];
  password = some [];
  batch_size = pos 50;
  batch_timeout = pos 3;
}

module _ (engine : Engine) (env : Env) (maxpathlen : ℕ) where
  -- The calls for some entries, from `g` to `h`.
  abbrev pub Sets : List IniEntry → Globals → Globals → Type 0
  Sets es g h = updates engine env maxpathlen (defaults es) g ≡ some (tt, h)

  pub append-Sets :
      (xs ys : List IniEntry) (g k h : Globals) → Sets xs g k → Sets ys k h → Sets (xs ++ ys) g h
  unfolding updates
  append-Sets [] ys g k h e e' = subst (λ x. Sets ys x h) (some_inj tt tt g k e) e'
  append-Sets (x ∷ xs) ys g k h e e' =
      let (s, j, e1, e2) = bound {r = modify engine env maxpathlen x.on_modify x.value g} e in
      continued _ e1 ∙ append-Sets xs ys j k h e2 e'
