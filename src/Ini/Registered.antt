-- ===== src/Ini/Registered.antt =====
-- The settings once the handlers of the INI table were called with its defaults.
use php_apm.Common.{
  ℕ, pos, Bool, true, false, if◌then◌else◌, Bytes, codes, decimal, Option, none, some, [], ◌++◌,
  ◌≡◌, refl, sym, subst, ap, ◌∙◌,
}
use php_apm.World.{Log, Env}
use php_apm.Globals.{Sqlite3State, Globals, Status, success}
use php_apm.Driver.{on_update_error_reporting}
use php_apm.Ini.Path.{on_update_db_file-with_file, on_update_db_file_returns}
use php_apm.Apm.Drivers.{Build}
use php_apm.Ini.{Engine, modify, updates}
use php_apm.Ini.Table.{
  where_defined, ini_entries, module_entries, sqlite3_entries, mysql_entries, statsd_entries,
  socket_entries, elasticsearch_entries,
}
use php_apm.Ini.Defaults.{
  Sets, append-Sets, defaults, module_defaults, driver_defaults, mysql_defaults, statsd_defaults,
  socket_defaults, elasticsearch_defaults,
}

module _ (engine : Engine) (env : Env) (maxpathlen : ℕ)
    (one : engine.bool_of (some (codes "1")) ≡ some true)
    (nought : engine.bool_of (some (codes "0")) ≡ some false)
    (texts : (s : Bytes) → engine.string_of (some s) ≡ some (some s))
    (numbers : (n : ℕ) → engine.long_of (some (decimal n)) ≡ some (pos n))
    (naturals : (n : ℕ) → engine.long_ge_zero_of (some (decimal n)) ≡ some n) where
  module-Sets :
      (g : Globals)
      → Sets engine env maxpathlen module_entries g (record g { settings = module_defaults })
  unfolding updates modify decimal
  module-Sets g = rw (one, texts (codes "My application"), numbers 100, numbers 10, numbers 1) refl

  mysql-Sets :
      (b : Bool) (g : Globals)
      → Sets engine env maxpathlen
          (where_defined b mysql_entries)
          g
          (record g { mysql = if b then mysql_defaults g.mysql else g.mysql })
  unfolding updates modify decimal on_update_error_reporting
  mysql-Sets false g = refl
  mysql-Sets true g =
      rw
        (
          one,
          nought,
          numbers 0,
          naturals 1,
          texts (codes "localhost"),
          texts (codes "root"),
          texts [],
          texts (codes "apm"),
        )
        refl

  statsd-Sets :
      (b : Bool) (g : Globals)
      → Sets engine env maxpathlen
          (where_defined b statsd_entries)
          g
          (record g { statsd = if b then statsd_defaults g.statsd else g.statsd })
  unfolding updates modify decimal on_update_error_reporting
  statsd-Sets false g = refl
  statsd-Sets true g =
      rw (one, naturals 1, texts (codes "localhost"), numbers 8125, texts (codes "apm")) refl

  socket-Sets :
      (b : Bool) (g : Globals)
      → Sets engine env maxpathlen
          (where_defined b socket_entries)
          g
          (record g { socket = if b then socket_defaults g.socket else g.socket })
  unfolding updates modify decimal on_update_error_reporting
  socket-Sets false g = refl
  socket-Sets true g =
      rw (one, naturals 1, texts (codes "file:/tmp/apm.sock|tcp:127.0.0.1:8264")) refl

  elasticsearch-Sets :
      (b : Bool) (g : Globals)
      → Sets engine env maxpathlen (where_defined b elasticsearch_entries) g (record g {
        elasticsearch = if b then elasticsearch_defaults g.elasticsearch else g.elasticsearch;
      })
  unfolding updates modify decimal on_update_error_reporting
  elasticsearch-Sets false g = refl
  elasticsearch-Sets true g =
      rw
        (
          texts (codes "localhost"),
          numbers 9200,
          texts (codes "php-apm"),
          texts [],
          nought,
          numbers 50,
          numbers 3,
          naturals 1,
          one,
        )
        refl

  -- The entries of the SQLite driver, of which the path may disable it again.
  sqlite3_set :
      (default_db : Bytes) (g : Globals)
      → (s : Sqlite3State) × (l : Log) × Sets engine env maxpathlen
          (sqlite3_entries default_db)
          g
          (record g { sqlite3 = s; log = l })
        × (s.settings ≡ driver_defaults s.settings.enabled false true)
  unfolding updates modify decimal on_update_error_reporting
  sqlite3_set default_db g =
      let before : Globals = record g {
        sqlite3 = record g.sqlite3 {
          settings = driver_defaults true false g.sqlite3.settings.process_silenced_events;
          timeout = pos 100;
        };
      } in
      let (k, ran) = on_update_db_file_returns env maxpathlen (some default_db) before in
      let file = on_update_db_file-with_file env maxpathlen (some default_db) before k ran in
      let pathed : Globals → Globals =
        λ x. record x { sqlite3 = record x.sqlite3 { db_path = some default_db } } in
      let ready : Globals → Globals = λ x. record x {
        sqlite3 = record x.sqlite3 {
          settings = record x.sqlite3.settings { process_silenced_events = true };
        };
      } in
      let after : Globals → Globals = λ x. ready (pathed x) in
      (
        (after k).sqlite3,
        k.log,
        rw (one, nought, naturals 1, numbers 100, texts default_db)
            (ap
                (λ (r : Option (Unit {0} × Globals)).
                  elim (elim r as (λ _. Option (Status × Globals)) [
                    | none ↦ none
                    | some (a, x) ↦ some (success, pathed x)
                  ])
                    as (λ _. Option (Unit {0} × Globals)) [
                      | none ↦ none
                      | some (s, x) ↦ some (tt, ready x)
                    ])
                ran
              ∙ ap (λ (x : Globals). some (tt, x))
                  (subst (λ x. after x ≡ record g { sqlite3 = (after x).sqlite3; log = x.log })
                    (sym file) refl)),
        subst
            (λ x.
              (after x).sqlite3.settings ≡ driver_defaults x.sqlite3.settings.enabled false true)
            (sym file) refl,
      )

  sqlite3-Sets :
      (b : Bool) (default_db : Bytes) (g : Globals)
      → (s : Sqlite3State) × (l : Log) × Sets engine env maxpathlen
          (where_defined b (sqlite3_entries default_db))
          g
          (record g { sqlite3 = s; log = l })
        × (s.settings
            ≡ (if b then driver_defaults s.settings.enabled false true else g.sqlite3.settings))
  unfolding updates
  sqlite3-Sets true default_db g = sqlite3_set default_db g
  sqlite3-Sets false default_db g = (g.sqlite3, g.log, refl, refl)

  pub defaults_registered :
      (b : Build) (default_db : Bytes) (g : Globals)
      → (h : Globals) × (updates engine env maxpathlen (defaults (ini_entries b default_db)) g
          ≡ some (tt, h))
        × (h.settings ≡ module_defaults)
        × (h.sqlite3.settings ≡ (
            if b.driver_sqlite3
            then driver_defaults h.sqlite3.settings.enabled false true
            else g.sqlite3.settings))
        × (h.mysql ≡ (if b.driver_mysql then mysql_defaults g.mysql else g.mysql))
        × (h.statsd ≡ (if b.driver_statsd then statsd_defaults g.statsd else g.statsd))
        × (h.socket ≡ (if b.driver_socket then socket_defaults g.socket else g.socket))
        × (h.elasticsearch
            ≡ (if b.have_curl then elasticsearch_defaults g.elasticsearch else g.elasticsearch))
  unfolding ini_entries
  defaults_registered b default_db g =
      let both = append-Sets engine env maxpathlen in
      let g1 : Globals = record g { settings = module_defaults } in
      let (s, l, e2, lite) = sqlite3-Sets b.driver_sqlite3 default_db g1 in
      let g2 : Globals = record g1 { sqlite3 = s; log = l } in
      let g3 : Globals = record g2 {
        mysql = if b.driver_mysql then mysql_defaults g.mysql else g.mysql;
      } in
      let g4 : Globals = record g3 {
        statsd = if b.driver_statsd then statsd_defaults g.statsd else g.statsd;
      } in
      let g5 : Globals = record g4 {
        socket = if b.driver_socket then socket_defaults g.socket else g.socket;
      } in
      let g6 : Globals = record g5 {
        elasticsearch =
            if b.have_curl then elasticsearch_defaults g.elasticsearch else g.elasticsearch;
      } in
      let xs2 = module_entries ++ where_defined b.driver_sqlite3 (sqlite3_entries default_db) in
      let xs3 = xs2 ++ where_defined b.driver_mysql mysql_entries in
      let xs4 = xs3 ++ where_defined b.driver_statsd statsd_entries in
      let xs5 = xs4 ++ where_defined b.driver_socket socket_entries in
      let e3 =
        both module_entries (where_defined b.driver_sqlite3 (sqlite3_entries default_db)) g g1 g2
          (module-Sets g) e2 in
      let e4 =
        both xs2 (where_defined b.driver_mysql mysql_entries) g g2 g3 e3
          (mysql-Sets b.driver_mysql g2) in
      let e5 =
        both xs3 (where_defined b.driver_statsd statsd_entries) g g3 g4 e4
          (statsd-Sets b.driver_statsd g3) in
      let e6 =
        both xs4 (where_defined b.driver_socket socket_entries) g g4 g5 e5
          (socket-Sets b.driver_socket g4) in
      (
        g6,
        both xs5 (where_defined b.have_curl elasticsearch_entries) g g5 g6 e6
            (elasticsearch-Sets b.have_curl g5),
        refl,
        lite,
        refl,
        refl,
        refl,
        refl,
      )
