-- ===== src/Apm/Locality.antt =====
-- What the drivers' functions change of the module globals.
use php_apm.Common.{true, not, if◌then◌else◌, Bytes, codes, refl, arith}
use php_apm.World.{Env, sqlite3_exec, mysql_query}
use php_apm.Globals.{EventArgs, Globals, pure, ◌>>=◌, ◌>>◌, get, emit}
use php_apm.Globals.Runs.{Keeps}
use php_apm.Globals.Owners.{
  of_sqlite3, of_mysql, of_statsd, IsLocal, pure-IsLocal, bind-IsLocal, if-IsLocal, emit-IsLocal,
  get-IsLocal, Keeps-IsLocal, sprintf-IsLocal, extract_data-IsLocal, step-IsLocal,
}
use php_apm.Mysql.Account.{fields-Keeps}
use php_apm.Mysql
use php_apm.Sqlite3
use php_apm.Statsd

module _ (env : Env) where
  pub mysql_instance-IsLocal : IsLocal of_mysql (Mysql.mysql_get_instance env)
  unfolding Mysql.mysql_get_instance
  mysql_instance-IsLocal g a h e = ground arith

  abbrev mysql_created : Globals → Globals
  mysql_created h = record h { mysql = record h.mysql { is_request_created = true } }

  mysql_created-IsLocal : IsLocal of_mysql (λ h. pure tt (mysql_created h))
  mysql_created-IsLocal g a h e = step-IsLocal of_mysql tt a g (mysql_created g) h refl e

  mysql_query-IsLocal : (f : Mysql.Fields) → IsLocal of_mysql (Mysql.query_request env f)
  unfolding Mysql.query_request
  mysql_query-IsLocal f =
      bind-IsLocal of_mysql _ _
        (sprintf-IsLocal of_mysql (Mysql.request_size f) (Mysql.request_sql f))
        λ sql. bind-IsLocal of_mysql _ _ (emit-IsLocal of_mysql (mysql_query sql)) λ _.
          bind-IsLocal of_mysql _ _
            (emit-IsLocal of_mysql (mysql_query (codes "SET @request_id = LAST_INSERT_ID()")))
            λ _. mysql_created-IsLocal

  pub mysql_insert-IsLocal : IsLocal of_mysql (Mysql.insert_request env)
  unfolding Mysql.insert_request
  mysql_insert-IsLocal = bind-IsLocal of_mysql _ _ (extract_data-IsLocal of_mysql env) λ _.
      bind-IsLocal of_mysql _ _ (get-IsLocal of_mysql) λ g.
        if-IsLocal of_mysql g.mysql.is_request_created _ _ (pure-IsLocal of_mysql tt) (
          bind-IsLocal of_mysql _ _ mysql_instance-IsLocal λ c.
            if-IsLocal of_mysql (not c) _ _ (pure-IsLocal of_mysql tt) (
              bind-IsLocal of_mysql _ _ (Keeps-IsLocal of_mysql _ (fields-Keeps env))
                mysql_query-IsLocal))

  pub mysql_event-IsLocal : (x : EventArgs) → IsLocal of_mysql (Mysql.process_event env x)
  unfolding Mysql.process_event
  mysql_event-IsLocal x = bind-IsLocal of_mysql _ _ mysql_insert-IsLocal λ _.
      bind-IsLocal of_mysql _ _ mysql_instance-IsLocal λ c.
        if-IsLocal of_mysql (not c) _ _ (pure-IsLocal of_mysql tt)
          (bind-IsLocal of_mysql _ _ (sprintf-IsLocal of_mysql _ _) λ sql. emit-IsLocal of_mysql _)

  pub mysql_stats-IsLocal : IsLocal of_mysql (Mysql.process_stats env)
  unfolding Mysql.process_stats
  mysql_stats-IsLocal = bind-IsLocal of_mysql _ _ mysql_insert-IsLocal λ _.
      bind-IsLocal of_mysql _ _ mysql_instance-IsLocal λ c.
        if-IsLocal of_mysql (not c) _ _ (pure-IsLocal of_mysql tt) (
          bind-IsLocal of_mysql _ _ (get-IsLocal of_mysql) λ g.
            bind-IsLocal of_mysql _ _ (sprintf-IsLocal of_mysql _ _) λ sql. emit-IsLocal of_mysql _)

  pub sqlite3_disconnect-IsLocal : IsLocal of_sqlite3 Sqlite3.disconnect
  unfolding Sqlite3.disconnect
  sqlite3_disconnect-IsLocal g a h e = ground arith

  sqlite3_instance-IsLocal : IsLocal of_sqlite3 (Sqlite3.sqlite_get_instance env)
  unfolding Sqlite3.sqlite_get_instance
  sqlite3_instance-IsLocal g a h e = ground arith

  sqlite3_request-Keeps : Keeps (Sqlite3.request_sql env)
  unfolding Sqlite3.request_sql
  sqlite3_request-Keeps g a h e = ground arith

  sqlite3_created-IsLocal : IsLocal of_sqlite3 (Sqlite3.created env)
  sqlite3_created-IsLocal g a h e =
      step-IsLocal of_sqlite3 tt a g
        (record g {
          sqlite3 = record g.sqlite3 {
            request_id = env.sqlite3_last_insert_rowid g.log;
            is_request_created = true;
          };
        })
        h refl e

  sqlite3_insert-IsLocal : IsLocal of_sqlite3 (Sqlite3.insert_request env)
  unfolding Sqlite3.insert_request
  sqlite3_insert-IsLocal = bind-IsLocal of_sqlite3 _ _ (extract_data-IsLocal of_sqlite3 env) λ _.
      bind-IsLocal of_sqlite3 _ _ (get-IsLocal of_sqlite3) λ g.
        if-IsLocal of_sqlite3 g.sqlite3.is_request_created _ _ (pure-IsLocal of_sqlite3 tt) (
          bind-IsLocal of_sqlite3 _ _ sqlite3_instance-IsLocal λ c.
            if-IsLocal of_sqlite3 (not c) _ _ (pure-IsLocal of_sqlite3 tt) (
              bind-IsLocal of_sqlite3 _ _ (Keeps-IsLocal of_sqlite3 _ sqlite3_request-Keeps) λ sql.
                bind-IsLocal of_sqlite3 _ _ (emit-IsLocal of_sqlite3 (sqlite3_exec sql))
                  λ _. sqlite3_created-IsLocal))

  -- an event or the statistics, behind the request
  pub sqlite3_row-IsLocal :
      (text : Globals → Bytes)
      → IsLocal of_sqlite3 (do
        Sqlite3.insert_request env
        c ← Sqlite3.sqlite_get_instance env
        if not c then pure tt else do g ← get; emit (sqlite3_exec (text g)))
  sqlite3_row-IsLocal text = bind-IsLocal of_sqlite3 _ _ sqlite3_insert-IsLocal λ _.
      bind-IsLocal of_sqlite3 _ _ sqlite3_instance-IsLocal λ c.
        if-IsLocal of_sqlite3 (not c) _ _ (pure-IsLocal of_sqlite3 tt)
          (bind-IsLocal of_sqlite3 _ _ (get-IsLocal of_sqlite3) λ g. emit-IsLocal of_sqlite3 _)

  pub statsd_event-IsLocal : (x : EventArgs) → IsLocal of_statsd (Statsd.process_event env x)
  unfolding Statsd.process_event
  statsd_event-IsLocal x g a h e = ground arith

  pub statsd_stats-IsLocal : IsLocal of_statsd (Statsd.process_stats env)
  unfolding Statsd.process_stats
  statsd_stats-IsLocal g a h e = ground arith

  pub statsd_minit-IsLocal : IsLocal of_statsd (Statsd.minit env)
  unfolding Statsd.minit
  statsd_minit-IsLocal g a h e = ground arith

pub mysql_mshutdown-IsLocal : IsLocal of_mysql Mysql.mshutdown
unfolding Mysql.mshutdown
mysql_mshutdown-IsLocal g a h e = ground arith

pub mysql_rinit-IsLocal : IsLocal of_mysql Mysql.rinit
unfolding Mysql.rinit
mysql_rinit-IsLocal g a h e = ground arith

pub sqlite3_rinit-IsLocal : IsLocal of_sqlite3 Sqlite3.rinit
unfolding Sqlite3.rinit
sqlite3_rinit-IsLocal g a h e = ground arith

pub statsd_mshutdown-IsLocal : IsLocal of_statsd Statsd.mshutdown
unfolding Statsd.mshutdown
statsd_mshutdown-IsLocal g a h e = ground arith
