-- ===== src/Apm/Drivers.antt =====
-- The list of drivers that PHP_GINIT_FUNCTION of apm.c makes, and the driver for Elasticsearch.
use php_apm.Common.{Bool, if◌then◌else◌, Option, none, some, List, [], ◌∷◌, ◌++◌}
use php_apm.World.{Env}
use php_apm.Globals.{pure}
use php_apm.Globals.Owners.{Owner, of_sqlite3, of_mysql, of_statsd, of_socket}
use php_apm.Driver.{Driver, create}
use php_apm.Apm.{Elastic}
use php_apm.Sqlite3
use php_apm.Mysql
use php_apm.Statsd
use php_apm.Socket.Shutdown
use php_apm.Elasticsearch

-- What is defined of APM_DRIVER_SQLITE3, APM_DRIVER_MYSQL, APM_DRIVER_STATSD, APM_DRIVER_SOCKET and
-- HAVE_CURL.
pub record Build : Type 0 where
  pub driver_sqlite3 : Bool
  pub driver_mysql : Bool
  pub driver_statsd : Bool
  pub driver_socket : Bool
  pub have_curl : Bool

abbrev pub only_if : Bool → Owner → List Owner
only_if b o = if b then o ∷ [] else []

-- The drivers of a build, in the order in which they are linked.
unfoldable pub built : Build → List Owner
built b =
    only_if b.driver_sqlite3 of_sqlite3
    ++ only_if b.driver_mysql of_mysql
    ++ only_if b.driver_statsd of_statsd
    ++ only_if b.driver_socket of_socket

module _ (env : Env) where
  -- `apm_driver_<name>_create`
  unfoldable pub driver_of : Owner → Driver
  unfolding create
  driver_of of_sqlite3 =
      create (λ g. g.sqlite3.settings) (Sqlite3.process_event env) (Sqlite3.process_stats env)
        Sqlite3.minit Sqlite3.rinit Sqlite3.mshutdown Sqlite3.rshutdown
  driver_of of_mysql =
      create (λ g. g.mysql.settings) (Mysql.process_event env) (Mysql.process_stats env) Mysql.minit
        Mysql.rinit Mysql.mshutdown Mysql.rshutdown
  driver_of of_statsd =
      create (λ g. g.statsd.settings) (Statsd.process_event env) (Statsd.process_stats env)
        (Statsd.minit env) Statsd.rinit Statsd.mshutdown Statsd.rshutdown
  driver_of of_socket =
      create (λ g. g.socket.settings) Shutdown.process_event Shutdown.process_stats Shutdown.minit
        Shutdown.rinit Shutdown.mshutdown (Shutdown.rshutdown env)

  abbrev pub all_drivers : List Owner → List Driver
  all_drivers [] = []
  all_drivers (o ∷ os) = driver_of o ∷ all_drivers os

  -- `APM_G(drivers)`, less its first entry, which holds no driver
  unfoldable pub drivers : Build → List Driver
  unfolding built driver_of
  drivers b = all_drivers (built b)

  -- what `process_event` and the module functions call where curl was found
  unfoldable pub elastic : Build → Option Elastic
  elastic b =
      if b.have_curl
      then some (record {
        process_event = λ x g. pure tt (Elasticsearch.process_event env x g);
        process_stats = Elasticsearch.process_stats env;
        minit = Elasticsearch.minit;
        mshutdown = Elasticsearch.mshutdown;
        rshutdown = λ g. pure tt (Elasticsearch.rshutdown env g);
      })
      else none
