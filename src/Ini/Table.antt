-- ===== src/Ini/Table.antt =====
-- The INI table of apm.c, PHP_INI_BEGIN to PHP_INI_END, where HAVE_GETRUSAGE is defined.
use php_apm.Common.{ℕ, Bool, if◌then◌else◌, Bytes, codes, Option, none, some, List, [], ◌∷◌, ◌++◌}
use php_apm.Apm.Drivers.{Build}
use php_apm.Ini.{
  IniEntry, OnModify, on_update_bool, on_update_string, on_update_long, on_update_long_ge_zero,
  on_update_apm_error_reporting, on_update_db_file, nullable, text, long, unsigned_int,
}
use php_apm.Ini.Members.{
  application_id, dump_max_depth, elasticsearch_batch_size, elasticsearch_batch_timeout,
  elasticsearch_enabled, elasticsearch_exception_mode, elasticsearch_host, elasticsearch_index,
  elasticsearch_pass, elasticsearch_password, elasticsearch_port,
  elasticsearch_process_silenced_events, elasticsearch_settings, elasticsearch_stats_enabled,
  elasticsearch_user, elasticsearch_username, enabled, event_enabled, mysql_db_host, mysql_db_name,
  mysql_db_pass, mysql_db_port, mysql_db_user, mysql_enabled, mysql_exception_mode,
  mysql_process_silenced_events, mysql_settings, mysql_stats_enabled, socket_enabled,
  socket_exception_mode, socket_path, socket_process_silenced_events, socket_settings,
  socket_stats_enabled, sqlite3_db_path, sqlite3_enabled, sqlite3_exception_mode,
  sqlite3_process_silenced_events, sqlite3_settings, sqlite3_stats_enabled, sqlite3_timeout,
  stats_duration_threshold, stats_sys_cpu_threshold, stats_user_cpu_threshold, statsd_enabled,
  statsd_exception_mode, statsd_host, statsd_port, statsd_prefix, statsd_settings,
  statsd_stats_enabled, store_cookies, store_ip, store_post, store_stacktrace,
}

-- Where a setting may be changed: by scripts, for a directory, by the system, and in all places.
abbrev pub php_ini_user : ℕ
php_ini_user = 1

abbrev pub php_ini_perdir : ℕ
php_ini_perdir = 2

abbrev pub php_ini_system : ℕ
php_ini_system = 4

abbrev pub php_ini_all : ℕ
php_ini_all = 7

-- STD_PHP_INI_ENTRY and STD_PHP_INI_BOOLEAN, which differ in how a value is displayed
abbrev pub entry : Bytes → Option Bytes → ℕ → OnModify → IniEntry
entry name value modifiable on_modify = record {
  name = name;
  value = value;
  modifiable = modifiable;
  on_modify = on_modify;
}

abbrev pub module_entries : List IniEntry
module_entries =
    entry (codes "apm.enabled") (some (codes "1")) php_ini_system (on_update_bool enabled)
    ∷ entry (codes "apm.application_id") (some (codes "My application")) php_ini_all
        (on_update_string (nullable application_id))
    ∷ entry (codes "apm.event_enabled") (some (codes "1")) php_ini_all
        (on_update_bool event_enabled)
    ∷ entry (codes "apm.store_stacktrace") (some (codes "1")) php_ini_all
        (on_update_bool store_stacktrace)
    ∷ entry (codes "apm.store_ip") (some (codes "1")) php_ini_all (on_update_bool store_ip)
    ∷ entry (codes "apm.store_cookies") (some (codes "1")) php_ini_all
        (on_update_bool store_cookies)
    ∷ entry (codes "apm.store_post") (some (codes "1")) php_ini_all (on_update_bool store_post)
    ∷ entry (codes "apm.stats_duration_threshold") (some (codes "100")) php_ini_all
        (on_update_long (long stats_duration_threshold))
    ∷ entry (codes "apm.stats_user_cpu_threshold") (some (codes "100")) php_ini_all
        (on_update_long (long stats_user_cpu_threshold))
    ∷ entry (codes "apm.stats_sys_cpu_threshold") (some (codes "10")) php_ini_all
        (on_update_long (long stats_sys_cpu_threshold))
    ∷ entry (codes "apm.dump_max_depth") (some (codes "1")) php_ini_all
        (on_update_long (long dump_max_depth))
    ∷ []

-- `default_db` is SQLITE3_DEFAULTDB, which the build chooses.
abbrev pub sqlite3_entries : (default_db : Bytes) → List IniEntry
sqlite3_entries default_db =
    entry (codes "apm.sqlite_enabled") (some (codes "1")) php_ini_perdir
      (on_update_bool sqlite3_enabled)
    ∷ entry (codes "apm.sqlite_stats_enabled") (some (codes "0")) php_ini_all
        (on_update_bool sqlite3_stats_enabled)
    ∷ entry (codes "apm.sqlite_exception_mode") (some (codes "1")) php_ini_perdir
        (on_update_long_ge_zero sqlite3_exception_mode)
    ∷ entry (codes "apm.sqlite_error_reporting") none php_ini_all
        (on_update_apm_error_reporting sqlite3_settings)
    ∷ entry (codes "apm.sqlite_max_event_insert_timeout") (some (codes "100")) php_ini_all
        (on_update_long (long sqlite3_timeout))
    ∷ entry (codes "apm.sqlite_db_path") (some default_db) php_ini_all
        (on_update_db_file sqlite3_db_path)
    ∷ entry (codes "apm.sqlite_process_silenced_events") (some (codes "1")) php_ini_perdir
        (on_update_bool sqlite3_process_silenced_events)
    ∷ []

abbrev pub mysql_entries : List IniEntry
mysql_entries =
    entry (codes "apm.mysql_enabled") (some (codes "1")) php_ini_perdir
      (on_update_bool mysql_enabled)
    ∷ entry (codes "apm.mysql_stats_enabled") (some (codes "0")) php_ini_all
        (on_update_bool mysql_stats_enabled)
    ∷ entry (codes "apm.mysql_exception_mode") (some (codes "1")) php_ini_perdir
        (on_update_long_ge_zero mysql_exception_mode)
    ∷ entry (codes "apm.mysql_error_reporting") none php_ini_all
        (on_update_apm_error_reporting mysql_settings)
    ∷ entry (codes "apm.mysql_host") (some (codes "localhost")) php_ini_perdir
        (on_update_string (nullable mysql_db_host))
    ∷ entry (codes "apm.mysql_port") (some (codes "0")) php_ini_perdir
        (on_update_long (unsigned_int mysql_db_port))
    ∷ entry (codes "apm.mysql_user") (some (codes "root")) php_ini_perdir
        (on_update_string (nullable mysql_db_user))
    ∷ entry (codes "apm.mysql_pass") (some (codes "")) php_ini_perdir
        (on_update_string (nullable mysql_db_pass))
    ∷ entry (codes "apm.mysql_db") (some (codes "apm")) php_ini_perdir
        (on_update_string (nullable mysql_db_name))
    ∷ entry (codes "apm.mysql_process_silenced_events") (some (codes "1")) php_ini_perdir
        (on_update_bool mysql_process_silenced_events)
    ∷ []

abbrev pub statsd_entries : List IniEntry
statsd_entries =
    entry (codes "apm.statsd_enabled") (some (codes "1")) php_ini_perdir
      (on_update_bool statsd_enabled)
    ∷ entry (codes "apm.statsd_stats_enabled") (some (codes "1")) php_ini_all
        (on_update_bool statsd_stats_enabled)
    ∷ entry (codes "apm.statsd_exception_mode") (some (codes "1")) php_ini_perdir
        (on_update_long_ge_zero statsd_exception_mode)
    ∷ entry (codes "apm.statsd_error_reporting") none php_ini_all
        (on_update_apm_error_reporting statsd_settings)
    ∷ entry (codes "apm.statsd_host") (some (codes "localhost")) php_ini_perdir
        (on_update_string (text statsd_host))
    ∷ entry (codes "apm.statsd_port") (some (codes "8125")) php_ini_perdir
        (on_update_long (unsigned_int statsd_port))
    ∷ entry (codes "apm.statsd_prefix") (some (codes "apm")) php_ini_all
        (on_update_string (text statsd_prefix))
    ∷ []

abbrev pub socket_entries : List IniEntry
socket_entries =
    entry (codes "apm.socket_enabled") (some (codes "1")) php_ini_all
      (on_update_bool socket_enabled)
    ∷ entry (codes "apm.socket_stats_enabled") (some (codes "1")) php_ini_all
        (on_update_bool socket_stats_enabled)
    ∷ entry (codes "apm.socket_exception_mode") (some (codes "1")) php_ini_perdir
        (on_update_long_ge_zero socket_exception_mode)
    ∷ entry (codes "apm.socket_error_reporting") none php_ini_all
        (on_update_apm_error_reporting socket_settings)
    ∷ entry (codes "apm.socket_path") (some (codes "file:/tmp/apm.sock|tcp:127.0.0.1:8264"))
        php_ini_all (on_update_string (text socket_path))
    ∷ entry (codes "apm.socket_process_silenced_events") (some (codes "1")) php_ini_perdir
        (on_update_bool socket_process_silenced_events)
    ∷ []

abbrev pub elasticsearch_entries : List IniEntry
elasticsearch_entries =
    entry (codes "apm.elasticsearch_host") (some (codes "localhost")) php_ini_perdir
      (on_update_string (text elasticsearch_host))
    ∷ entry (codes "apm.elasticsearch_port") (some (codes "9200")) php_ini_perdir
        (on_update_long (long elasticsearch_port))
    ∷ entry (codes "apm.elasticsearch_index") (some (codes "php-apm")) php_ini_perdir
        (on_update_string (text elasticsearch_index))
    ∷ entry (codes "apm.elasticsearch_user") (some (codes "")) php_ini_perdir
        (on_update_string (nullable elasticsearch_user))
    ∷ entry (codes "apm.elasticsearch_pass") (some (codes "")) php_ini_perdir
        (on_update_string (nullable elasticsearch_pass))
    ∷ entry (codes "apm.elasticsearch_username") (some (codes "")) php_ini_perdir
        (on_update_string (nullable elasticsearch_username))
    ∷ entry (codes "apm.elasticsearch_password") (some (codes "")) php_ini_perdir
        (on_update_string (nullable elasticsearch_password))
    ∷ entry (codes "apm.elasticsearch_enabled") (some (codes "0")) php_ini_perdir
        (on_update_bool elasticsearch_enabled)
    ∷ entry (codes "apm.elasticsearch_batch_size") (some (codes "50")) php_ini_perdir
        (on_update_long (long elasticsearch_batch_size))
    ∷ entry (codes "apm.elasticsearch_batch_timeout") (some (codes "3")) php_ini_perdir
        (on_update_long (long elasticsearch_batch_timeout))
    ∷ entry (codes "apm.elasticsearch_exception_mode") (some (codes "1")) php_ini_perdir
        (on_update_long_ge_zero elasticsearch_exception_mode)
    ∷ entry (codes "apm.elasticsearch_error_reporting") none php_ini_all
        (on_update_apm_error_reporting elasticsearch_settings)
    ∷ entry (codes "apm.elasticsearch_stats_enabled") (some (codes "1")) php_ini_perdir
        (on_update_bool elasticsearch_stats_enabled)
    ∷ entry (codes "apm.elasticsearch_process_silenced_events") (some (codes "1")) php_ini_perdir
        (on_update_bool elasticsearch_process_silenced_events)
    ∷ []

abbrev pub where_defined : Bool → List IniEntry → List IniEntry
where_defined b es = if b then es else []

unfoldable pub ini_entries : Build → (default_db : Bytes) → List IniEntry
ini_entries b default_db =
    module_entries
    ++ where_defined b.driver_sqlite3 (sqlite3_entries default_db)
    ++ where_defined b.driver_mysql mysql_entries
    ++ where_defined b.driver_statsd statsd_entries
    ++ where_defined b.driver_socket socket_entries
    ++ where_defined b.have_curl elasticsearch_entries
