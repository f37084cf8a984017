-- ===== src/Ini/Members/Databases.antt =====
-- The settings of the SQLite and the MySQL driver in php_apm.h.
use php_apm.Common.{ℕ, ℤ, Bool, Bytes, Option}
use php_apm.Globals.{DriverSettings, Sqlite3State, MysqlState, Globals}
use php_apm.Ini.{Member, Property, within}
use php_apm.Ini.Members.Shared.{
  enabled_in, stats_enabled_in, exception_mode_in, process_silenced_events_in,
}

-- sqlite3
abbrev sqlite3_part : Member Globals Sqlite3State
sqlite3_part = record { read = λ s. s.sqlite3; write = λ a s. record s { sqlite3 = a } }

abbrev pub sqlite3_settings : Property DriverSettings
sqlite3_settings =
    within sqlite3_part
      (record { read = λ s. s.settings; write = λ a s. record s { settings = a } })

abbrev pub sqlite3_enabled : Property Bool
sqlite3_enabled = enabled_in sqlite3_settings

abbrev pub sqlite3_stats_enabled : Property Bool
sqlite3_stats_enabled = stats_enabled_in sqlite3_settings

abbrev pub sqlite3_exception_mode : Property ℕ
sqlite3_exception_mode = exception_mode_in sqlite3_settings

abbrev pub sqlite3_process_silenced_events : Property Bool
sqlite3_process_silenced_events = process_silenced_events_in sqlite3_settings

abbrev pub sqlite3_timeout : Property ℤ
sqlite3_timeout =
    within sqlite3_part (record { read = λ s. s.timeout; write = λ a s. record s { timeout = a } })

abbrev pub sqlite3_db_path : Property (Option Bytes)
sqlite3_db_path =
    within sqlite3_part (record { read = λ s. s.db_path; write = λ a s. record s { db_path = a } })

-- mysql
abbrev mysql_part : Member Globals MysqlState
mysql_part = record { read = λ s. s.mysql; write = λ a s. record s { mysql = a } }

abbrev pub mysql_settings : Property DriverSettings
mysql_settings =
    within mysql_part (record { read = λ s. s.settings; write = λ a s. record s { settings = a } })

abbrev pub mysql_enabled : Property Bool
mysql_enabled = enabled_in mysql_settings

abbrev pub mysql_stats_enabled : Property Bool
mysql_stats_enabled = stats_enabled_in mysql_settings

abbrev pub mysql_exception_mode : Property ℕ
mysql_exception_mode = exception_mode_in mysql_settings

abbrev pub mysql_process_silenced_events : Property Bool
mysql_process_silenced_events = process_silenced_events_in mysql_settings

abbrev pub mysql_db_host : Property (Option Bytes)
mysql_db_host =
    within mysql_part (record { read = λ s. s.db_host; write = λ a s. record s { db_host = a } })

abbrev pub mysql_db_port : Property ℕ
mysql_db_port =
    within mysql_part (record { read = λ s. s.db_port; write = λ a s. record s { db_port = a } })

abbrev pub mysql_db_user : Property (Option Bytes)
mysql_db_user =
    within mysql_part (record { read = λ s. s.db_user; write = λ a s. record s { db_user = a } })

abbrev pub mysql_db_pass : Property (Option Bytes)
mysql_db_pass =
    within mysql_part (record { read = λ s. s.db_pass; write = λ a s. record s { db_pass = a } })

abbrev pub mysql_db_name : Property (Option Bytes)
mysql_db_name =
    within mysql_part (record { read = λ s. s.db_name; write = λ a s. record s { db_name = a } })
