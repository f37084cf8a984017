-- ===== src/Ini/Members/Network.antt =====
-- The settings of the drivers for StatsD, sockets and Elasticsearch in php_apm.h.
use php_apm.Common.{ℕ, ℤ, Bool, Bytes, Option}
use php_apm.Globals.{DriverSettings, StatsdState, SocketState, ElasticsearchState, Globals}
use php_apm.Ini.{Member, Property, within}
use php_apm.Ini.Members.Shared.{
  enabled_in, stats_enabled_in, exception_mode_in, process_silenced_events_in,
}

-- statsd
abbrev statsd_part : Member Globals StatsdState
statsd_part = record { read = λ s. s.statsd; write = λ a s. record s { statsd = a } }

abbrev pub statsd_settings : Property DriverSettings
statsd_settings =
    within statsd_part (record { read = λ s. s.settings; write = λ a s. record s { settings = a } })

abbrev pub statsd_enabled : Property Bool
statsd_enabled = enabled_in statsd_settings

abbrev pub statsd_stats_enabled : Property Bool
statsd_stats_enabled = stats_enabled_in statsd_settings

abbrev pub statsd_exception_mode : Property ℕ
statsd_exception_mode = exception_mode_in statsd_settings

abbrev pub statsd_host : Property Bytes
statsd_host =
    within statsd_part (record { read = λ s. s.host; write = λ a s. record s { host = a } })

abbrev pub statsd_port : Property ℕ
statsd_port =
    within statsd_part (record { read = λ s. s.port; write = λ a s. record s { port = a } })

abbrev pub statsd_prefix : Property Bytes
statsd_prefix =
    within statsd_part (record { read = λ s. s.prefix; write = λ a s. record s { prefix = a } })

-- socket
abbrev socket_part : Member Globals SocketState
socket_part = record { read = λ s. s.socket; write = λ a s. record s { socket = a } }

abbrev pub socket_settings : Property DriverSettings
socket_settings =
    within socket_part (record { read = λ s. s.settings; write = λ a s. record s { settings = a } })

abbrev pub socket_enabled : Property Bool
socket_enabled = enabled_in socket_settings

abbrev pub socket_stats_enabled : Property Bool
socket_stats_enabled = stats_enabled_in socket_settings

abbrev pub socket_exception_mode : Property ℕ
socket_exception_mode = exception_mode_in socket_settings

abbrev pub socket_process_silenced_events : Property Bool
socket_process_silenced_events = process_silenced_events_in socket_settings

abbrev pub socket_path : Property Bytes
socket_path =
    within socket_part (record { read = λ s. s.path; write = λ a s. record s { path = a } })

-- elasticsearch
abbrev elasticsearch_part : Member Globals ElasticsearchState
elasticsearch_part = record {
  read = λ s. s.elasticsearch;
  write = λ a s. record s { elasticsearch = a };
}

abbrev pub elasticsearch_settings : Property DriverSettings
elasticsearch_settings =
    within elasticsearch_part
      (record { read = λ s. s.settings; write = λ a s. record s { settings = a } })

abbrev pub elasticsearch_enabled : Property Bool
elasticsearch_enabled = enabled_in elasticsearch_settings

abbrev pub elasticsearch_stats_enabled : Property Bool
elasticsearch_stats_enabled = stats_enabled_in elasticsearch_settings

abbrev pub elasticsearch_exception_mode : Property ℕ
elasticsearch_exception_mode = exception_mode_in elasticsearch_settings

abbrev pub elasticsearch_process_silenced_events : Property Bool
elasticsearch_process_silenced_events = process_silenced_events_in elasticsearch_settings

abbrev pub elasticsearch_host : Property Bytes
elasticsearch_host =
    within elasticsearch_part (record { read = λ s. s.host; write = λ a s. record s { host = a } })

abbrev pub elasticsearch_port : Property ℤ
elasticsearch_port =
    within elasticsearch_part (record { read = λ s. s.port; write = λ a s. record s { port = a } })

abbrev pub elasticsearch_index : Property Bytes
elasticsearch_index =
    within elasticsearch_part
      (record { read = λ s. s.index; write = λ a s. record s { index = a } })

abbrev pub elasticsearch_user : Property (Option Bytes)
elasticsearch_user =
    within elasticsearch_part (record { read = λ s. s.user; write = λ a s. record s { user = a } })

abbrev pub elasticsearch_pass : Property (Option Bytes)
elasticsearch_pass =
    within elasticsearch_part (record { read = λ s. s.pass; write = λ a s. record s { pass = a } })

abbrev pub elasticsearch_username : Property (Option Bytes)
elasticsearch_username =
    within elasticsearch_part
      (record { read = λ s. s.username; write = λ a s. record s { username = a } })

abbrev pub elasticsearch_password : Property (Option Bytes)
elasticsearch_password =
    within elasticsearch_part
      (record { read = λ s. s.password; write = λ a s. record s { password = a } })

abbrev pub elasticsearch_batch_size : Property ℤ
elasticsearch_batch_size =
    within elasticsearch_part
      (record { read = λ s. s.batch_size; write = λ a s. record s { batch_size = a } })

abbrev pub elasticsearch_batch_timeout : Property ℤ
elasticsearch_batch_timeout =
    within elasticsearch_part
      (record { read = λ s. s.batch_timeout; write = λ a s. record s { batch_timeout = a } })
