-- ===== src/Ini/Members/Shared.antt =====
-- The settings of php_apm.h that all drivers share, and those that each driver has.
use php_apm.Common.{ℕ, ℤ, Bool, Bytes, Option}
use php_apm.Globals.{DriverSettings, Settings, Globals}
use php_apm.Ini.{Member, Property, within}

-- The settings that all drivers share.
abbrev common : Member Globals Settings
common = record { read = λ s. s.settings; write = λ a s. record s { settings = a } }

abbrev pub enabled : Property Bool
enabled = within common (record { read = λ s. s.enabled; write = λ a s. record s { enabled = a } })

abbrev pub application_id : Property (Option Bytes)
application_id =
    within common
      (record { read = λ s. s.application_id; write = λ a s. record s { application_id = a } })

abbrev pub event_enabled : Property Bool
event_enabled =
    within common
      (record { read = λ s. s.event_enabled; write = λ a s. record s { event_enabled = a } })

abbrev pub store_stacktrace : Property Bool
store_stacktrace =
    within common
      (record { read = λ s. s.store_stacktrace; write = λ a s. record s { store_stacktrace = a } })

abbrev pub store_ip : Property Bool
store_ip =
    within common (record { read = λ s. s.store_ip; write = λ a s. record s { store_ip = a } })

abbrev pub store_cookies : Property Bool
store_cookies =
    within common
      (record { read = λ s. s.store_cookies; write = λ a s. record s { store_cookies = a } })

abbrev pub store_post : Property Bool
store_post =
    within common (record { read = λ s. s.store_post; write = λ a s. record s { store_post = a } })

abbrev pub stats_duration_threshold : Property ℤ
stats_duration_threshold = within common (record {
  read = λ s. s.stats_duration_threshold;
  write = λ a s. record s { stats_duration_threshold = a };
})

abbrev pub stats_user_cpu_threshold : Property ℤ
stats_user_cpu_threshold = within common (record {
  read = λ s. s.stats_user_cpu_threshold;
  write = λ a s. record s { stats_user_cpu_threshold = a };
})

abbrev pub stats_sys_cpu_threshold : Property ℤ
stats_sys_cpu_threshold = within common (record {
  read = λ s. s.stats_sys_cpu_threshold;
  write = λ a s. record s { stats_sys_cpu_threshold = a };
})

abbrev pub dump_max_depth : Property ℤ
dump_max_depth =
    within common
      (record { read = λ s. s.dump_max_depth; write = λ a s. record s { dump_max_depth = a } })

-- What each driver has of the macro APM_DRIVER_CREATE and of its own kind.
module _ {S : Type 0} (settings : Member S DriverSettings) where
  abbrev pub enabled_in : Member S Bool
  enabled_in =
      within settings (record { read = λ s. s.enabled; write = λ a s. record s { enabled = a } })

  abbrev pub stats_enabled_in : Member S Bool
  stats_enabled_in =
      within settings
        (record { read = λ s. s.stats_enabled; write = λ a s. record s { stats_enabled = a } })

  abbrev pub exception_mode_in : Member S ℕ
  exception_mode_in =
      within settings
        (record { read = λ s. s.exception_mode; write = λ a s. record s { exception_mode = a } })

  abbrev pub process_silenced_events_in : Member S Bool
  process_silenced_events_in = within settings (record {
    read = λ s. s.process_silenced_events;
    write = λ a s. record s { process_silenced_events = a };
  })
