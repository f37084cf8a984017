-- ===== src/Driver/Tests.antt =====
-- The filter at concrete settings.
use php_apm.Common.{starts_with, true, false, ◌≡◌, refl, some, inr, codes}
use php_apm.Globals.{DriverSettings}
use php_apm.Driver.{selects, want_event, atoi, on_update_error_reporting}
use php_apm.Driver.Filter.{records_of_uncaught, uncaught_records}
use php_apm.Driver.Level.{e_all, e_error}

abbrev defaults : DriverSettings
defaults = record {
  enabled = true;
  stats_enabled = false;
  exception_mode = 1;
  error_reporting = e_all;
  process_silenced_events = true;
}

updated : (on_update_error_reporting (some (codes "8191")) defaults).error_reporting ≡ 8191
unfolding on_update_error_reporting atoi
updated = refl

uncaught_records_example :
    records_of_uncaught defaults true e_error (codes "5") (codes "Uncaught exception: 5") ≡ 1
unfolding starts_with
uncaught_records_example =
    uncaught_records defaults true e_error (codes "5") (codes "Uncaught exception: 5") refl
      (inr refl) (λ h. cc)

-- The message of PHP 7, in the mode 2.
recorded_twice :
    records_of_uncaught
      (record defaults { exception_mode = 2 })
      true
      e_error
      (codes "5")
      (codes "Uncaught Exception: 5")
    ≡ 2
unfolding records_of_uncaught want_event selects starts_with
recorded_twice = refl
