-- ===== src/Ini/Silenced.antt =====
-- Silenced events and the settings of the StatsD driver.
use php_apm.Common.{ℕ, true, false, Bytes, Option, some, List, ◌≡◌, All, arith}
use php_apm.World.{Env}
use php_apm.Globals.{Globals}
use php_apm.Driver.{EventType, on_update_error_reporting, want_event}
use php_apm.Apm.Drivers.{Build}
use php_apm.Ini.{IniEntry, Engine, updates}
use php_apm.Ini.Table.{ini_entries}
use php_apm.Ini.Stable.{IsIn, all_in, IsStable, updates-IsStable, ini_entries-All}

abbrev Drops : Globals → Type 0
Drops g = g.statsd.settings.process_silenced_events ≡ false

ini_entries-Drops :
    (b : Build) (default_db : Bytes)
    → All (λ e. IsStable Drops e.on_modify) (ini_entries b default_db)
unfolding on_update_error_reporting
ini_entries-Drops b default_db =
    ini_entries-All _ b default_db (ground arith) (ground arith) (ground arith) (ground arith)
      (ground arith) (ground arith)

-- In every build: where the StatsD driver drops silenced events to begin with, as it does when its
-- settings are zero, it wants no silenced event after any calls of the handlers of the INI table,
-- with any values.
pub statsd_drops_silenced :
    (engine : Engine) (env : Env) (maxpathlen : ℕ) (b : Build) (default_db : Bytes)
    (us : List (IniEntry × Option Bytes)) (g h : Globals) (type : EventType) (level : ℕ)
    (msg : Bytes)
    → All (λ u. IsIn u.0 (ini_entries b default_db)) us
    → g.statsd.settings.process_silenced_events ≡ false
    → updates engine env maxpathlen us g ≡ some (tt, h)
    → want_event h.statsd.settings true type level msg ≡ false
unfolding want_event
statsd_drops_silenced engine env maxpathlen b default_db us g h type level msg among off ran =
    let still : Drops h =
      updates-IsStable engine env maxpathlen Drops us g h
        (all_in _ us (ini_entries b default_db) (ini_entries-Drops b default_db) among) ran off in
    ground arith
