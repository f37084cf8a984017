-- ===== src/Ini/Scripts.antt =====
-- What scripts can do by changing settings.
use php_apm.Common.{
  ℕ, Bool, true, not, ◌==◌, bit_and, Bytes, Option, some, List, [], ◌∷◌, ◌≡◌, ◌&&◌, refl, All,
  arith,
}
use php_apm.World.{Env}
use php_apm.Globals.{DriverSettings, Globals}
use php_apm.Driver.{on_update_error_reporting}
use php_apm.Apm.Drivers.{Build}
use php_apm.Ini.{IniEntry, Engine, updates}
use php_apm.Ini.Table.{php_ini_user, ini_entries}
use php_apm.Ini.Stable.{IsIn, all_in, IsStable, updates-IsStable, ini_entries-All}

-- The engine calls the handler of an entry for a script only if the entry has this bit.
abbrev pub is_user : IniEntry → Bool
is_user e = not (bit_and e.modifiable php_ini_user == 0)

-- The switches of the module and of the drivers that scripts do not have.
abbrev pub switches : Globals → Bool × Bool × Bool × Bool
switches g = (
  g.settings.enabled, g.mysql.settings.enabled, g.statsd.settings.enabled,
  g.elasticsearch.settings.enabled,
)

-- The exception modes, and whether silenced events are processed.
abbrev pub modes : Globals → (ℕ × Bool) × (ℕ × Bool) × (ℕ × Bool) × (ℕ × Bool) × (ℕ × Bool)
modes g =
    let of : DriverSettings → ℕ × Bool = λ s. (s.exception_mode, s.process_silenced_events) in
    (
      of g.sqlite3.settings,
      of g.mysql.settings,
      of g.statsd.settings,
      of g.socket.settings,
      of g.elasticsearch.settings,
    )

abbrev IsReserved : Globals → Globals → Type 0
IsReserved g h =
    (switches h ≡ switches g)
    × (modes h ≡ modes g)
    × (h.sqlite3.settings.enabled && g.sqlite3.settings.enabled ≡ h.sqlite3.settings.enabled)

abbrev IsStableFor : (Globals → Type 0) → IniEntry → Type 0
IsStableFor P e = is_user e ≡ true → IsStable P e.on_modify

ini_entries-IsReserved :
    (b : Build) (default_db : Bytes) (g : Globals)
    → All (IsStableFor (IsReserved g)) (ini_entries b default_db)
unfolding on_update_error_reporting
ini_entries-IsReserved b default_db g =
    ini_entries-All _ b default_db (ground arith) (ground arith) (ground arith) (ground arith)
      (ground arith) (ground arith)

both :
    (P : Globals → Type 0) (us : List (IniEntry × Option Bytes))
    → All (λ u. IsStableFor P u.0) us
    → All (λ u. is_user u.0 ≡ true) us
    → All (λ u. IsStable P u.0.on_modify) us
both P [] hs us = tt
both P (u ∷ us) (h, hs) (user, users) = (h user, both P us hs users)

-- Any calls of the handlers of entries that scripts may change leave the module, and the drivers for
-- MySQL, StatsD and Elasticsearch, enabled or disabled as they were, every driver's exception mode
-- and whether it processes silenced events as they were, and the SQLite driver enabled only if it
-- was.
pub script_changes_reserved :
    (engine : Engine) (env : Env) (maxpathlen : ℕ) (b : Build) (default_db : Bytes)
    (us : List (IniEntry × Option Bytes)) (g h : Globals)
    → All (λ u. IsIn u.0 (ini_entries b default_db)) us
    → All (λ u. is_user u.0 ≡ true) us
    → updates engine env maxpathlen us g ≡ some (tt, h)
    → (switches h ≡ switches g)
      × (modes h ≡ modes g)
      × (h.sqlite3.settings.enabled && g.sqlite3.settings.enabled ≡ h.sqlite3.settings.enabled)
script_changes_reserved engine env maxpathlen b default_db us g h among users ran =
    updates-IsStable engine env maxpathlen (IsReserved g) us g h
      (both (IsReserved g) us
        (all_in _ us (ini_entries b default_db) (ini_entries-IsReserved b default_db g) among)
        users)
      ran (refl, refl, ground arith)
