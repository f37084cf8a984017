-- ===== src/Ini/Start.antt =====
-- The module's start, PHP_MINIT_FUNCTION with the INI table that it registers first.
use php_apm.Common.{
  ℕ, pos, ◌^◌, ◌<◌, Bool, true, false, if◌then◌else◌, Bytes, codes, decimal, Option, none, some,
  List, [], ◌∷◌, ◌≡◌, refl, sym, subst, ap, ◌∙◌, All, arith, Bool-cases, inl, inr,
}
use php_apm.World.{curl_global_init, Env}
use php_apm.Globals.{StatsdState, Globals, Run, Status, success, apm_hook, ◌>>◌, pure}
use php_apm.Globals.Runs.{continued, run_true}
use php_apm.Globals.Owners.{Owner, of_sqlite3, of_mysql, of_statsd, of_socket}
use php_apm.Driver.{Driver}
use php_apm.Statsd.Packets.{minit_succeeds}
use php_apm.Apm.{Elastic, elastic_status, minit, until_failure, install}
use php_apm.Apm.Drivers.{Build, built, driver_of, all_drivers, drivers, elastic}
use php_apm.Apm.Composed.{driver_of-KeepsToItself, IsLocal-IsQuiet}
use php_apm.Apm.Hooks.{IsQuiet, until_failure-IsQuiet}
use php_apm.Apm.Whole.{all_drivers-All}
use php_apm.Ini.Stable.{IsStable, ini_entries-All, updates-IsStable}
use php_apm.Ini.{IniEntry, Engine, updates}
use php_apm.Ini.Table.{ini_entries}
use php_apm.Ini.Defaults.{defaults, statsd_defaults}
use php_apm.Ini.Registered.{defaults_registered}
use php_apm.Sqlite3
use php_apm.Mysql
use php_apm.Elasticsearch
use php_apm.Socket.Shutdown

-- What a driver's start asks of the settings.
abbrev IsStartable : Globals → Owner → Type 0
IsStartable g of_statsd = g.statsd.port < 10 ^ 7
IsStartable g _ = Unit

built-IsStartable :
    (b : Build) (g : Globals)
    → (b.driver_statsd ≡ true → g.statsd.port < 10 ^ 7)
    → All (IsStartable g) (built b)
unfolding built
built-IsStartable b g h = elim (Bool-cases b.driver_statsd) [
  | inl with_statsd ↦ let small = h with_statsd in ground arith
  | inr without ↦ ground arith
]

same_port-IsStartable :
    (g h : Globals) (os : List Owner)
    → h.statsd.port ≡ g.statsd.port
    → All (IsStartable g) os
    → All (IsStartable h) os
same_port-IsStartable g h [] e p = tt
same_port-IsStartable g h (of_sqlite3 ∷ os) e (p, ps) = (tt, same_port-IsStartable g h os e ps)
same_port-IsStartable g h (of_mysql ∷ os) e (p, ps) = (tt, same_port-IsStartable g h os e ps)
same_port-IsStartable g h (of_socket ∷ os) e (p, ps) = (tt, same_port-IsStartable g h os e ps)
same_port-IsStartable g h (of_statsd ∷ os) e (p, ps) =
    (omega (arith, e, p), same_port-IsStartable g h os e ps)

defaults-All :
    (P : IniEntry → Type 0) (es : List IniEntry) → All P es → All (λ u. P u.0) (defaults es)
defaults-All P [] h = tt
defaults-All P (e ∷ es) (p, ps) = (p, defaults-All P es ps)

ini_entries-IsQuiet :
    (b : Build) (default_db : Bytes) (g : Globals)
    → All
        (λ e. IsStable (λ h. h.zend_error_cb ≡ g.zend_error_cb) e.on_modify)
        (ini_entries b default_db)
ini_entries-IsQuiet b default_db g =
    ini_entries-All _ b default_db (ground arith) (ground arith) (ground arith) (ground arith)
      (ground arith) (ground arith)

elastic_starts :
    (ds : List Driver) (o : Option Elastic) (g : Globals)
    → ((e : Elastic)
        → o ≡ some e
        → e.minit g ≡ some (success, record g { log = curl_global_init ∷ g.log }))
    → (h : Globals) × ((elastic_status ds o (λ e. e.minit) >> pure success) g ≡ some (success, h))
      × (h ≡ record g { log = h.log })
elastic_starts ds (some e) g starts = (
  record g { log = curl_global_init ∷ g.log },
  ap
      (λ (r : Option (Status × Globals)).
        elim (elim r as (λ _. Option (Unit {0} × Globals)) [
          | none ↦ none
          | some (s, h) ↦ some (tt, h)
        ])
          as (λ _. Option (Status × Globals)) [ none ↦ none | some (a, h) ↦ some (success, h) ])
      (starts e refl),
  refl,
)
elastic_starts ds none g starts = (g, refl, refl)

module _ (env : Env) where
  driver_starts :
      (o : Owner) (g : Globals)
      → IsStartable g o
      → (h : Globals) × ((driver_of env o).minit g ≡ some (success, h))
        × (h.statsd.port ≡ g.statsd.port)
  unfolding driver_of Sqlite3.minit Mysql.minit Shutdown.minit
  driver_starts of_sqlite3 g p = (g, refl, refl)
  driver_starts of_mysql g p = (g, refl, refl)
  driver_starts of_socket g p = (g, refl, refl)
  driver_starts of_statsd g p = minit_succeeds env g p

  all_start :
      (os : List Owner) (g : Globals)
      → All (IsStartable g) os
      → (h : Globals) × (until_failure (λ d h. true) (λ d. d.minit) (all_drivers env os) g
          ≡ some (success, h))
  unfolding until_failure
  all_start [] g p = (g, refl)
  all_start (o ∷ os) g (p, ps) =
      let (k, ran, port) = driver_starts o g p in
      let (h, rest) = all_start os k (same_port-IsStartable g k os port ps) in
      (h, continued _ ran ∙ rest)

  curl_starts :
      (c : Bool) (e x : Elastic) (g : Globals)
      → x.minit g ≡ some (success, record g { log = curl_global_init ∷ g.log })
      → (if c then some x else none) ≡ some e
      → e.minit g ≡ some (success, record g { log = curl_global_init ∷ g.log })
  curl_starts true e x g h same =
      subst
        (λ (y : Option Elastic). elim y as (λ _. Type 0) [
          | none ↦ Unit {0}
          | some e ↦ e.minit g ≡ some (success, record g { log = curl_global_init ∷ g.log })
        ])
        same h
  curl_starts false e x g h same = cc

  elastic-starts :
      (b : Build) (e : Elastic) (g : Globals)
      → elastic env b ≡ some e
      → e.minit g ≡ some (success, record g { log = curl_global_init ∷ g.log })
  unfolding elastic Elasticsearch.minit
  elastic-starts b e g same = curl_starts b.have_curl e _ g refl same

  -- MINIT behind the table.
  minit_starts :
      (b : Build) (g : Globals)
      → g.settings.enabled ≡ true
      → (b.driver_statsd ≡ true → g.statsd.port < 10 ^ 7)
      → (h : Globals) × (minit (drivers env b) (elastic env b) g ≡ some (success, h))
        × (h.zend_error_cb ≡ apm_hook)
        × (h.throw_exception_hook ≡ some apm_hook)
        × (h.old_error_cb ≡ g.zend_error_cb)
  unfolding minit drivers elastic Elasticsearch.minit
  minit_starts b g on port =
      let start : Globals = record g { old_error_cb = g.zend_error_cb } in
      let (k, ran) = all_start (built b) start (built-IsStartable b start port) in
      let quiet =
        until_failure-IsQuiet (λ d h. true) (λ d. d.minit) (all_drivers env (built b))
          (all_drivers-All env (λ d. IsQuiet d.minit) (built b)
            λ o. IsLocal-IsQuiet o _ (driver_of-KeepsToItself env o).minit)
          start success k ran in
      let (h, ended, same) =
        elastic_starts (drivers env b) (elastic env b) (install (drivers env b) (elastic env b) k)
          λ e. elastic-starts b e _ in
      (
        h,
        continued _ (run_true _ _ (pure success) start on ∙ continued _ ran) ∙ ended,
        ap (λ (x : Globals). x.zend_error_cb) same,
        ap (λ (x : Globals). x.throw_exception_hook) same,
        ap (λ (x : Globals). x.old_error_cb) same ∙ ap (λ t. t.4) quiet,
      )

default_port :
    (b : Bool) (s t : StatsdState)
    → b ≡ true
    → t ≡ (if b then statsd_defaults s else s)
    → t.port < 10 ^ 7
default_port true s t on e = subst (λ (x : StatsdState). x.port < 10 ^ 7) (sym e) (omega arith)
default_port false s t on e = cc

-- MINIT, which begins with the registering of the table: `us` are the calls of the handlers by that.
unfoldable pub php_minit :
    (engine : Engine) (env : Env) (maxpathlen : ℕ) (b : Build)
    → List (IniEntry × Option Bytes)
    → Run Status
php_minit engine env maxpathlen b us =
    updates engine env maxpathlen us >> minit (drivers env b) (elastic env b)

-- The engine's handlers are taken to read "1" and "0" as switches, numbers in decimals, and to take
-- texts as they are. Where nothing is configured, so that each handler is called with its default,
-- MINIT succeeds in every build, whatever the system answers, and makes the module the receiver of
-- errors and exceptions; the callback for errors that was there before is kept.
pub php_minit_starts :
    (engine : Engine) (env : Env) (maxpathlen : ℕ)
    → engine.bool_of (some (codes "1")) ≡ some true
    → engine.bool_of (some (codes "0")) ≡ some false
    → ((s : Bytes) → engine.string_of (some s) ≡ some (some s))
    → ((n : ℕ) → engine.long_of (some (decimal n)) ≡ some (pos n))
    → ((n : ℕ) → engine.long_ge_zero_of (some (decimal n)) ≡ some n)
    → (b : Build) (default_db : Bytes) (g : Globals)
    → (h : Globals) × (php_minit engine env maxpathlen b (defaults (ini_entries b default_db)) g
        ≡ some (success, h))
      × (h.zend_error_cb ≡ apm_hook)
      × (h.throw_exception_hook ≡ some apm_hook)
      × (h.old_error_cb ≡ g.zend_error_cb)
unfolding php_minit
php_minit_starts engine env maxpathlen one nought texts numbers naturals b default_db g =
    let us = defaults (ini_entries b default_db) in
    let (k, ran, shared, _, _, statsd, _, _) =
      defaults_registered engine env maxpathlen one nought texts numbers naturals b default_db g in
    let kept : k.zend_error_cb ≡ g.zend_error_cb =
      updates-IsStable engine env maxpathlen (λ h. h.zend_error_cb ≡ g.zend_error_cb) us g k
        (defaults-All _ (ini_entries b default_db) (ini_entries-IsQuiet b default_db g)) ran refl in
    let (h, begun, callback, hook, old) =
      minit_starts env b k (ap (λ s. s.enabled) shared)
        (λ on. default_port b.driver_statsd g.statsd k.statsd on statsd) in
    (h, continued _ ran ∙ begun, callback, hook, old ∙ kept)
