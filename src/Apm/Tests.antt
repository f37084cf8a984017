-- ===== src/Apm/Tests.antt =====
-- A module with the drivers for StatsD and MySQL.
use php_apm.Common.{
  ℕ, decimal_ℤ, true, false, Bytes, codes, Option, none, some, List, [], ◌∷◌, ◌≡◌, refl, ap, ◌∙◌,
  arith,
}
use php_apm.Globals.{EventArgs, Globals, Run, Status, success, pure}
use php_apm.Driver.{Driver, error_event, create, want_event, want_stats}
use php_apm.Fixture.{env, globals}
use php_apm.Statsd
use php_apm.Mysql
use php_apm.Apm.{elastic_end, rinit, rshutdown}
use php_apm.Apm.Dispatch.{wanting, event}
use php_apm.Apm.Hooks.{IsQuiet}
use php_apm.Apm.Silence.{run_silence, forwarded, run_silence_lem}

abbrev trace : Run Bytes
trace = pure (codes "#0")

abbrev statsd : Driver
statsd =
    create (λ g. g.statsd.settings) (Statsd.process_event env) (Statsd.process_stats env)
      (Statsd.minit env) Statsd.rinit Statsd.mshutdown Statsd.rshutdown

abbrev mysql : Driver
mysql =
    create (λ g. g.mysql.settings) (Mysql.process_event env) (Mysql.process_stats env) Mysql.minit
      Mysql.rinit Mysql.mshutdown Mysql.rshutdown

abbrev drivers : List Driver
drivers = statsd ∷ mysql ∷ []

abbrev ready : Globals
ready = record globals { statsd = record globals.statsd { servinfo = true } }

statsd-keeps :
    (x : EventArgs) (g h : Globals)
    → Statsd.process_event env x g ≡ some (tt, h)
    → (h.mysql ≡ g.mysql) × (h.currently_silenced ≡ g.currently_silenced)
unfolding Statsd.process_event
statsd-keeps x g h e = ground arith

mysql_wants :
    (level : ℕ) (msg : Bytes) (x : EventArgs) (g h : Globals)
    → statsd.process_event x g ≡ some (tt, h)
    → mysql.want_event error_event level msg h ≡ mysql.want_event error_event level msg g
unfolding create
mysql_wants level msg x g h e =
    let (same, silent) = statsd-keeps x g h e in
    ap (λ m. want_event m.settings h.currently_silenced error_event level msg) same
    ∙ ap (λ b. want_event g.mysql.settings b error_event level msg) silent

abbrev shown : EventArgs
shown = event 8 (some (codes "a.php")) 12 (codes "m") (codes "#0")

-- Both of them want it.
both_want : wanting (λ d. d.want_event error_event 8 (codes "m")) ready drivers ≡ drivers
unfolding wanting create want_event
both_want = refl

abbrev globals_of : Option (Status × Globals) → Globals
globals_of none = globals
globals_of (some (s, h)) = h

abbrev begun : Globals
begun = globals_of (rinit (statsd ∷ []) none env ready)

abbrev ended : Globals
ended = globals_of (rshutdown (statsd ∷ []) none env begun)

begins : rinit (statsd ∷ []) none env ready ≡ some (success, begun)
unfolding rinit create Statsd.rinit
begins = refl

ends : rshutdown (statsd ∷ []) none env begun ≡ some (success, ended)
unfolding rinit rshutdown create Statsd.rinit Statsd.rshutdown Statsd.process_stats
    Statsd.stats_data want_stats decimal_ℤ
ends = refl

enabled_then : begun.settings.enabled ≡ true
unfolding rinit create Statsd.rinit
enabled_then = refl

rinit-IsQuiet : IsQuiet statsd.rinit
unfolding create Statsd.rinit
rinit-IsQuiet g a h e = ground arith

rshutdown-IsQuiet : IsQuiet statsd.rshutdown
unfolding create Statsd.rshutdown
rshutdown-IsQuiet g a h e = ground arith

no_elastic-IsQuiet : IsQuiet (elastic_end (statsd ∷ []) none)
no_elastic-IsQuiet g a h e = ground arith

stats-IsQuiet : IsQuiet statsd.process_stats
unfolding create Statsd.process_stats
stats-IsQuiet g a h e = ground arith

run_silence_lem_example :
    run_silence (true ∷ true ∷ false ∷ []) globals
    ≡ some (
      tt,
      record globals {
        currently_silenced = false;
        log = forwarded false false (true ∷ true ∷ false ∷ []) [];
      },
    )
run_silence_lem_example = run_silence_lem (true ∷ true ∷ false ∷ []) globals
