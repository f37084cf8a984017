-- ===== src/Apm/Ends.antt =====
-- RSHUTDOWN of a whole build to its end (`PHP_RSHUTDOWN_FUNCTION` of apm.c).
use php_apm.Common.{
  ℕ, ℤ, ◌^◌, ◌<◌, Bool, true, false, not, ◌&&◌, if◌then◌else◌, ltb, Bytes, Option, none, some, List,
  [], ◌∷◌, ◌≡◌, refl, ap, ◌∙◌, Bool-cases, inl, inr, or_else,
}
use php_apm.World.{Env, Rusage}
use php_apm.Globals.{SocketState, Globals, Run, Status, success, pure, ◌>>◌}
use php_apm.Globals.Runs.{continued, if_true, if_false, run_true, run_false}
use php_apm.Globals.Owners.{Owner, of_sqlite3, of_mysql, of_statsd, of_socket}
use php_apm.Request.{extracted}
use php_apm.Request.Extract.{IsSound, extracted-IsSound, extracted-keeps}
use php_apm.Request.Returns.{string_of_item}
use php_apm.Driver.{Driver, create}
use php_apm.Sqlite3
use php_apm.Mysql
use php_apm.Statsd
use php_apm.Elasticsearch
use php_apm.Apm.Drivers.{Build, built, driver_of, all_drivers, drivers, elastic}
use php_apm.Apm.{
  Elastic, elastic_end, rshutdown, all_shut_down, worse, measured, above_threshold, report_stats,
  stats_wanted, restore_handlers, restore_callbacks,
}
use php_apm.Apm.Reports.{times, IsPrinted, IsSteady, kept-IsSteady, stats_return}

-- A run that ends with the socket driver as it was.
abbrev Passes : {A : Type 0} → Run A → Globals → Type 0
Passes {A} m g = (a : A) × (h : Globals) × (m g ≡ some (a, h)) × (h.socket ≡ g.socket)

usage-IsSteady :
    (o : Option Rusage) (a : Globals) (k : Rusage → Globals)
    → IsSteady a
    → ((u : Rusage) → IsSteady (k u))
    → IsSteady (elim o as (λ _. Globals) [ none ↦ a | some u ↦ k u ])
usage-IsSteady none a k p q = p
usage-IsSteady (some u) a k p q = q u

if_ends :
    (ds : List Driver) (c : Bool) (y : Elastic) (g : Globals)
    → Passes (y.process_stats >> y.rshutdown) g
    → Passes (elastic_end ds (if c then some y else none)) g
if_ends ds false y g ends = (tt, g, refl, refl)
if_ends ds true y g (u, h, e, same) = elim (Bool-cases g.elasticsearch.settings.enabled) [
  | inl on ↦ (u, h, run_true _ (y.process_stats >> y.rshutdown) (pure tt) g on ∙ e, same)
  | inr off ↦ (tt, g, run_false _ (y.process_stats >> y.rshutdown) (pure tt) g off, refl)
]

same-if : (c : Bool) (g h : Globals) → h.socket ≡ g.socket → (if c then h else g).socket ≡ g.socket
same-if true g h same = same
same-if false g h same = refl

module _ (env : Env) where
  driver_ends :
      (o : Owner) (g : Globals)
      → g.socket.settings.enabled ≡ false
      → (driver_of env o).is_enabled g ≡ true
      → Passes (driver_of env o).rshutdown g
  unfolding driver_of create Sqlite3.rshutdown Sqlite3.disconnect Mysql.rshutdown Statsd.rshutdown
  driver_ends of_sqlite3 g off on = elim (Bool-cases g.sqlite3.event_db) [
    | inl opened ↦ (success, _, continued _ (run_true _ _ (pure tt) g opened), refl)
    | inr unused ↦ (success, g, continued _ (run_false _ _ (pure tt) g unused), refl)
  ]
  driver_ends of_mysql g off on = (success, g, refl, refl)
  driver_ends of_statsd g off on = (success, g, refl, refl)
  driver_ends of_socket g off on = cc (on, off)

  all_end :
      (os : List Owner) (code : Status) (g : Globals)
      → g.socket.settings.enabled ≡ false
      → Passes (all_shut_down (all_drivers env os) code) g
  unfolding all_shut_down
  all_end [] code g off = (code, g, refl, refl)
  all_end (o ∷ os) code g off = elim (Bool-cases ((driver_of env o).is_enabled g)) [
    | inl on ↦
        let (s, k, e, same) = driver_ends o g off on in
        let (s', h, e', same') =
          all_end os (worse s code) k (ap (λ (t : SocketState). t.settings.enabled) same ∙ off) in
        (
          s',
          h,
          continued _ (run_true _ (driver_of env o).rshutdown (pure success) g on ∙ e) ∙ e',
          same' ∙ same,
        )
    | inr left ↦
        let (s', h, e', same') = all_end os (worse success code) g off in
        (
          s',
          h,
          continued _ (run_false _ (driver_of env o).rshutdown (pure success) g left) ∙ e',
          same',
        )
  ]

  measured-IsSteady :
      (b : Build) (g : Globals)
      → IsSteady g
      → IsSteady (measured (drivers env b) (elastic env b) env g)
  unfolding measured
  measured-IsSteady b g p =
      usage-IsSteady (env.getrusage g.log) _ _ (kept-IsSteady g _ p p.sound refl refl)
        λ u. kept-IsSteady g _ p p.sound refl refl

  stats_end :
      (b : Build) (g : Globals)
      → IsPrinted env (times (measured (drivers env b) (elastic env b) env g))
      → ((s : Bytes) → or_else (env.inet_pton s) 0 < 2 ^ 32)
      → IsSteady g
      → (h : Globals) × (report_stats (drivers env b) (elastic env b) env g ≡ some (tt, h))
        × IsSteady h
  unfolding report_stats drivers
  stats_end b g printed addr p = elim (Bool-cases (stats_wanted (drivers env b) g)) [
    | inl wanted ↦
        let k = measured (drivers env b) (elastic env b) env g in
        let q : IsSteady k × IsPrinted env (times k) = (measured-IsSteady b g p, printed) in
        elim (Bool-cases (above_threshold (drivers env b) (elastic env b) env k)) [
          | inl above ↦
              let (h, e, r) = stats_return env addr (built b) k q in
              (h, if_true _ _ _ wanted ∙ run_true _ _ (pure tt) k above ∙ e, r.0)
          | inr below ↦ (k, if_true _ _ _ wanted ∙ run_false _ _ (pure tt) k below, q.0)
        ]
    | inr unwanted ↦ (g, if_false _ _ _ unwanted, p)
  ]

  elastic_stats :
      (g : Globals) → IsSound g.request_data → Passes (Elasticsearch.process_stats env) g
  unfolding Elasticsearch.process_stats
  elastic_stats g p =
      let off = not (g.elasticsearch.settings.enabled && g.elasticsearch.settings.stats_enabled) in
      elim (Bool-cases off) [
        | inl off ↦ (tt, g, if_true _ _ _ off, refl)
        | inr on ↦
            let k = extracted env g in
            let t = (extracted-IsSound env g p).0.typed in
            let rd = k.request_data in
            let (uri, e) = string_of_item rd.uri.var rd.uri.found k t.uri in
            let (method, e') = string_of_item rd.method.var rd.method.found k t.method in
            (
              tt,
              _,
              if_false _ _ _ on ∙ continued _ e ∙ continued _ e',
              ap (λ (h : Globals). h.socket) (extracted-keeps env g),
            )
      ]

  elastic_ends :
      (b : Build) (g : Globals)
      → IsSound g.request_data
      → Passes (elastic_end (drivers env b) (elastic env b)) g
  unfolding elastic Elasticsearch.rshutdown
  elastic_ends b g p =
      let (u, k, e, same) = elastic_stats g p in
      if_ends (drivers env b) b.have_curl _ g
        (tt, _, continued _ e, same-if (ltb 0 k.elasticsearch.batch_count) k _ refl ∙ same)

  -- What RSHUTDOWN measures of a request.
  abbrev pub end_times : Build → Globals → ℕ × ℕ × ℕ × ℤ
  end_times b g = times (
      measured (drivers env b) (elastic env b) env
        (restore_handlers (drivers env b) (elastic env b) g))

  pub rshutdown_returns :
      (b : Build) (g : Globals)
      → IsPrinted env (end_times b g)
      → ((s : Bytes) → or_else (env.inet_pton s) 0 < 2 ^ 32)
      → IsSteady g
      → (s : Status) × (h : Globals) × (rshutdown (drivers env b) (elastic env b) env g
          ≡ some (s, h))
  unfolding rshutdown drivers
  rshutdown_returns b g printed addr p = elim (Bool-cases g.settings.enabled) [
    | inl on ↦
        let start = restore_handlers (drivers env b) (elastic env b) g in
        let (k, e, q) =
          stats_end b start printed addr (kept-IsSteady g start p p.sound refl refl) in
        let (u, j, e', same) = elastic_ends b k q.sound in
        let (s, h, e'', _) =
          all_end (built b) success j (ap (λ (t : SocketState). t.settings.enabled) same ∙ q.off) in
        (
          s,
          restore_callbacks (drivers env b) (elastic env b) h,
          if_true _ _ _ on ∙ continued _ e ∙ continued _ e' ∙ continued _ e'',
        )
    | inr off ↦ (success, g, if_false _ _ _ off)
  ]
