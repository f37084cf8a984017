-- ===== src/Apm/Reports.antt =====
-- RSHUTDOWN of a whole build to its end: the statistics and the drivers' ends.
use php_apm.Common.{
  ℕ, ℤ, ◌+◌, ◌^◌, ◌<◌, ◌≤◌, Bool, true, false, not, if◌then◌else◌, Bytes, length, length-append,
  some, List, [], ◌∷◌, ◌≡◌, refl, sym, subst, ap, ◌∙◌, arith, Bool-cases, Option-cases, inl, inr,
  or_else, decimal_ℤ,
}
use php_apm.World.{Env, Log, opened, sent, closed}
use php_apm.Globals.{StatsdState, SocketState, Globals, Run, pure}
use php_apm.Globals.Runs.{continued, run_true, run_false, sprintf-fits}
use php_apm.Globals.Owners.{Owner, of_sqlite3, of_mysql, of_statsd, of_socket}
use php_apm.Request.Extract.{IsSound}
use php_apm.Driver.{create, want_stats}
use php_apm.Sqlite3
use php_apm.Sqlite3.Returns.{process_stats-Returns}
use php_apm.Mysql
use php_apm.Mysql.Returns.{insert-Returns, get_instance-Returns}
use php_apm.Statsd
use php_apm.Socket.Shutdown
use php_apm.Apm.Locality.{mysql_insert-IsLocal, mysql_instance-IsLocal}
use php_apm.Apm.Drivers.{driver_of, all_drivers}
use php_apm.Apm.Composed.{driver_of-KeepsToItself}
use php_apm.Apm.{each_driver}

-- The measurements of a request.
abbrev pub times : Globals → ℕ × ℕ × ℕ × ℤ
times g = (g.duration, g.user_cpu, g.sys_cpu, g.mem_peak_usage)

-- They are printed as short as times below a hundred million seconds and a `long` that is not
-- negative, and the response code as an `int`.
pub record IsPrinted (env : Env) (t : ℕ × ℕ × ℕ × ℤ) : Type 0 where
  pub duration : length (env.print_sec t.0) ≤ 15
  pub user_cpu : length (env.print_sec t.1) ≤ 15
  pub sys_cpu : length (env.print_sec t.2) ≤ 15
  pub duration_ms : length (env.print_msec t.0) ≤ 18
  pub user_cpu_ms : length (env.print_msec t.1) ≤ 18
  pub sys_cpu_ms : length (env.print_msec t.2) ≤ 18
  pub memory : length (decimal_ℤ t.3) ≤ 19
  pub code : (l : Log) → length (decimal_ℤ (env.http_response_code l)) ≤ 11

-- What the end of a request asks of the globals, and its statistics besides.
pub record IsSteady (g : Globals) : Type 0 where
  pub sound : IsSound g.request_data
  pub address :
      g.statsd.settings.enabled ≡ true → (g.statsd.servinfo ≡ true) × (length g.statsd.prefix ≤ 100)
  pub off : g.socket.settings.enabled ≡ false

abbrev pub IsEnding : Env → Globals → Type 0
IsEnding env g = IsSteady g × IsPrinted env (times g)

pub kept-IsSteady :
    (g h : Globals)
    → IsSteady g
    → IsSound h.request_data
    → h.statsd ≡ g.statsd
    → h.socket ≡ g.socket
    → IsSteady h
kept-IsSteady g h p sound statsd socket = record {
  sound = sound;
  address =
      subst
        (λ (s : StatsdState).
          s.settings.enabled ≡ true → (s.servinfo ≡ true) × (length s.prefix ≤ 100))
        (sym statsd) p.address;
  off = ap (λ (s : SocketState). s.settings.enabled) socket ∙ p.off;
}

kept :
    (env : Env) (g h : Globals)
    → IsEnding env g
    → IsSound h.request_data
    → times h ≡ times g
    → h.statsd ≡ g.statsd
    → h.socket ≡ g.socket
    → IsEnding env h
kept env g h (p, m) sound same statsd socket =
    (kept-IsSteady g h p sound statsd socket, subst (IsPrinted env) (sym same) m)

abbrev pub Ends : Env → Run (Unit {0}) → Globals → Type 0
Ends env m g = (h : Globals) × (m g ≡ some (tt, h)) × IsEnding env h

if-Ends :
    (env : Env) (c : Bool) (m n : Run (Unit {0})) (g : Globals)
    → Ends env m g
    → Ends env n g
    → Ends env (if c then m else n) g
if-Ends env true m n g p q = p
if-Ends env false m n g p q = q

module _ (env : Env) (addr : (s : Bytes) → or_else (env.inet_pton s) 0 < 2 ^ 32) where
  mysql_fits :
      (g : Globals)
      → IsPrinted env (times g)
      → length (
            Mysql.stats_sql
              (env.print_sec g.duration)
              (env.print_sec g.user_cpu)
              (env.print_sec g.sys_cpu)
              g.mem_peak_usage)
          + 1
        ≤ Mysql.stats_size
  unfolding Mysql.stats_sql
  mysql_fits g h = simp length-append (omega (arith, h.memory, h.duration, h.user_cpu, h.sys_cpu))

  mysql_stats : (g : Globals) → IsEnding env g → Ends env (Mysql.process_stats env) g
  unfolding Mysql.process_stats
  mysql_stats g p =
      let (a, k, e, _, q) = insert-Returns env addr g p.0.sound in
      let same = mysql_insert-IsLocal env g a k e in
      let (c, j, e', _, q') = get_instance-Returns env k q in
      let same' = mysql_instance-IsLocal env k c j e' in
      let pk =
        kept env g k p q (ap (λ (h : Globals). times h) same) (ap (λ (h : Globals). h.statsd) same)
          (ap (λ (h : Globals). h.socket) same) in
      let pj =
        kept env k j pk q' (ap (λ (h : Globals). times h) same')
          (ap (λ (h : Globals). h.statsd) same') (ap (λ (h : Globals). h.socket) same') in
      let (h, ran, r) =
        if-Ends env (not c) (pure tt) _ j (j, refl, pj)
          (
            _,
            continued _ (sprintf-fits _ _ j (mysql_fits j pj.1)),
            kept env j _ pj q' refl refl refl,
          ) in
      (h, continued _ e ∙ continued _ e' ∙ ran, r)

  statsd_fits :
      (g : Globals) (l : Log)
      → IsPrinted env (times g)
      → length g.statsd.prefix ≤ 100
      → length (Statsd.stats_data env (record g { log = l })) + 1 ≤ 1024
  unfolding Statsd.stats_data
  statsd_fits g l h short =
      simp length-append
        (omega (arith, h.memory, h.duration_ms, h.user_cpu_ms, h.sys_cpu_ms, h.code l))

  statsd_stats :
      (g : Globals)
      → IsEnding env g
      → g.statsd.settings.enabled ≡ true
      → Ends env (Statsd.process_stats env) g
  unfolding Statsd.process_stats
  statsd_stats g p on =
      let (ready, short) = p.0.address on in
      elim (Option-cases (env.socket g.log)) [
        | inl without ↦ (g, ground arith, p)
        | inr (fd, given) ↦
            let l = opened fd ∷ g.log in
            let fits = statsd_fits g l p.1 short in
            (
              record g {
                log = closed fd ∷ sent fd (Statsd.stats_data env (record g { log = l })) ∷ l;
              },
              ground arith,
              kept env g _ p p.0.sound refl refl refl,
            )
      ]

  sqlite3_stats : (g : Globals) → IsEnding env g → Ends env (Sqlite3.process_stats env) g
  unfolding driver_of create
  sqlite3_stats g p =
      let (u, h, e, _, q) = process_stats-Returns env g p.0.sound in
      let same = (driver_of-KeepsToItself env of_sqlite3).process_stats g tt h e in
      (
        h,
        e,
        kept env g h p q (ap (λ (k : Globals). times k) same) (ap (λ (k : Globals). k.statsd) same)
            (ap (λ (k : Globals). k.socket) same),
      )

  driver_stats :
      (o : Owner) (g : Globals)
      → (driver_of env o).want_stats g ≡ true
      → IsEnding env g
      → Ends env (driver_of env o).process_stats g
  unfolding driver_of create want_stats Shutdown.process_stats
  driver_stats of_sqlite3 g on p = sqlite3_stats g p
  driver_stats of_mysql g on p = mysql_stats g p
  driver_stats of_statsd g on p = statsd_stats g p (ground arith)
  driver_stats of_socket g on p = (g, refl, p)

  -- The loop over the drivers that want statistics.
  pub stats_return :
      (os : List Owner) (g : Globals)
      → IsEnding env g
      → Ends env (each_driver (λ d. d.want_stats) (λ d. d.process_stats) (all_drivers env os)) g
  unfolding each_driver
  stats_return [] g p = (g, refl, p)
  stats_return (o ∷ os) g p = elim (Bool-cases ((driver_of env o).want_stats g)) [
    | inl on ↦
        let (k, e, q) = driver_stats o g on p in
        let (h, e', r) = stats_return os k q in
        (h, continued _ (run_true _ (driver_of env o).process_stats (pure tt) g on ∙ e) ∙ e', r)
    | inr off ↦
        let (h, e', r) = stats_return os g p in
        (h, continued _ (run_false _ (driver_of env o).process_stats (pure tt) g off) ∙ e', r)
  ]
