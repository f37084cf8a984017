-- ===== src/Apm/Returns.antt =====
-- An event in a whole build, from `apm_error_cb` of apm.c to its end.
use php_apm.Common.{
  ap, ℕ, ◌^◌, ◌<◌, Bool, true, false, if◌then◌else◌, Bytes, Option, none, some, List, [], ◌∷◌, ◌≡◌,
  refl, sym, subst, ◌∙◌, All, arith, Bool-cases, inl, inr, or_else, not,
}
use php_apm.World.{Env, Log, old_error_cb_called}
use php_apm.Globals.{EventArgs, Globals, Run, pure, ◌>>◌}
use php_apm.Globals.Runs.{continued, run_true, run_false}
use php_apm.Globals.Owners.{Owner, of_sqlite3, of_mysql, of_statsd, of_socket}
use php_apm.Driver.{Driver, error_event, create, want_event}
use php_apm.Elasticsearch
use php_apm.Apm.{Elastic, elastic_event, process_event, apm_error_cb}
use php_apm.Apm.Drivers.{Build, built, driver_of, drivers, elastic}
use php_apm.Apm.Dispatch.{event}
use php_apm.Backtrace.Value.{Store, Counts}
use php_apm.Backtrace.Frame.{Engine}
use php_apm.Backtrace.Walk.Ends.{EndsBy}
use php_apm.Apm.Ready.{IsReady, IsCalled, SameSettings, same_trans, calls_return}
use php_apm.Backtrace.Walk.Lines.{numbered}
use php_apm.Apm.Traced.{backtrace, event_traced}

-- A run that ends, and leaves the globals ready for the next one.
abbrev Continues : Run (Unit {0}) → Globals → Type 0
Continues m g = (h : Globals) × (m g ≡ some (tt, h)) × IsReady h × SameSettings g h

elastic_event_returns :
    (ds : List Driver) (o : Option Elastic) (x : EventArgs) (g : Globals)
    → IsReady g
    → ((e : Elastic) → o ≡ some e → Continues (e.process_event x) g)
    → Continues (elastic_event ds o x) g
elastic_event_returns ds none x g p r = (g, refl, p, (refl, refl, refl))
elastic_event_returns ds (some e) x g p r = elim (Bool-cases g.elasticsearch.settings.enabled) [
  | inl on ↦
      let (h, ran, q, same) = r e refl in
      (h, run_true _ (e.process_event x) (pure tt) g on ∙ ran, q, same)
  | inr off ↦ (g, run_false _ (e.process_event x) (pure tt) g off, p, (refl, refl, refl))
]

with_curl :
    (P : Elastic → Type 0) (c : Bool) (e y : Elastic)
    → P y
    → (if c then some y else none) ≡ some e
    → P e
with_curl P true e y p same =
    subst (λ (o : Option Elastic). elim o as (λ _. Type 0) [ none ↦ Unit {0} | some e ↦ P e ]) same
      p
with_curl P false e y p same = cc

Ready-if :
    (c : Bool) (g h : Globals)
    → IsReady g
    → IsReady h × SameSettings g h
    → IsReady (if c then g else h) × SameSettings g (if c then g else h)
Ready-if true g h p q = (p, (refl, refl, refl))
Ready-if false g h p q = q

batch-Ready :
    (env : Env) (x : EventArgs) (g : Globals)
    → IsReady g
    → IsReady (Elasticsearch.process_event env x g)
      × SameSettings g (Elasticsearch.process_event env x g)
unfolding Elasticsearch.process_event
batch-Ready env x g p = Ready-if (not g.elasticsearch.settings.enabled) g _ p (
  record { sound = p.sound; address = p.address; last = p.last; depth = p.depth },
  (refl, refl, refl),
)

elastic-returns :
    (env : Env) (b : Build) (x : EventArgs) (g : Globals) (e : Elastic)
    → IsReady g
    → elastic env b ≡ some e
    → Continues (e.process_event x) g
unfolding elastic
elastic-returns env b x g e p same =
    with_curl (λ e. Continues (e.process_event x) g) b.have_curl e _
      (
        Elasticsearch.process_event env x g,
        refl,
        (batch-Ready env x g p).0,
        (batch-Ready env x g p).1,
      )
      same

-- A driver that wants an event is enabled.
wanted-IsCalled :
    (env : Env) (type : ℕ) (msg : Bytes) (g : Globals) (o : Owner)
    → (driver_of env o).want_event error_event type msg g ≡ true
    → IsCalled o g
unfolding driver_of create want_event
wanted-IsCalled env type msg g of_sqlite3 on = tt
wanted-IsCalled env type msg g of_mysql on = tt
wanted-IsCalled env type msg g of_statsd on = ground arith
wanted-IsCalled env type msg g of_socket on = ground arith

-- An error as the engine raises it, with the frames, the values and the memory at that moment.
pub record Raised : Type 0 where
  pub engine : Engine
  pub distance : ℕ → ℕ
  pub store : Store
  pub counts : Counts
  pub type : ℕ
  pub file : Bytes
  pub lineno : ℕ
  pub msg : Bytes

-- The chain of frames ends at a distance below the fuel; the type and the line are the engine's.
abbrev pub IsRaised : ℕ → Raised → Type 0
IsRaised f r =
    EndsBy r.engine r.distance
    × ((p : ℕ) → r.engine.current_execute_data ≡ some p → r.distance p < f)
    × (r.type < 2 ^ 31)
    × (r.lineno < 2 ^ 32)

module _ (env : Env) (b : Build) (f : ℕ) where
  -- `apm_error_cb` of a build, with PHP 7.0.
  abbrev pub error_cb : Raised → Run (Unit {0})
  error_cb r =
      apm_error_cb (drivers env b) (elastic env b) (backtrace r.engine r.store f r.counts) r.type
        (some r.file) r.lineno r.msg

  -- The callback for each error of a request, in turn.
  pub error_cbs : List Raised → Run (Unit {0})
  error_cbs [] = pure tt
  error_cbs (r ∷ rs) = error_cb r >> error_cbs rs

  module _ (addr : (s : Bytes) → or_else (env.inet_pton s) 0 < 2 ^ 32) (fuel : 127 < f) where
    logged-IsReady : (l : Log) (g : Globals) → IsReady g → IsReady (record g { log = l })
    logged-IsReady l g p = record {
      sound = p.sound;
      address = p.address;
      last = p.last;
      depth = p.depth;
    }

    event_returns :
        (r : Raised) (g : Globals)
        → IsRaised f r
        → IsReady g
        → Continues
            (process_event
              (drivers env b)
              (elastic env b)
              (backtrace r.engine r.store f r.counts)
              error_event
              r.type
              (some r.file)
              r.lineno
              r.msg)
            g
    unfolding drivers
    event_returns r g (chain, near, small_type, small_line) p =
        let depth = p.depth in
        let (h, ls, ran, same, lines) =
          event_traced env b r.engine r.distance r.store f r.counts error_event r.type (some r.file)
            r.lineno r.msg g chain near depth (omega arith) in
        let s0 : SameSettings g h = (
          ap (λ (k : Globals). k.statsd) same,
          ap (λ (k : Globals). k.socket.settings) same,
          ap (λ (k : Globals). k.settings) same,
        ) in
        let trace = numbered 0 ls in
        let q = subst IsReady (sym same) (logged-IsReady h.log g p) in
        let (k, called, q', s1) =
          calls_return env addr r.type r.file r.lineno r.msg trace small_type small_line
            (λ d. d.want_event error_event r.type r.msg) h (built b) h
            (wanted-IsCalled env r.type r.msg h) q in
        let x = event r.type (some r.file) r.lineno r.msg trace in
        let (j, ended, q'', s2) =
          elastic_event_returns (drivers env b) (elastic env b) x k q'
            (λ e. elastic-returns env b x k e q') in
        (j, ran ∙ continued _ called ∙ ended, q'', same_trans g k j (same_trans g h k s0 s1) s2)

    -- `apm_error_cb` in every build, with PHP 7.0 and whatever the system answers: where the
    -- chain of the engine's frames ends at a distance below the fuel, which is more than 127; where the
    -- error's type and line are the engine's and the address reader gives 32 bits; and where the request
    -- data is sound, the depth of dumps limited to 127 at most, and StatsD has its address and a short
    -- prefix and the socket driver its list if they are enabled: the error is handled to its end, the
    -- callback that was there before is called last, all of this holds of the globals again, and the
    -- settings and the part of StatsD are what they were.
    pub apm_error_cb_returns :
        (r : Raised) (g : Globals)
        → IsRaised f r
        → IsReady g
        → (h : Globals) × (error_cb r g
            ≡ some (tt, record h { log = old_error_cb_called r.type r.msg r.lineno ∷ h.log }))
          × IsReady h
          × SameSettings g h
    unfolding apm_error_cb
    apm_error_cb_returns r g raised p = elim (Bool-cases g.settings.event_enabled) [
      | inl on ↦
          let (h, ran, q, same) = event_returns r g raised p in
          (h, continued _ (run_true _ _ (pure tt) g on ∙ ran), q, same)
      | inr off ↦ (g, continued _ (run_false _ _ (pure tt) g off), p, (refl, refl, refl))
    ]

    -- A request's errors, one after the other.
    pub error_cbs-Continues :
        (rs : List Raised) (g : Globals)
        → All (IsRaised f) rs
        → IsReady g
        → Continues (error_cbs rs) g
    unfolding error_cbs
    error_cbs-Continues [] g raised p = (g, refl, p, (refl, refl, refl))
    error_cbs-Continues (r ∷ rs) g (raised, rest) p =
        let (h, ran, q, s1) = apm_error_cb_returns r g raised p in
        let (k, ran', q', s2) = error_cbs-Continues rs _ rest (logged-IsReady _ h q) in
        (k, continued (λ u. error_cbs rs) ran ∙ ran', q', same_trans g h k s1 s2)
