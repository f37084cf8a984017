-- ===== src/Apm/Begins.antt =====
-- RINIT of a whole build, and the errors of the request that it begins (`PHP_RINIT_FUNCTION` and
-- `apm_error_cb` of apm.c).
mod Entry
use php_apm.Common.{
  ℕ, ◌^◌, ◌<◌, ◌≤◌, Bool, true, false, if◌then◌else◌, Bytes, some, List, [], ◌∷◌, ◌≡◌, refl, sym,
  subst, ap, ◌∙◌, All, arith, Bool-cases, inl, inr, or_else, pos_part,
}
use php_apm.World.{Env}
use php_apm.Globals.{StatsdState, SocketState, Settings, Globals, success, pure, ◌>>=◌}
use php_apm.Globals.Runs.{continued, if_true, run_true, run_false}
use php_apm.Globals.Owners.{Owner, of_sqlite3, of_mysql, of_statsd, of_socket}
use php_apm.Request.{empty_request_data}
use php_apm.Request.Extract.{IsSound}
use php_apm.Driver.{create}
use php_apm.Sqlite3
use php_apm.Mysql
use php_apm.Statsd
use php_apm.Socket
use php_apm.Socket.Shutdown
use php_apm.Apm.{until_failure, prepared, install, rinit}
use php_apm.Apm.Drivers.{Build, built, driver_of, all_drivers, drivers, elastic}
use php_apm.Apm.Ready.{HasAddress, IsReady, SameSettings, same_trans}
use php_apm.Apm.Returns.{Raised, IsRaised, error_cbs, error_cbs-Continues}
use php_apm.Apm.Begins.Entry.{Awaits, rinit-HasLast, listed, Awaits-same, built-Awaits}

-- What MINIT and the settings give the requests.
pub record IsStarted (b : Build) (g : Globals) : Type 0 where
  pub address : g.statsd.settings.enabled ≡ true → HasAddress g.statsd
  pub linked : g.socket.settings.enabled ≡ true → b.driver_socket ≡ true
  pub depth : pos_part g.settings.dump_max_depth ≤ 127

record IsBeginning (g0 : Globals) (os : List Owner) (g : Globals) : Type 0 where
  same : SameSettings g0 g
  sound : IsSound g.request_data
  address : g.statsd.settings.enabled ≡ true → HasAddress g.statsd
  depth : pos_part g.settings.dump_max_depth ≤ 127
  last : Awaits os g

-- A driver's RINIT, or the step over a driver that is not enabled.
driver_begins :
    (env : Env) (g0 : Globals) (o : Owner) (os : List Owner) (g : Globals)
    → IsBeginning g0 (o ∷ os) g
    → (h : Globals) × ((driver_of env o).rinit g ≡ some (success, h)) × IsBeginning g0 os h
unfolding driver_of Sqlite3.rinit Mysql.rinit Statsd.rinit Shutdown.rinit Socket.rinit
driver_begins env g0 of_sqlite3 os g p = (
  _,
  refl,
  record {
    same = p.same;
    sound = p.sound;
    address = p.address;
    depth = p.depth;
    last = Awaits-same os g _ refl p.last;
  },
)
driver_begins env g0 of_mysql os g p = (
  _,
  refl,
  record {
    same = p.same;
    sound = p.sound;
    address = p.address;
    depth = p.depth;
    last = Awaits-same os g _ refl p.last;
  },
)
driver_begins env g0 of_statsd os g p = (
  g,
  refl,
  record { same = p.same; sound = p.sound; address = p.address; depth = p.depth; last = p.last },
)
driver_begins env g0 of_socket os g p = (
  record g { socket = Socket.rinit g.socket },
  refl,
  record {
    same = p.same;
    sound = p.sound;
    address = p.address;
    depth = p.depth;
    last = listed os (record g { socket = Socket.rinit g.socket }) (λ on. rinit-HasLast g.socket);
  },
)

driver_left :
    (env : Env) (g0 : Globals) (o : Owner) (os : List Owner) (g : Globals)
    → (driver_of env o).is_enabled g ≡ false
    → IsBeginning g0 (o ∷ os) g
    → IsBeginning g0 os g
unfolding driver_of create
driver_left env g0 of_sqlite3 os g off p = record {
  same = p.same;
  sound = p.sound;
  address = p.address;
  depth = p.depth;
  last = p.last;
}
driver_left env g0 of_mysql os g off p = record {
  same = p.same;
  sound = p.sound;
  address = p.address;
  depth = p.depth;
  last = p.last;
}
driver_left env g0 of_statsd os g off p = record {
  same = p.same;
  sound = p.sound;
  address = p.address;
  depth = p.depth;
  last = p.last;
}
driver_left env g0 of_socket os g off p = record {
  same = p.same;
  sound = p.sound;
  address = p.address;
  depth = p.depth;
  last = listed os g (λ on. cc (on, off));
}

all_begin :
    (env : Env) (g0 : Globals) (os : List Owner) (g : Globals)
    → IsBeginning g0 os g
    → (h : Globals) × (until_failure (λ d. d.is_enabled) (λ d. d.rinit) (all_drivers env os) g
        ≡ some (success, h))
      × IsBeginning g0 [] h
unfolding until_failure
all_begin env g0 [] g p = (g, refl, p)
all_begin env g0 (o ∷ os) g p = elim (Bool-cases ((driver_of env o).is_enabled g)) [
  | inl on ↦
      let (k, e, q) = driver_begins env g0 o os g p in
      let (h, e', r) = all_begin env g0 os k q in
      (h, continued _ (run_true _ (driver_of env o).rinit (pure success) g on ∙ e) ∙ e', r)
  | inr off ↦
      let (h, e', r) = all_begin env g0 os g (driver_left env g0 o os g off p) in
      (h, continued _ (run_false _ (driver_of env o).rinit (pure success) g off) ∙ e', r)
]

empty_request_data-IsSound : IsSound empty_request_data
empty_request_data-IsSound = ground arith

begins_as :
    (b : Build) (g h : Globals)
    → IsStarted b g
    → h.request_data ≡ empty_request_data
    → h.statsd ≡ g.statsd
    → h.socket ≡ g.socket
    → h.settings ≡ g.settings
    → IsBeginning g (built b) h
begins_as b g h p unread statsd socket settings = record {
  same = (statsd, ap (λ (s : SocketState). s.settings) socket, settings);
  sound = subst IsSound (sym unread) empty_request_data-IsSound;
  address =
      subst (λ (s : StatsdState). s.settings.enabled ≡ true → HasAddress s) (sym statsd) p.address;
  depth = subst (λ (s : Settings). pos_part s.dump_max_depth ≤ 127) (sym settings) p.depth;
  last = Awaits-same (built b) g h socket (built-Awaits b g p.linked);
}

either-IsBeginning :
    (c : Bool) (g0 : Globals) (os : List Owner) (g h : Globals)
    → IsBeginning g0 os g
    → IsBeginning g0 os h
    → IsBeginning g0 os (if c then g else h)
either-IsBeginning true g0 os g h p q = p
either-IsBeginning false g0 os g h p q = q

prepared-IsBeginning :
    (env : Env) (b : Build) (g : Globals)
    → IsStarted b g
    → IsBeginning g (built b) (prepared (drivers env b) (elastic env b) env g)
unfolding prepared
prepared-IsBeginning env b g p =
    either-IsBeginning g.settings.event_enabled g (built b) _ _
      (begins_as b g _ p refl refl refl refl) (begins_as b g _ p refl refl refl refl)

-- RINIT succeeds and leaves the globals ready for the request's errors.
rinit-IsReady :
    (env : Env) (b : Build) (g : Globals)
    → g.settings.enabled ≡ true
    → IsStarted b g
    → (h : Globals) × (rinit (drivers env b) (elastic env b) env g ≡ some (success, h))
      × IsReady h
      × SameSettings g h
unfolding rinit drivers
rinit-IsReady env b g on p =
    let start = prepared (drivers env b) (elastic env b) env g in
    let (k, ran, q) = all_begin env g (built b) start (prepared-IsBeginning env b g p) in
    (
      install (drivers env b) (elastic env b) k,
      if_true _ _ _ on ∙ continued _ ran,
      record { sound = q.sound; address = q.address; last = q.last; depth = q.depth },
      q.same,
    )

-- The errors of a request in any build, with PHP 7.0 and whatever the system answers: where
-- the module is enabled, the depth of dumps is limited to 127 at most and the fuel is more; where StatsD,
-- if it is enabled, has the address that its MINIT found and a prefix of at most 1000 bytes; where the
-- socket driver is not enabled unless it was built; where the address reader gives 32 bits; and where for
-- each error the chain of the engine's frames ends at a distance below the fuel, and its type and line
-- are the engine's: RINIT and then the callback for each error, however many there are, return, and leave
-- the globals ready for another, with the settings and the part of StatsD as they were.
pub request_errors_handled :
    (env : Env) (b : Build) (f : ℕ) (rs : List Raised) (g : Globals)
    → ((s : Bytes) → or_else (env.inet_pton s) 0 < 2 ^ 32)
    → 127 < f
    → g.settings.enabled ≡ true
    → IsStarted b g
    → All (IsRaised f) rs
    → (h : Globals) × ((rinit (drivers env b) (elastic env b) env >>= λ s. error_cbs env b f rs) g
        ≡ some (tt, h))
      × IsReady h
      × SameSettings g h
request_errors_handled env b f rs g addr fuel on p raised =
    let (k, ran, q, s1) = rinit-IsReady env b g on p in
    let (h, ran', r, s2) = error_cbs-Continues env b f addr fuel rs k raised q in
    (h, continued (λ s. error_cbs env b f rs) ran ∙ ran', r, same_trans g k h s1 s2)
