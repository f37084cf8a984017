-- ===== src/Apm/Ready.antt =====
-- The calls of a build's drivers for an event, and what they ask of the globals.
use php_apm.Common.{
  ℕ, ◌^◌, ◌<◌, ◌≤◌, Bool, true, if◌then◌else◌, Bytes, c_string, length, Option, none, some, List,
  [], ◌∷◌, ◌≡◌, refl, sym, subst, ap, ◌∙◌, arith, pos_part, Bool-cases, inl, inr, or_else,
}
use php_apm.World.{Env}
use php_apm.Globals.{
  Settings, DriverSettings, StatsdState, SocketState, EventArgs, Ptr, EventEntry, Cell, next_cell,
  Globals,
}
use php_apm.Globals.Runs.{continued, if_true, if_false}
use php_apm.Globals.Owners.{Owner, of_sqlite3, of_mysql, of_statsd, of_socket}
use php_apm.Request.Extract.{IsSound}
use php_apm.Driver.{Driver}
use php_apm.Sqlite3.Returns.{process_event-Returns}
use php_apm.Mysql
use php_apm.Statsd.Packets.{process_event_sends}
use php_apm.Socket
use php_apm.Socket.{deref, link}
use php_apm.Socket.Shutdown
use php_apm.Apm.Drivers.{driver_of, all_drivers}
use php_apm.Apm.Composed.{driver_of-KeepsToItself}
use php_apm.Apm.Dispatch.{call_all, wanting, event}

-- The list of events has a last entry, below the addresses that are still unused.
abbrev pub HasLast : SocketState → Type 0
HasLast s =
    (cell : Cell) × (p : Ptr) × (e : EventEntry) × (s.last_event ≡ some cell)
    × (deref s cell ≡ some p)
    × (s.heap p ≡ some e)
    × (p < s.fresh)

abbrev pub HasAddress : StatsdState → Type 0
HasAddress s = (s.servinfo ≡ true) × (length s.prefix ≤ 1000)

-- What the build asks of the globals to handle an error to its end.
pub record IsReady (g : Globals) : Type 0 where
  pub sound : IsSound g.request_data
  pub address : g.statsd.settings.enabled ≡ true → HasAddress g.statsd
  pub last : g.socket.settings.enabled ≡ true → HasLast g.socket
  pub depth : pos_part g.settings.dump_max_depth ≤ 127

-- The drivers that ask something of the globals are called only where they are enabled.
abbrev pub IsCalled : Owner → Globals → Type 0
IsCalled of_sqlite3 g = Unit
IsCalled of_mysql g = Unit
IsCalled of_statsd g = g.statsd.settings.enabled ≡ true
IsCalled of_socket g = g.socket.settings.enabled ≡ true

-- What no event changes: the settings, and the part of StatsD.
abbrev pub SameSettings : Globals → Globals → Type 0
SameSettings g h =
    (h.statsd ≡ g.statsd) × (h.socket.settings ≡ g.socket.settings) × (h.settings ≡ g.settings)

pub same_trans : (g k h : Globals) → SameSettings g k → SameSettings k h → SameSettings g h
same_trans g k h (s1, s2, s3) (t1, t2, t3) = (t1 ∙ s1, t2 ∙ s2, t3 ∙ s3)

still-IsCalled : (o : Owner) (g h : Globals) → SameSettings g h → IsCalled o g → IsCalled o h
still-IsCalled of_sqlite3 g h same on = tt
still-IsCalled of_mysql g h same on = tt
still-IsCalled of_statsd g h (same, _, _) on =
    ap (λ (s : StatsdState). s.settings.enabled) same ∙ on
still-IsCalled of_socket g h (_, same, _) on = ap (λ (s : DriverSettings). s.enabled) same ∙ on

kept :
    (g h : Globals)
    → IsReady g
    → IsSound h.request_data
    → h.statsd ≡ g.statsd
    → h.socket ≡ g.socket
    → h.settings ≡ g.settings
    → IsReady h × SameSettings g h
kept g h p sound statsd socket settings = (
  record {
    sound = sound;
    address =
        subst (λ (s : StatsdState). s.settings.enabled ≡ true → HasAddress s) (sym statsd)
          p.address;
    last = subst (λ (s : SocketState). s.settings.enabled ≡ true → HasLast s) (sym socket) p.last;
    depth = subst (λ (s : Settings). pos_part s.dump_max_depth ≤ 127) (sym settings) p.depth;
  },
  (statsd, ap (λ (s : SocketState). s.settings) socket, settings),
)

link-HasLast :
    (s : SocketState) (p : Ptr) (e new : EventEntry) → p < s.fresh → HasLast (link p e new s)
unfolding link
link-HasLast s p e new below =
    (next_cell p, s.fresh, new, refl, ground arith, ground arith, omega arith)

module _ (env : Env) (addr : (s : Bytes) → or_else (env.inet_pton s) 0 < 2 ^ 32) (type : ℕ)
    (file : Bytes) (lineno : ℕ) (msg trace : Bytes) (small_type : type < 2 ^ 31)
    (small_line : lineno < 2 ^ 32) where
  abbrev x : EventArgs
  x = event type (some file) lineno msg trace

  abbrev entry : Bool → EventEntry
  entry store_stacktrace = record {
    type = type;
    error_filename = some file;
    error_lineno = lineno;
    msg = some msg;
    trace = if store_stacktrace then some (c_string trace) else none;
    next = 0;
  }

  entry_returns :
      (store_stacktrace : Bool) (s : SocketState)
      → HasLast s
      → (t : SocketState) × (Socket.process_event store_stacktrace x s ≡ some t)
        × HasLast t
        × (t.settings ≡ s.settings)
  unfolding Socket.process_event link
  entry_returns store_stacktrace s (cell, p, e, last, at, held, below) =
      let new = entry store_stacktrace in
      (link p e new s, ground arith, link-HasLast s p e new below, refl)

  socket_returns :
      (g : Globals)
      → HasLast g.socket
      → (t : SocketState) × (Shutdown.process_event x g ≡ some (tt, record g { socket = t }))
        × HasLast t
        × (t.settings ≡ g.socket.settings)
  unfolding Shutdown.process_event
  socket_returns g last =
      let (t, e, last', same) = entry_returns g.settings.store_stacktrace g.socket last in
      (
        t,
        ap
            (λ (r : Option SocketState). elim r as (λ _. Option (Unit {0} × Globals)) [
              | none ↦ none
              | some s ↦ some (tt, record g { socket = s })
            ])
            e,
        last',
        same,
      )

  -- A driver's call, which leaves the globals ready for the next one.
  driver_returns :
      (o : Owner) (g : Globals)
      → IsReady g
      → IsCalled o g
      → (h : Globals) × ((driver_of env o).process_event x g ≡ some (tt, h))
        × IsReady h
        × SameSettings g h
  unfolding driver_of
  driver_returns of_sqlite3 g p on =
      let (u, h, e, _, q) = process_event-Returns env x g p.sound in
      let same = (driver_of-KeepsToItself env of_sqlite3).process_event x g tt h e in
      let (r, s) =
        kept g h p q (ap (λ (k : Globals). k.statsd) same) (ap (λ (k : Globals). k.socket) same)
          (ap (λ (k : Globals). k.settings) same) in
      (h, e, r, s)
  driver_returns of_mysql g p on =
      let (u, h, e, _, q) =
        Mysql.Returns.process_event-Returns env x addr (small_type, small_line) g p.sound in
      let same = (driver_of-KeepsToItself env of_mysql).process_event x g tt h e in
      let (r, s) =
        kept g h p q (ap (λ (k : Globals). k.statsd) same) (ap (λ (k : Globals). k.socket) same)
          (ap (λ (k : Globals). k.settings) same) in
      (h, e, r, s)
  driver_returns of_statsd g p on =
      let (ready, short) = p.address on in
      (
        _,
        process_event_sends env g x ready short,
        record { sound = p.sound; address = p.address; last = p.last; depth = p.depth },
        (refl, refl, refl),
      )
  driver_returns of_socket g p on =
      let (t, e, last, same) = socket_returns g (p.last on) in
      (
        record g { socket = t },
        e,
        record { sound = p.sound; address = p.address; last = λ _. last; depth = p.depth },
        (refl, same, refl),
      )

  -- The calls of drivers of which those that are called are enabled.
  pub calls_return :
      (wants : Driver → Globals → Bool) (k : Globals) (os : List Owner) (g : Globals)
      → ((o : Owner) → wants (driver_of env o) k ≡ true → IsCalled o g)
      → IsReady g
      → (h : Globals) × (call_all (λ d. d.process_event x) (wanting wants k (all_drivers env os)) g
          ≡ some (tt, h))
        × IsReady h
        × SameSettings g h
  unfolding call_all wanting
  calls_return wants k [] g called p = (g, refl, p, (refl, refl, refl))
  calls_return wants k (o ∷ os) g called p =
      let calls = call_all (λ d. d.process_event x) in
      let rest = wanting wants k (all_drivers env os) in
      elim (Bool-cases (wants (driver_of env o) k)) [
        | inl on ↦
            let (j, e, q, (s1, s2, s3)) = driver_returns o g p (called o on) in
            let (h, e', r, (t1, t2, t3)) =
              calls_return wants k os j
                (λ o' on'. still-IsCalled o' g j (s1, s2, s3) (called o' on')) q in
            (
              h,
              ap (λ (l : List Driver). call_all (λ d. d.process_event x) l g) (if_true _ _ _ on)
                  ∙ continued (λ u. call_all (λ d. d.process_event x) rest) e
                  ∙ e',
              r,
              (t1 ∙ s1, t2 ∙ s2, t3 ∙ s3),
            )
        | inr off ↦
            let (h, e', r, same) = calls_return wants k os g called p in
            (
              h,
              ap (λ (l : List Driver). call_all (λ d. d.process_event x) l g) (if_false _ _ _ off)
                  ∙ e',
              r,
              same,
            )
      ]
