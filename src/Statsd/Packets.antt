-- ===== src/Statsd/Packets.antt =====
-- The packets and the setup of driver_statsd.c.
use php_apm.Common.{
  ℕ, ◌+◌, ◌^◌, ◌≤◌, ◌<◌, true, false, if◌then◌else◌, ◌&&◌, decimal, refl, ltb, Bytes, length,
  length-append, length-decimal-le, length-decimal-gt, is_some, Option, none, some, ◌∷◌, ◌≡◌, arith,
  Bool-cases, inl, inr,
}
use php_apm.World.{getaddrinfo, opened, sent, closed, Log, Env}
use php_apm.Globals.{EventArgs, Globals, Status, success}
use php_apm.Statsd.{type_string, event_data, process_event, minit}

length-type_string : (t : ℕ) → length (type_string t) ≤ 17
unfolding type_string
length-type_string t = ground arith

-- The calls of one packet.
abbrev pub packet : Option ℕ → Bytes → Log → Log
packet none data_text l = l
packet (some fd) data_text l = closed fd ∷ sent fd data_text ∷ opened fd ∷ l

event_data_fits :
    (prefix : Bytes) (t : ℕ) → length prefix ≤ 1000 → length (event_data prefix t) + 1 ≤ 1024
unfolding event_data
event_data_fits prefix t h = simp length-append (omega (arith, length-type_string t))

-- With an address and a prefix of at most 1000 bytes, an event is sent as one packet that fits into
-- the buffer, on a socket that is opened for it and closed again; without a socket nothing is done.
pub process_event_sends :
    (env : Env) (g : Globals) (x : EventArgs)
    → g.statsd.servinfo ≡ true
    → length g.statsd.prefix ≤ 1000
    → process_event env x g
      ≡ some (
        tt,
        record g { log = packet (env.socket g.log) (event_data g.statsd.prefix x.type) g.log },
      )
unfolding process_event
process_event_sends env g x ready h =
    let fits = event_data_fits g.statsd.prefix x.type h in ground arith

-- With the module and the driver enabled, `minit` returns just where the port has at most seven
-- digits: a larger one overruns the buffer that it is printed into.
pub minit_ports :
    (env : Env) (g : Globals)
    → g.settings.enabled ≡ true
    → g.statsd.settings.enabled ≡ true
    → is_some (minit env g) ≡ ltb g.statsd.port (10 ^ 7)
unfolding minit
minit_ports env g on enabled = elim (Bool-cases (ltb g.statsd.port (10 ^ 7))) [
  | inl small ↦ let fits = length-decimal-le 6 g.statsd.port (ground arith) in ground arith
  | inr large ↦ let overruns = length-decimal-gt 7 g.statsd.port (ground arith) in ground arith
]

-- Where `minit` returns and the module is enabled, a driver that is still enabled has its address.
pub minit_ready :
    (env : Env) (g h : Globals) (s : Status)
    → g.settings.enabled ≡ true
    → minit env g ≡ some (s, h)
    → h.statsd.settings.enabled ≡ true
    → h.statsd.servinfo ≡ true
unfolding minit
minit_ready env g h s on e enabled = ground arith

-- Where the port has at most seven digits, `minit` returns success.
pub minit_succeeds :
    (env : Env) (g : Globals)
    → g.statsd.port < 10 ^ 7
    → (h : Globals) × (minit env g ≡ some (success, h)) × (h.statsd.port ≡ g.statsd.port)
unfolding minit
minit_succeeds env g small =
    let fits = length-decimal-le 6 g.statsd.port small in
    elim (Bool-cases (g.settings.enabled && g.statsd.settings.enabled)) [
      | inl on ↦
          let called : Globals = record g {
            log = getaddrinfo g.statsd.host (decimal g.statsd.port) ∷ g.log;
          } in
          (
            record called {
              statsd =
                  if env.resolves g.log g.statsd.host (decimal g.statsd.port)
                  then record called.statsd { servinfo = true }
                  else record called.statsd {
                    settings = record called.statsd.settings { enabled = false };
                  };
            },
            ground arith,
            ground arith,
          )
      | inr off ↦ (g, ground arith, refl)
    ]
