-- ===== src/Socket/Connect.antt =====
-- driver_socket.c, the first part of `apm_driver_socket_rshutdown`: the path is cut by `strtok`, and
-- each of its parts is a target to connect to. A part with an unknown prefix is passed over.
use php_apm.Common.{
  ℕ, zero, suc, ◌+◌, ltb, ◌==◌, if◌then◌else◌, Bytes, codes, starts_with, length, drop, Option,
  none, some, List, [], ◌∷◌, ◌++◌,
}
use php_apm.World.{opened, closed, connected, getaddrinfo, freeaddrinfo, Env}
use php_apm.Globals.{Run, pure, fault, ◌>>=◌, ◌>>◌, get, emit, sprintf}

-- MAX_SOCKETS
abbrev pub max_sockets : ℕ
max_sockets = 10

abbrev pub skip_bars : Bytes → Bytes
skip_bars [] = []
skip_bars (c ∷ s) = let rest = skip_bars s in if c == b'|' then rest else c ∷ s

-- The text before the first `c`, and what stands behind it, if there is one.
abbrev pub before : ℕ → Bytes → Bytes
before b [] = []
before b (c ∷ s) = let rest = before b s in if c == b then [] else c ∷ rest

abbrev pub behind : ℕ → Bytes → Option Bytes
behind b [] = none
behind b (c ∷ s) = let rest = behind b s in if c == b then some s else rest

abbrev pub or_empty : Option Bytes → Bytes
or_empty none = []
or_empty (some s) = s

-- `strtok` at what is left of the path: the next part, and what is left then
abbrev pub first_part : Bytes → Option (Bytes × Bytes)
first_part [] = none
first_part (c ∷ s) = some (before b'|' (c ∷ s), or_empty (behind b'|' (c ∷ s)))

unfoldable pub strtok : Bytes → Option (Bytes × Bytes)
strtok s = first_part (skip_bars s)

-- What a round of the loop does: `break`, or go on with a new connection or without one.
pub data Round : Type 0 where
  stop : Round
  go_on : Option ℕ → Round

abbrev pub joined : List ℕ → Option ℕ → List ℕ
joined sds none = sds
joined sds (some sd) = sds ++ sd ∷ []

abbrev pub in_round : List ℕ → (Option ℕ → Run (List ℕ)) → Round → Run (List ℕ)
in_round sds next stop = pure sds
in_round sds next (go_on o) = next o

module _ (env : Env) where
  -- `connect`, or `close` if that fails
  unfoldable pub attach : ℕ → Bytes → Run (Option ℕ)
  attach sd address g =
      let done = env.connect g.log sd address in
      some (
        if done then some sd else none,
        record g { log = (if done then connected sd address else closed sd) ∷ g.log },
      )

  abbrev pub connect_path : Bytes → Option ℕ → Run Round
  connect_path path none = pure stop
  connect_path path (some sd) = do
    emit (opened sd)
    sun_path ← sprintf env.sun_path_size path
    r ← attach sd sun_path
    pure (go_on r)

  -- `file:`
  unfoldable pub connect_file : Bytes → Run Round
  unfolding attach
  connect_file path g = connect_path path (env.socket g.log) g

  abbrev pub connect_found : Bytes → Option ℕ → Run Round
  connect_found address none = pure stop
  connect_found address (some sd) = do
    emit (opened sd)
    r ← attach sd address
    emit freeaddrinfo
    pure (go_on r)

  abbrev pub connect_resolved : Bytes → Run Round
  connect_resolved address g = connect_found address (env.socket g.log) g

  abbrev pub connect_host : (host port : Bytes) → Run Round
  connect_host host port = do
    g ← get
    emit (getaddrinfo host port)
    if env.resolves g.log host port then connect_resolved (host ++ codes ":" ++ port) else pure stop

  -- `tcp:`, where `host` has 1024 bytes
  abbrev pub connect_port : Bytes → Option Bytes → Run Round
  connect_port path none = pure stop
  connect_port path (some port) = do host ← sprintf 1024 (before b':' path); connect_host host port

  unfoldable pub connect_tcp : Bytes → Run Round
  unfolding attach
  connect_tcp path = connect_port path (behind b':' path)

  unfoldable pub connect_one : Bytes → Run Round
  unfolding connect_file connect_tcp
  connect_one path =
      if starts_with (codes "file:") path
      then connect_file (drop 5 path)
      else if starts_with (codes "tcp:") path
      then connect_tcp (drop 4 path)
      else pure (go_on none)

  -- a round of the loop, at what `strtok` gave
  unfoldable pub connect_step :
      (next : List ℕ → Bytes → Run (List ℕ)) → List ℕ → Option (Bytes × Bytes) → Run (List ℕ)
  unfolding connect_one
  connect_step next sds none = pure sds
  connect_step next sds (some (path, rest)) =
      if ltb (length sds) max_sockets
      then connect_one path >>= in_round sds (λ o. next (joined sds o) rest)
      else pure sds

  -- The loop, from the connections `sds` and what is left of the path. A round takes at least a byte
  -- of the path, so that its length is enough fuel.
  unfoldable pub connect_loop : ℕ → List ℕ → Bytes → Run (List ℕ)
  unfolding connect_step strtok
  connect_loop zero sds rest = fault
  connect_loop (suc f) sds rest = connect_step (connect_loop f) sds (strtok rest)

  unfoldable pub connect_all : Bytes → Run (List ℕ)
  unfolding connect_loop
  connect_all path = connect_loop (length path + 1) [] path
