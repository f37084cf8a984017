-- ===== src/Socket/Descriptors.antt =====
-- The descriptors that the report of driver_socket.c opens and closes.
use php_apm.Common.{
  ℕ, zero, suc, ◌+◌, ◌≤◌, ◌<◌, Bool, true, false, ltb, ◌==◌, if◌then◌else◌, Bytes, length,
  length-append, Option, none, some, List, [], ◌∷◌, ◌++◌, ◌≡◌, refl, sym, ap, subst, codes, drop,
  starts_with, ◌∙◌, arith, Bool-cases, inl, inr,
}
use php_apm.World.{opened, closed, sent, Log, Env}
use php_apm.Globals.{Globals, Run, sprintf, pure, ◌>>=◌}
use php_apm.Globals.Runs.{Keeps, bound, sprintf_lem, pure_inj, then_case, else_case}
use php_apm.Socket.Connect.{
  Round, stop, go_on, attach, connect_path, connect_found, connect_host, connect_port, connect_file,
  connect_tcp, before, connect_one, in_round, joined, connect_step, connect_loop, connect_all,
  max_sockets, strtok,
}

-- How often a descriptor was opened and closed, and how often it stands in a list.
unfoldable pub opens : ℕ → Log → ℕ
opens fd [] = 0
opens fd (opened n ∷ l) = if n == fd then suc (opens fd l) else opens fd l
opens fd (_ ∷ l) = opens fd l

unfoldable pub closes : ℕ → Log → ℕ
closes fd [] = 0
closes fd (closed n ∷ l) = if n == fd then suc (closes fd l) else closes fd l
closes fd (_ ∷ l) = closes fd l

unfoldable pub count : ℕ → List ℕ → ℕ
count fd [] = 0
count fd (n ∷ ns) = if n == fd then suc (count fd ns) else count fd ns

count-append : (fd : ℕ) (xs ys : List ℕ) → count fd (xs ++ ys) ≡ count fd xs + count fd ys
unfolding count
count-append fd [] ys = omega arith
count-append fd (x ∷ xs) ys = ground (arith, count-append fd xs ys)

-- From `l` to `l'`, what was opened is closed or among the descriptors `new`.
abbrev pub IsHeld : Log → Log → List ℕ → Type 0
IsHeld l l' new = (fd : ℕ) → opens fd l' + closes fd l ≡ closes fd l' + opens fd l + count fd new

abbrev held : Round → List ℕ
held stop = []
held (go_on none) = []
held (go_on (some sd)) = sd ∷ []

-- What was sent, the latest first.
unfoldable pub sends : Log → List (ℕ × Bytes)
sends [] = []
sends (sent sd buf ∷ l) = (sd, buf) ∷ sends l
sends (_ ∷ l) = sends l

-- A run sends nothing, changes nothing but the log, and keeps open the descriptors that its result
-- names and no other.
abbrev pub Connected : Globals → List ℕ → Globals → Type 0
Connected g new h =
    (h ≡ record g { log = h.log }) × (sends h.log ≡ sends g.log) × IsHeld g.log h.log new

abbrev pub Connects : {A : Type 0} → (A → List ℕ) → Run A → Type 0
Connects {A} names m =
    (g : Globals) (a : A) (h : Globals) → m g ≡ some (a, h) → Connected g (names a) h

if-Connects :
    {A : Type 0} (names : A → List ℕ) (b : Bool) (m n : Run A)
    → Connects names m
    → Connects names n
    → Connects names (if b then m else n)
if-Connects names true m n p q = p
if-Connects names false m n p q = q

-- A first run that changes nothing does not matter.
kept-Connects :
    {A B : Type 0} (names : B → List ℕ) (m : Run A) (f : A → Run B)
    → Keeps m
    → ((a : A) → Connects names (f a))
    → Connects names (m >>= f)
kept-Connects names m f keeps rest g b h e =
    let (a, k, e1, e2) = bound {r = m g} {f = f} e in
    subst (λ x. Connected x (names b) h) (keeps g a k e1) (rest a k b h e2)

module _ (env : Env) where
  path-Connects : (path : Bytes) (sd : Option ℕ) → Connects held (connect_path env path sd)
  unfolding opens closes count attach sends
  path-Connects path none g a h e = (ground arith, ground arith, λ fd. ground arith)
  path-Connects path (some sd) g a h e = (ground arith, ground arith, λ fd. ground arith)

  found-Connects : (address : Bytes) (sd : Option ℕ) → Connects held (connect_found env address sd)
  unfolding opens closes count attach sends
  found-Connects address none g a h e = (ground arith, ground arith, λ fd. ground arith)
  found-Connects address (some sd) g a h e = (ground arith, ground arith, λ fd. ground arith)

  stop-Connects : Connects held (pure stop)
  unfolding count
  stop-Connects g a h e = (ground arith, ground arith, λ fd. ground arith)

  host-Connects : (host port : Bytes) → Connects held (connect_host env host port)
  unfolding opens closes sends
  host-Connects host port g a h e =
      let (same, quiet, holds) =
        if-Connects held (env.resolves g.log host port) _ (pure stop)
          (λ k. found-Connects (host ++ codes ":" ++ port) (env.socket k.log) k) stop-Connects _ a h
          e in
      (same, quiet, holds)

  port-Connects : (path : Bytes) (port : Option Bytes) → Connects held (connect_port env path port)
  port-Connects path none = stop-Connects
  port-Connects path (some port) =
      kept-Connects held (sprintf 1024 (before b':' path)) _
        (λ g s h e. (sprintf_lem _ _ s g h e).1) λ host. host-Connects host port

  one-Connects : (path : Bytes) → Connects held (connect_one env path)
  unfolding connect_one connect_file connect_tcp count
  one-Connects path =
      if-Connects held (starts_with (codes "file:") path) _ _
        (λ g. path-Connects (drop 5 path) (env.socket g.log) g)
        (if-Connects held (starts_with (codes "tcp:") path) _ _ (port-Connects (drop 4 path) _)
          λ g a h e. (ground arith, ground arith, λ fd. ground arith))

joined-count :
    (fd : ℕ) (sds : List ℕ) (o : Option ℕ)
    → count fd (joined sds o) ≡ count fd sds + count fd (held (go_on o))
unfolding count
joined-count fd sds none = omega arith
joined-count fd sds (some sd) = count-append fd sds (sd ∷ [])

length-joined : (sds : List ℕ) (o : Option ℕ) → length (joined sds o) ≤ length sds + 1
length-joined sds none = omega arith
length-joined sds (some sd) = omega (arith, length-append sds (sd ∷ []))

-- A round behind other rounds.
Connected-joined :
    (g k h : Globals) (sds : List ℕ) (o : Option ℕ)
    → Connected g sds k
    → Connected k (held (go_on o)) h
    → Connected g (joined sds o) h
Connected-joined g k h sds o (same, quiet, holds) (same', quiet', holds') = (
  same' ∙ ap {B = Globals} (λ (x : Globals). record x { log = h.log }) same,
  quiet' ∙ quiet,
  λ fd. omega (arith, holds fd, holds' fd, joined-count fd sds o),
)

Connected-nil :
    (g k h : Globals) (sds : List ℕ) → Connected g sds k → Connected k [] h → Connected g sds h
unfolding count
Connected-nil g k h sds (same, quiet, holds) (same', quiet', holds') = (
  same' ∙ ap {B = Globals} (λ (x : Globals). record x { log = h.log }) same,
  quiet' ∙ quiet,
  λ fd. omega (arith, holds fd, holds' fd),
)

module _ (env : Env) (g : Globals) where
  -- What a loop does from the connections `sds`, all of them made since `g`.
  abbrev Grows : (List ℕ → Bytes → Run (List ℕ)) → Type 0
  Grows next =
      (sds : List ℕ) (rest : Bytes) (k : Globals) (sds' : List ℕ) (h : Globals)
      → next sds rest k ≡ some (sds', h)
      → Connected g sds k
      → length sds ≤ max_sockets
      → Connected g sds' h × (length sds' ≤ max_sockets)

  -- The loop ends here.
  ended :
      (sds : List ℕ) (k : Globals) (sds' : List ℕ) (h : Globals)
      → pure sds k ≡ some (sds', h)
      → Connected g sds k
      → length sds ≤ max_sockets
      → Connected g sds' h × (length sds' ≤ max_sockets)
  ended sds k sds' h e now room =
      let (same, kept) = pure_inj sds sds' k h e in
      (
        subst (λ x. Connected g x h) (sym same) (subst (λ x. Connected g sds x) (sym kept) now),
        subst (λ x. length x ≤ max_sockets) (sym same) room,
      )

  round-Grows :
      (next : List ℕ → Bytes → Run (List ℕ)) (sds : List ℕ) (rest : Bytes) (k k' : Globals)
      (r : Round) (sds' : List ℕ) (h : Globals)
      → Grows next
      → in_round sds (λ o. next (joined sds o) rest) r k' ≡ some (sds', h)
      → Connected g sds k
      → Connected k (held r) k'
      → length sds < max_sockets
      → Connected g sds' h × (length sds' ≤ max_sockets)
  round-Grows next sds rest k k' stop sds' h grows e before_it now room =
      ended sds k' sds' h e (Connected-nil g k k' sds before_it now) (omega arith)
  round-Grows next sds rest k k' (go_on o) sds' h grows e before_it now room =
      grows (joined sds o) rest k' sds' h e (Connected-joined g k k' sds o before_it now)
        (omega (arith, length-joined sds o))

  step-Grows :
      (next : List ℕ → Bytes → Run (List ℕ)) (t : Option (Bytes × Bytes)) (sds : List ℕ)
      (k : Globals) (sds' : List ℕ) (h : Globals)
      → Grows next
      → connect_step env next sds t k ≡ some (sds', h)
      → Connected g sds k
      → length sds ≤ max_sockets
      → Connected g sds' h × (length sds' ≤ max_sockets)
  unfolding connect_step
  step-Grows next none sds k sds' h grows e now room = ended sds k sds' h e now room
  step-Grows next (some (path, rest)) sds k sds' h grows e now room =
      elim (Bool-cases (ltb (length sds) max_sockets)) [
        | inl less ↦
            let (r, k', e1, e2) =
              bound {r = connect_one env path k} {f = in_round sds (λ o. next (joined sds o) rest)}
                (then_case _ _ k e less) in
            round-Grows next sds rest k k' r sds' h grows e2 now (one-Connects env path k r k' e1)
              (ground arith)
        | inr full ↦ ended sds k sds' h (else_case _ _ k e full) now room
      ]

  loop-Grows : (f : ℕ) → Grows (connect_loop env f)
  unfolding connect_loop
  loop-Grows zero sds rest k sds' h e now room = cc
  loop-Grows (suc f) sds rest k sds' h e now room =
      step-Grows (connect_loop env f) (strtok rest) sds k sds' h (loop-Grows f) e now room

-- The connections that a path gives: at most MAX_SOCKETS; each descriptor among them is open once more
-- than before for each time it is there, any other as often as before; nothing was sent.
pub connect_all-Connected :
    (env : Env) (path : Bytes) (g : Globals) (sds : List ℕ) (h : Globals)
    → connect_all env path g ≡ some (sds, h)
    → Connected g sds h × (length sds ≤ max_sockets)
unfolding connect_all count
connect_all-Connected env path g sds h e =
    loop-Grows env g (length path + 1) [] path g sds h e (refl, refl, λ fd. omega arith)
      (omega arith)
