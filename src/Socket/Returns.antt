-- ===== src/Socket/Returns.antt =====
-- The connections of driver_socket.c to their end.
use php_apm.Common.{
  ℕ, zero, suc, ◌+◌, ◌≤◌, ◌<◌, Bool, true, false, ltb, if◌then◌else◌, Bytes, codes, length, drop,
  Option, none, some, List, [], ◌∷◌, ◌≡◌, refl, ◌∙◌, arith, starts_with,
}
use php_apm.World.{Env}
use php_apm.Globals.{Globals, Run, pure, ◌>>=◌, sprintf}
use php_apm.Globals.Runs.{continued, sprintf-fits}
use php_apm.Socket.Connect.{
  Round, stop, go_on, skip_bars, before, behind, or_empty, first_part, strtok, attach, connect_path,
  connect_found, connect_port, connect_file, connect_tcp, connect_one, in_round, joined,
  max_sockets, connect_step, connect_loop, connect_all,
}

length-skip_bars : (s : Bytes) → length (skip_bars s) ≤ length s
length-skip_bars [] = omega arith
length-skip_bars (c ∷ s) = ground (arith, length-skip_bars s)

length-before : (b : ℕ) (s : Bytes) → length (before b s) ≤ length s
length-before b [] = omega arith
length-before b (c ∷ s) = ground (arith, length-before b s)

length-behind : (b : ℕ) (s : Bytes) → length (or_empty (behind b s)) ≤ length s
length-behind b [] = omega arith
length-behind b (c ∷ s) = ground (arith, length-behind b s)

length-behind_cons : (b c : ℕ) (s : Bytes) → length (or_empty (behind b (c ∷ s))) ≤ length s
length-behind_cons b c s = ground (arith, length-behind b s)

length-drop : {A : Type 0} (n : ℕ) (xs : List A) → length (drop n xs) ≤ length xs
length-drop zero xs = omega arith
length-drop (suc n) [] = omega arith
length-drop (suc n) (x ∷ xs) = omega (arith, length-drop n xs)

-- What `strtok` gives is a part of what it is given, and what it leaves is shorter.
abbrev Shorter : Bytes → Option (Bytes × Bytes) → Type 0
Shorter s none = Unit
Shorter s (some (p, r)) = (length p ≤ length s) × (length r < length s)

first_part-Shorter : (s t : Bytes) → length s ≤ length t → Shorter t (first_part s)
first_part-Shorter [] t h = tt
first_part-Shorter (c ∷ s) t h =
    let a = length-before b'|' (c ∷ s) in
    let b = length-behind_cons b'|' c s in (omega (arith, a, h), omega (arith, b, h))

strtok-Shorter : (s : Bytes) → Shorter s (strtok s)
unfolding strtok
strtok-Shorter s = first_part-Shorter (skip_bars s) s (length-skip_bars s)

abbrev Returns : {A : Type 0} → Run A → Type 0
Returns {A} m = (g : Globals) → (a : A) × (h : Globals) × (m g ≡ some (a, h))

bind-Returns :
    {A B : Type 0} (m : Run A) (f : A → Run B)
    → Returns m
    → ((a : A) → Returns (f a))
    → Returns (m >>= f)
bind-Returns m f first rest g =
    let (a, h, e) = first g in let (b, k, e2) = rest a h in (b, k, continued f e ∙ e2)

if-Returns :
    {A : Type 0} (b : Bool) (m n : Run A) → Returns m → Returns n → Returns (if b then m else n)
if-Returns true m n p q = p
if-Returns false m n p q = q

module _ (env : Env) where
  path-Returns :
      (path : Bytes) (sd : Option ℕ)
      → length path + 1 ≤ env.sun_path_size
      → Returns (connect_path env path sd)
  unfolding attach
  path-Returns path none h g = (stop, g, refl)
  path-Returns path (some sd) h g = (_, _, continued _ (sprintf-fits env.sun_path_size path _ h))

  found-Returns : (address : Bytes) (sd : Option ℕ) → Returns (connect_found env address sd)
  unfolding attach
  found-Returns address none g = (stop, g, refl)
  found-Returns address (some sd) g = (_, _, refl)

  port-Returns :
      (path : Bytes) (port : Option Bytes)
      → length path < 1024
      → Returns (connect_port env path port)
  port-Returns path none h = λ g. (stop, g, refl)
  port-Returns path (some port) h =
      bind-Returns (sprintf 1024 (before b':' path)) _
        (λ g. (_, g, sprintf-fits 1024 _ g (omega (arith, length-before b':' path, h))))
        λ host g.
          if-Returns (env.resolves g.log host port) _ (pure stop)
            (λ k. found-Returns _ (env.socket k.log) k) (λ k. (stop, k, refl)) _

  one-Returns :
      (path : Bytes)
      → length path + 1 ≤ env.sun_path_size
      → length path < 1024
      → Returns (connect_one env path)
  unfolding connect_one connect_file connect_tcp
  one-Returns path file host =
      let shorter : length (drop 5 path) ≤ length path = length-drop 5 path in
      let short : length (drop 4 path) ≤ length path = length-drop 4 path in
      if-Returns (starts_with (codes "file:") path) _ _
        (λ g. path-Returns (drop 5 path) (env.socket g.log) (omega arith) g)
        (if-Returns (starts_with (codes "tcp:") path) _ _
          (port-Returns (drop 4 path) (behind b':' (drop 4 path)) (omega arith)) λ g. (_, g, refl))

  abbrev IsShort : Bytes → Type 0
  IsShort path = (length path + 1 ≤ env.sun_path_size) × (length path < 1024)

  round-Returns :
      (sds : List ℕ) (next : Option ℕ → Run (List ℕ)) (r : Round)
      → ((o : Option ℕ) → Returns (next o))
      → Returns (in_round sds next r)
  round-Returns sds next stop h = λ g. (sds, g, refl)
  round-Returns sds next (go_on o) h = h o

  step-Returns :
      (next : List ℕ → Bytes → Run (List ℕ)) (sds : List ℕ) (s : Bytes) (t : Option (Bytes × Bytes))
      → IsShort s
      → Shorter s t
      → ((r : Bytes) → length r < length s → (sds' : List ℕ) → Returns (next sds' r))
      → Returns (connect_step env next sds t)
  unfolding connect_step
  step-Returns next sds s none short shorter h = λ g. (sds, g, refl)
  step-Returns next sds s (some (p, r)) (file, host) (le, lt) h =
      if-Returns (ltb (length sds) max_sockets) _ (pure sds)
        (bind-Returns (connect_one env p) _ (one-Returns p (omega arith) (omega arith))
          λ round. round-Returns sds _ round λ o. h r lt (joined sds o))
        λ g. (sds, g, refl)

  loop-Returns :
      (f : ℕ) (sds : List ℕ) (s : Bytes)
      → IsShort s
      → length s < f
      → Returns (connect_loop env f sds s)
  unfolding connect_loop
  loop-Returns zero sds s short fuel = absurd (omega arith)
  loop-Returns (suc f) sds s (file, host) fuel =
      step-Returns (connect_loop env f) sds s (strtok s) (file, host) (strtok-Shorter s)
        λ r lt sds'. loop-Returns f sds' r (omega arith, omega arith) (omega arith)

-- The loop ends, with no overrun of its buffers, for every path that is shorter than both of them:
-- whatever the system answers, it has a result.
pub connect_all_returns :
    (env : Env) (path : Bytes) (g : Globals)
    → length path + 1 ≤ env.sun_path_size
    → length path < 1024
    → (sds : List ℕ) × (h : Globals) × (connect_all env path g ≡ some (sds, h))
unfolding connect_all
connect_all_returns env path g file host =
    loop-Returns env (length path + 1) [] path (file, host) (omega arith) g
