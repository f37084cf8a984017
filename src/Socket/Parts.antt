-- ===== src/Socket/Parts.antt =====
-- The loop of driver_socket.c over the parts of a path, against a list of the parts.
use php_apm.Common.{
  ℕ, zero, suc, ◌+◌, ◌<◌, ltb, if◌then◌else◌, Bytes, length, length-append, none, some, List, [],
  ◌∷◌, ◌++◌, ◌≡◌, ◌≢◌, refl, sym, ap, ◌∙◌, All, append-nil, fun_ext, arith,
}
use php_apm.World.{Env}
use php_apm.Globals.{Run, pure, ◌>>=◌}
use php_apm.Socket.Connect.{
  skip_bars, before, behind, or_empty, first_part, strtok, connect_one, in_round, joined,
  max_sockets, connect_step, connect_loop, connect_all,
}

-- A part of a path: it is not empty, and has no bar.
abbrev pub IsPart : Bytes → Type 0
IsPart p = (0 < length p) × All (λ c. c ≢ b'|') p

abbrev pub render : List Bytes → Bytes
render [] = []
render (p ∷ []) = p
render (p ∷ q ∷ ps) = p ++ b'|' ∷ render (q ∷ ps)

before-end : (p : Bytes) → All (λ c. c ≢ b'|') p → (before b'|' p ≡ p) × (behind b'|' p ≡ none)
before-end [] h = (refl, refl)
before-end (c ∷ p) (ne, h) = let ih = before-end p h in ground arith

before-bar :
    (p r : Bytes)
    → All (λ c. c ≢ b'|') p
    → (before b'|' (p ++ b'|' ∷ r) ≡ p) × (behind b'|' (p ++ b'|' ∷ r) ≡ some r)
before-bar [] r h = (refl, refl)
before-bar (c ∷ p) r (ne, h) = let ih = before-bar p r h in ground arith

skip_bars-part : (p r : Bytes) → IsPart p → skip_bars (p ++ r) ≡ p ++ r
skip_bars-part [] r h = absurd (omega arith)
skip_bars-part (c ∷ p) r (pos, (ne, h)) = ground arith

first_part-cons :
    (s : Bytes) → 0 < length s → first_part s ≡ some (before b'|' s, or_empty (behind b'|' s))
first_part-cons [] h = absurd (omega arith)
first_part-cons (c ∷ s) h = refl

strtok-last : (p : Bytes) → IsPart p → strtok p ≡ some (p, [])
unfolding strtok
strtok-last p h =
    let same : skip_bars p ≡ p = rw (sym (append-nil p)) (skip_bars-part p [] h) in
    let (b, r) = before-end p h.1 in rw same (first_part-cons p h.0 ∙ rw (b, r) refl)

strtok-bar : (p r : Bytes) → IsPart p → strtok (p ++ b'|' ∷ r) ≡ some (p, r)
unfolding strtok
strtok-bar p r h =
    let (b, s) = before-bar p r h.1 in
    rw (skip_bars-part p (b'|' ∷ r) h)
      (first_part-cons (p ++ b'|' ∷ r) (omega (arith, length-append p (b'|' ∷ r))) ∙ rw (b, s) refl)

module _ (env : Env) where
  -- The connections to a list of targets.
  unfoldable pub connect_each : List ℕ → List Bytes → Run (List ℕ)
  connect_each sds [] = pure sds
  connect_each sds (p ∷ ps) =
      if ltb (length sds) max_sockets
      then connect_one env p >>= in_round sds (λ o. connect_each (joined sds o) ps)
      else pure sds

  -- A round is the same whatever the loop does in the end, if it does the same from there on.
  step-same :
      (next : List ℕ → Bytes → Run (List ℕ)) (p r : Bytes) (ps : List Bytes) (sds : List ℕ)
      → ((sds' : List ℕ) → next sds' r ≡ connect_each sds' ps)
      → connect_step env next sds (some (p, r)) ≡ connect_each sds (p ∷ ps)
  unfolding connect_step connect_each
  step-same next p r ps sds same =
      ap
        (λ (n : List ℕ → Run (List ℕ)).
          if ltb (length sds) max_sockets
          then connect_one env p >>= in_round sds (λ o. n (joined sds o))
          else pure sds)
        (fun_ext same)

  loop-empty : (f : ℕ) (sds : List ℕ) → 0 < f → connect_loop env f sds [] ≡ connect_each sds []
  unfolding connect_loop connect_each
  loop-empty zero sds h = absurd (omega arith)
  loop-empty (suc f) sds h = refl

  loop-render :
      (f : ℕ) (ps : List Bytes) (sds : List ℕ)
      → All IsPart ps
      → length (render ps) < f
      → connect_loop env f sds (render ps) ≡ connect_each sds ps
  unfolding connect_loop
  loop-render zero ps sds h fuel = absurd (omega arith)
  loop-render (suc f) [] sds h fuel = loop-empty (suc f) sds (omega arith)
  loop-render (suc f) (p ∷ []) sds (part, h) fuel = rw (strtok-last p part) (
      step-same (connect_loop env f) p [] [] sds
        λ sds'. loop-empty f sds' (omega (arith, part.0, fuel)))
  loop-render (suc f) (p ∷ q ∷ ps) sds (part, h) fuel = rw (strtok-bar p (render (q ∷ ps)) part) (
      step-same (connect_loop env f) p (render (q ∷ ps)) (q ∷ ps) sds λ sds'.
        loop-render f (q ∷ ps) sds' h
          (omega (arith, length-append p (b'|' ∷ render (q ∷ ps)), fuel)))

-- The loop over `strtok` connects to the parts of a path in turn: on parts that are joined by bars it
-- is the iteration over the list of them, each tried once, until one ends the loop or MAX_SOCKETS
-- connections are there.
pub connect_all-render :
    (env : Env) (ps : List Bytes)
    → All IsPart ps
    → connect_all env (render ps) ≡ connect_each env [] ps
unfolding connect_all
connect_all-render env ps h = loop-render env (length (render ps) + 1) ps [] h (omega arith)
