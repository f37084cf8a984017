-- ===== src/Backtrace/Buffer.antt =====
-- `apm_addslashes` of backtrace.c as it works in memory: a loop that reads bytes at `source` and writes
-- them at `target` into a buffer of a computed size.
use php_apm.Common.{
  ℕ, ◌+◌, ◌*◌, ◌≤◌, ◌||◌, ltb, ◌==◌, if◌then◌else◌, [], ◌∷◌, ◌++◌, ◌≡◌, refl, sym, ap, ◌∙◌, arith,
  Bytes, c_string, take, Option, none, some, length, length-append, append_assoc, append-nil,
  Bool-cases, inl, inr,
}
use php_apm.Globals.Runs.{if_true}
use php_apm.Backtrace.Slashes.{escape, apm_addslashes, length-apm_addslashes}

-- What stands between `new_str` and `target`. A write behind the buffer is undefined: `none`.
module _ (size : ℕ) where
  -- `*target++ = c`
  abbrev pub put : ℕ → Bytes → Option Bytes
  put c written = if ltb (length written) size then some (written ++ c ∷ []) else none

  infixl 5 ◌then_put◌
  abbrev ◌then_put◌ : Option Bytes → ℕ → Option Bytes
  o then_put c = elim o [ none ↦ none | some written ↦ put c written ]

  -- the `switch` of a round
  unfoldable pub copy_byte : ℕ → Bytes → Option Bytes
  copy_byte c written =
      if c == 0
      then some written then_put b'\\' then_put b'0'
      else if c == b'"' || c == b'\\'
      then some written then_put b'\\' then_put c
      else some written then_put c

  -- the loop over `source`
  unfoldable pub copy : Bytes → Bytes → Option Bytes
  unfolding copy_byte
  copy [] written = some written
  copy (c ∷ source) written = elim (copy_byte c written) [
    | none ↦ none
    | some written' ↦ copy source written'
  ]

-- `length ? length : (length = strlen(str))`; a length below 2^30, which `uint` and `int` hold, doubled too
abbrev pub used_length : (memory : Bytes) → ℕ → ℕ
used_length memory n = if n == 0 then length (c_string memory) else n

abbrev pub terminated : (size : ℕ) → Option Bytes → Option Bytes
terminated size none = none
terminated size (some written) = if ltb (length written) size then some written else none

-- from the allocation on, of `2 * n + 1` bytes
abbrev pub copied : Bytes → ℕ → Option Bytes
copied memory n = terminated (2 * n + 1) (copy (2 * n + 1) (take n memory) [])

-- `apm_addslashes`, on the memory at `str`; the result is the text before the final NUL
unfoldable pub addslashes_at : (memory : Bytes) → (length : ℕ) → Option Bytes
unfolding copy
addslashes_at memory n = copied memory (used_length memory n)

module _ (size : ℕ) where
  put-fits :
      (c : ℕ) (written : Bytes)
      → length written + 1 ≤ size
      → put size c written ≡ some (written ++ c ∷ [])
  put-fits c written h = ground arith

  put_two-fits :
      (a b : ℕ) (written : Bytes)
      → length written + 2 ≤ size
      → (elim (put size a written) [ none ↦ none | some written' ↦ put size b written' ])
        ≡ some (written ++ a ∷ b ∷ [])
  put_two-fits a b written h =
      ap (λ (o : Option Bytes). elim o [ none ↦ none | some written' ↦ put size b written' ])
        (put-fits a written (omega arith))
      ∙ put-fits b (written ++ a ∷ []) (omega (arith, h, length-append written (a ∷ [])))
      ∙ ap some (append_assoc written (a ∷ []) (b ∷ []))

  copy_byte-fits :
      (c : ℕ) (written : Bytes)
      → length written + length (escape c) ≤ size
      → copy_byte size c written ≡ some (written ++ escape c)
  unfolding copy_byte escape
  copy_byte-fits c written h = elim (Bool-cases (c == 0)) [
    | inl nul ↦ rw nul (put_two-fits b'\\' b'0' written (ground arith))
    | inr not_nul ↦ elim (Bool-cases (c == b'"' || c == b'\\')) [
      | inl special ↦ rw (not_nul, special) (put_two-fits b'\\' c written (ground arith))
      | inr plain ↦ rw (not_nul, plain) (put-fits c written (ground arith))
    ]
  ]

  copy-fits :
      (source written : Bytes)
      → length written + length (apm_addslashes source) ≤ size
      → copy size source written ≡ some (written ++ apm_addslashes source)
  unfolding copy apm_addslashes
  copy-fits [] written h = ap some (sym (append-nil written))
  copy-fits (c ∷ source) written h =
      let split = length-append (escape c) (apm_addslashes source) in
      let grown = length-append written (escape c) in
      ap (λ (o : Option Bytes). elim o [ none ↦ none | some written' ↦ copy size source written' ])
        (copy_byte-fits c written (omega (arith, h, split)))
      ∙ copy-fits source (written ++ escape c) (omega (arith, h, split, grown))
      ∙ ap some (append_assoc written (escape c) (apm_addslashes source))

take-append : (s rest : Bytes) → take (length s) (s ++ rest) ≡ s
take-append [] rest = refl
take-append (c ∷ s) rest = ap (λ t. c ∷ t) (take-append s rest)

used_length-string : (s rest : Bytes) → used_length (s ++ 0 ∷ rest) (length s) ≡ length s
used_length-string [] rest = refl
used_length-string (c ∷ s) rest = ground arith

-- The loop over a PHP string, whatever bytes it holds, never writes behind the buffer, its final NUL
-- included, and what it leaves there is the string with each byte escaped.
pub addslashes_at-refines :
    (s rest : Bytes) → addslashes_at (s ++ 0 ∷ rest) (length s) ≡ some (apm_addslashes s)
unfolding addslashes_at
addslashes_at-refines s rest =
    let size = 2 * length s + 1 in
    ap (copied (s ++ 0 ∷ rest)) (used_length-string s rest)
    ∙ ap (λ source. terminated size (copy size source [])) (take-append s (0 ∷ rest))
    ∙ ap (terminated size) (copy-fits size s [] (omega (arith, length-apm_addslashes s)))
    ∙ if_true (ltb (length (apm_addslashes s)) size) (some (apm_addslashes s)) none
        (ground (arith, length-apm_addslashes s))
