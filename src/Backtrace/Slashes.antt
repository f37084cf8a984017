-- ===== src/Backtrace/Slashes.antt =====
-- backtrace.c: `apm_addslashes`, and a reader of quoted strings.
use php_apm.Common.{
  ℕ, ◌+◌, ◌*◌, ◌≤◌, false, ◌||◌, ◌==◌, if◌then◌else◌, [], ◌∷◌, ◌++◌, ◌≡◌, refl, arith, Bytes,
  Option, none, some, length, length-append, append_assoc,
}

-- One round of the loop: what the `switch` writes for one byte.
unfoldable pub escape : ℕ → Bytes
escape c =
    if c == 0 then b'\\' ∷ b'0' ∷ [] else if c == b'"' || c == b'\\' then b'\\' ∷ c ∷ [] else c ∷ []

unfoldable pub apm_addslashes : Bytes → Bytes
unfolding escape
apm_addslashes [] = []
apm_addslashes (c ∷ s) = escape c ++ apm_addslashes s

-- The loop writes into a buffer of `2 * length + 1` bytes: its text and the final NUL fit.
pub length-apm_addslashes : (s : Bytes) → length (apm_addslashes s) + 1 ≤ 2 * length s + 1
unfolding apm_addslashes
length-apm_addslashes [] = omega arith
length-apm_addslashes (c ∷ s) =
    ground (arith, length-apm_addslashes s, length-append (escape c) (apm_addslashes s))

-- A reader of quoted strings: it gives the string and what stands behind the closing quote.
abbrev unescape : ℕ → ℕ
unescape d = if d == b'0' then 0 else d

abbrev prepend : ℕ → Option (Bytes × Bytes) → Option (Bytes × Bytes)
prepend c none = none
prepend c (some (s, rest)) = some (c ∷ s, rest)

unfoldable pub read_quoted : Bytes → Option (Bytes × Bytes)
read_quoted [] = none
read_quoted (c ∷ []) = if c == b'"' then some ([], []) else none
read_quoted (c ∷ d ∷ r) =
    let escaped = prepend (unescape d) (read_quoted r) in
    let plain = prepend c (read_quoted (d ∷ r)) in
    if c == b'"' then some ([], d ∷ r) else if c == b'\\' then escaped else plain

read_quoted-plain :
    (c : ℕ) (s : Bytes)
    → (c == b'"') ≡ false
    → (c == b'\\') ≡ false
    → read_quoted (c ∷ s) ≡ prepend c (read_quoted s)
unfolding read_quoted
read_quoted-plain c [] p q = rw p
read_quoted-plain c (d ∷ r) p q = rw (p, q)

read_quoted-end : (rest : Bytes) → read_quoted (b'"' ∷ rest) ≡ some ([], rest)
unfolding read_quoted
read_quoted-end [] = refl
read_quoted-end (c ∷ rest) = refl

read_quoted-escape :
    (c : ℕ) (s t rest : Bytes)
    → read_quoted s ≡ some (t, rest)
    → read_quoted (escape c ++ s) ≡ some (c ∷ t, rest)
unfolding escape read_quoted
read_quoted-escape c s t rest h = ground (arith, read_quoted-plain c s)

-- A string is quoted without loss and without ambiguity: whatever bytes it holds, quotes,
-- backslashes and NUL among them, the text between the quotes ends where it should, and reads back.
pub read_quoted-apm_addslashes :
    (s rest : Bytes) → read_quoted (apm_addslashes s ++ b'"' ∷ rest) ≡ some (s, rest)
unfolding apm_addslashes
read_quoted-apm_addslashes [] rest = read_quoted-end rest
read_quoted-apm_addslashes (c ∷ s) rest =
    rw (append_assoc (escape c) (apm_addslashes s) (b'"' ∷ rest))
      (read_quoted-escape c _ s rest (read_quoted-apm_addslashes s rest))
