-- ===== src/Common/Text.antt =====
-- Text as a list of bytes, and the C library's decimal print (`%d`, `%u`, smart_str_append_long).
use Prim.Native.Nat.{ℕ, zero, suc, ◌+◌, ◌-◌, ◌*◌, ◌/◌, ◌%◌, ◌^◌, ◌≤◌, ◌<◌}
use Prim.Native.Char.{code}
use Prim.Native.String.{String}
use mathlib.Core.Path.{◌≡◌, refl}
use mathlib.Core.Bool.{Bool, true, false, ◌&&◌}
use mathlib.Core.List.{List, [], ◌∷◌, ◌++◌}
use mathlib.Core.Logic.{inl, inr}
use native.Mathlib.Omega.{arith}
use native.Mathlib.Nat.{pow-suc}
use php_apm.Common.Tests.{ltb, Bool-cases, ◌==◌, if◌then◌else◌}
use php_apm.Common.Lists.{length, length-append, All, All-append}
use php_apm.Common.Int.{ℤ, pos, negsuc}

abbrev pub Bytes : Type 0
Bytes = List ℕ

-- The bytes of an ASCII literal.
abbrev pub codes : String → Bytes
codes String.[] = []
codes (String.◌∷◌ c s) = code c ∷ codes s

-- `strncmp(s, prefix, strlen(prefix)) == 0`
unfoldable pub starts_with : Bytes → Bytes → Bool
starts_with [] s = true
starts_with (p ∷ ps) [] = false
starts_with (p ∷ ps) (c ∷ s) = p == c && starts_with ps s

pub starts_with-append : (p s : Bytes) → starts_with p (p ++ s) ≡ true
unfolding starts_with
starts_with-append [] s = refl
starts_with-append (c ∷ p) s = ground (arith, starts_with-append p s)

-- `strlen` and `%s` stop at the first NUL.
abbrev pub c_string : Bytes → Bytes
c_string [] = []
c_string (c ∷ s) = if c == 0 then [] else c ∷ c_string s

abbrev pub bytes_eq : Bytes → Bytes → Bool
bytes_eq [] [] = true
bytes_eq (a ∷ as') (b ∷ bs) = a == b && bytes_eq as' bs
bytes_eq _ _ = false

-- The digits of `n`, the last one written last; `fuel` is the number of digits that fit.
pow_pos : (k : ℕ) → 0 < 10 ^ k
pow_pos zero = omega arith
pow_pos (suc k) = omega (arith, pow-suc 10 k, pow_pos k)

digits_fuel : ℕ → ℕ → Bytes
digits_fuel zero n = []
digits_fuel (suc f) n =
    let rest = digits_fuel f (n / 10) in (if ltb n 10 then [] else rest) ++ (b'0' + n % 10) ∷ []

-- Every number of the program has 64 bits at most, which is 20 digits; the fuel `n + 1` serves all.
unfoldable pub decimal : ℕ → Bytes
unfolding digits_fuel
decimal n = digits_fuel (n + 1) n

unfoldable pub decimal_ℤ : ℤ → Bytes
unfolding decimal
decimal_ℤ (pos n) = decimal n
decimal_ℤ (negsuc n) = b'-' ∷ decimal (n + 1)

length-snoc : (xs : Bytes) (d : ℕ) → length (xs ++ d ∷ []) ≡ suc (length xs)
length-snoc xs d = omega (arith, length-append xs (d ∷ []))

length-digits_fuel-le : (f k n : ℕ) → n < 10 ^ suc k → length (digits_fuel f n) ≤ suc k
unfolding digits_fuel
length-digits_fuel-le zero k n h = omega arith
length-digits_fuel-le (suc f) zero n h =
    ground (arith, length-snoc (digits_fuel f (n / 10)) (b'0' + n % 10))
length-digits_fuel-le (suc f) (suc k) n h = ground (
  arith,
  pow-suc 10 (suc k),
  length-snoc (digits_fuel f (n / 10)) (b'0' + n % 10),
  length-digits_fuel-le f k (n / 10),
)

length-digits_fuel-gt : (f k n : ℕ) → n < f → 10 ^ k ≤ n → k < length (digits_fuel f n)
unfolding digits_fuel
length-digits_fuel-gt zero k n lt h = absurd (omega arith)
length-digits_fuel-gt (suc f) zero n lt h =
    ground (arith, length-snoc (digits_fuel f (n / 10)) (b'0' + n % 10))
length-digits_fuel-gt (suc f) (suc k) n lt h = ground (
  arith,
  pow-suc 10 k,
  pow_pos k,
  length-snoc (digits_fuel f (n / 10)) (b'0' + n % 10),
  length-digits_fuel-gt f k (n / 10),
)

-- A number below a power of ten prints with at most that many digits, and one not below with more.
pub length-decimal-le : (k n : ℕ) → n < 10 ^ suc k → length (decimal n) ≤ suc k
unfolding decimal
length-decimal-le k n h = length-digits_fuel-le (n + 1) k n h

pub length-decimal-gt : (k n : ℕ) → 10 ^ k ≤ n → k < length (decimal n)
unfolding decimal
length-decimal-gt k n h = length-digits_fuel-gt (n + 1) k n (omega arith) h

All-digits_fuel : (f n : ℕ) → All (λ c. 45 ≤ c) (digits_fuel f n)
unfolding digits_fuel
All-digits_fuel zero n = tt
All-digits_fuel (suc f) n = elim (Bool-cases (ltb n 10)) [
  | inl small ↦ rw small (omega arith, tt)
  | inr large ↦ rw large (
      All-append (λ c. 45 ≤ c) (digits_fuel f (n / 10)) _ (All-digits_fuel f (n / 10))
        (omega arith, tt))
]

-- Every byte of a number's print is a sign, a digit, or above: no line break and no quote.
pub All-decimal : (n : ℕ) → All (λ c. 45 ≤ c) (decimal n)
unfolding decimal
All-decimal n = All-digits_fuel (n + 1) n

pub All-decimal_ℤ : (n : ℤ) → All (λ c. 45 ≤ c) (decimal_ℤ n)
unfolding decimal_ℤ
All-decimal_ℤ (pos n) = All-decimal n
All-decimal_ℤ (negsuc n) = (omega arith, All-decimal (n + 1))

-- The number that a row of digits stands for, behind those of `acc`.
unfoldable pub digits_value : (acc : ℕ) → Bytes → ℕ
digits_value acc [] = acc
digits_value acc (c ∷ s) = digits_value (acc * 10 + (c - b'0')) s

digits_value-snoc :
    (acc : ℕ) (s : Bytes) (c : ℕ)
    → digits_value acc (s ++ c ∷ []) ≡ digits_value acc s * 10 + (c - b'0')
unfolding digits_value
digits_value-snoc acc [] c = refl
digits_value-snoc acc (d ∷ s) c = digits_value-snoc (acc * 10 + (d - b'0')) s c

digits_value-digits_fuel : (f n : ℕ) → n < f → digits_value 0 (digits_fuel f n) ≡ n
unfolding digits_value digits_fuel
digits_value-digits_fuel zero n h = absurd (omega arith)
digits_value-digits_fuel (suc f) n h = elim (Bool-cases (ltb n 10)) [
  | inl small ↦ rw small (ground arith)
  | inr large ↦
      rw (large, digits_value-snoc 0 (digits_fuel f (n / 10)) (b'0' + n % 10))
        (let rest = digits_value-digits_fuel f (n / 10) (ground arith) in omega (arith, rest))
]

-- The print of a number reads as that number.
pub digits_value-decimal : (n : ℕ) → digits_value 0 (decimal n) ≡ n
unfolding decimal
digits_value-decimal n = digits_value-digits_fuel (n + 1) n (omega arith)

decimal_runs : decimal 8125 ≡ codes "8125"
unfolding decimal
decimal_runs = refl
