-- ===== src/Backtrace/Chain.antt =====
-- The chain of frames that backtrace.c walks, by the distance of a frame from its end.
use php_apm.Common.{ℕ, ◌≤◌, ◌<◌, Option, none, some, ◌≡◌, arith}

module _ (prev : ℕ → Option ℕ) (distance : ℕ → ℕ) where
  -- A frame's predecessor is nearer to the end.
  abbrev pub Falls : Type 0
  Falls = (p q : ℕ) → prev p ≡ some q → distance q < distance p

  -- A frame that may not be there.
  abbrev pub Within : ℕ → Option ℕ → Type 0
  Within n none = Unit
  Within n (some p) = distance p < n

  pub prev-Within : Falls → (p n : ℕ) (o : Option ℕ) → prev p ≡ o → distance p ≤ n → Within n o
  prev-Within falls p n none e h = tt
  prev-Within falls p n (some q) e h = omega (arith, falls p q e, h)
