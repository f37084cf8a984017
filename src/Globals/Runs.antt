-- ===== src/Globals/Runs.antt =====
-- What can be told of a finished run.
use php_apm.Common.{
  ℕ, ◌+◌, ◌≤◌, Bytes, length, Bool, true, false, if◌then◌else◌, Option, none, some, ap, ◌≡◌, ◌∙◌,
  refl, arith,
}
use php_apm.Globals.{Globals, Run, pure, sprintf, get, ◌>>=◌}

-- A run that changes nothing.
abbrev pub Keeps : {A : Type 0} → Run A → Type 0
Keeps {A} m = (g : Globals) (a : A) (h : Globals) → m g ≡ some (a, h) → h ≡ g

pub Keeps-pure : {A : Type 0} (a : A) → Keeps (pure a)
Keeps-pure a g b h e = ground arith

-- What a finished sequence of two runs went through.
pub bound :
    {A B : Type 0} {r : Option (A × Globals)} {f : A → Run B} {b : B} {h : Globals}
    → elim r [ none ↦ none | some (a, g') ↦ f a g' ] ≡ some (b, h)
    → (a : A) × (g' : Globals) × (r ≡ some (a, g')) × (f a g' ≡ some (b, h))
bound {r = none} e = cc
bound {r = some (a, g')} e = (a, g', refl, e)

pub else_case :
    {A : Type 0} {b : Bool} (m n : Run A) (g : Globals) {z : Option (A × Globals)}
    → (if b then m else n) g ≡ z
    → b ≡ false
    → n g ≡ z
else_case {b = false} m n g e test = e
else_case {b = true} m n g e test = cc

pub then_case :
    {A : Type 0} {b : Bool} (m n : Run A) (g : Globals) {z : Option (A × Globals)}
    → (if b then m else n) g ≡ z
    → b ≡ true
    → m g ≡ z
then_case {b = true} m n g e test = e
then_case {b = false} m n g e test = cc

-- The same of a result.
pub then_value :
    {A : Type 0} (b : Bool) (x y : A) {z : A} → (if b then x else y) ≡ z → b ≡ true → x ≡ z
then_value true x y e test = e
then_value false x y e test = cc

pub else_value :
    {A : Type 0} (b : Bool) (x y : A) {z : A} → (if b then x else y) ≡ z → b ≡ false → y ≡ z
else_value false x y e test = e
else_value true x y e test = cc

pub if_true : {A : Type 0} (b : Bool) (x y : A) → b ≡ true → (if b then x else y) ≡ x
if_true true x y test = refl
if_true false x y test = cc

pub if_false : {A : Type 0} (b : Bool) (x y : A) → b ≡ false → (if b then x else y) ≡ y
if_false false x y test = refl
if_false true x y test = cc

pub run_true :
    {A : Type 0} (b : Bool) (m n : Run A) (g : Globals) → b ≡ true → (if b then m else n) g ≡ m g
run_true true m n g test = refl
run_true false m n g test = cc

pub run_false :
    {A : Type 0} (b : Bool) (m n : Run A) (g : Globals) → b ≡ false → (if b then m else n) g ≡ n g
run_false false m n g test = refl
run_false true m n g test = cc

-- How a sequence goes on behind its first run.
pub continued :
    {A B : Type 0} {r : Option (A × Globals)} (f : A → Run B) {a : A} {h : Globals}
    → r ≡ some (a, h)
    → elim r [ none ↦ none | some (b, k) ↦ f b k ] ≡ f a h
continued f e = ap (λ r. elim r [ none ↦ none | some (b, k) ↦ f b k ]) e

pub sprintf_lem :
    (size : ℕ) (s t : Bytes) (g h : Globals) → sprintf size s g ≡ some (t, h) → (t ≡ s) × (h ≡ g)
sprintf_lem size s t g h e = ground arith

pub sprintf-fits :
    (size : ℕ) (s : Bytes) (g : Globals) → length s + 1 ≤ size → sprintf size s g ≡ some (s, g)
sprintf-fits size s g h = ground arith

pub some_inj :
    {A : Type 0} (a b : A) (g h : Globals)
    → ◌≡◌ {A = Option (A × Globals)} (some (a, g)) (some (b, h))
    → h ≡ g
some_inj a b g h e = ground arith

pub pure_inj :
    {A : Type 0} (a b : A) (g h : Globals)
    → ◌≡◌ {A = Option (A × Globals)} (some (a, g)) (some (b, h))
    → (b ≡ a) × (h ≡ g)
pure_inj a b g h e = ground arith

pub bind-Keeps :
    {A B : Type 0} (m : Run A) (f : A → Run B) → Keeps m → ((a : A) → Keeps (f a)) → Keeps (m >>= f)
bind-Keeps m f first rest g b h e =
    let (a, k, e1, e2) = bound {r = m g} {f = f} e in rest a k b h e2 ∙ first g a k e1

pub get-Keeps : Keeps get
get-Keeps g a h e = (pure_inj g a g h e).1

pub if-Keeps :
    {A : Type 0} (b : Bool) (m n : Run A) → Keeps m → Keeps n → Keeps (if b then m else n)
if-Keeps true m n p q = p
if-Keeps false m n p q = q
