-- ===== src/Request/Returns.antt =====
-- Runs over sound request data that return.
use php_apm.Common.{
  Bool, true, false, if◌then◌else◌, Bytes, Option, none, some, [], ◌≡◌, ◌≢◌, Option-cases, inl, inr,
  refl, ◌∙◌, sym, subst,
}
use php_apm.World.{Var, text, long, other}
use php_apm.Globals.{Globals, Run, pure, ◌>>=◌, Item}
use php_apm.Globals.Runs.{continued}
use php_apm.Request.{is_string, item_string}
use php_apm.Request.Extract.{Holds, IsSound}

-- A run that returns from sound request data, with sound request data and a result of which `Q` holds.
abbrev pub Returns : {A : Type 0} → (A → Type 0) → Run A → Type 0
Returns {A} Q m =
    (g : Globals)
    → IsSound g.request_data
    → (a : A) × (h : Globals) × (m g ≡ some (a, h)) × Q a × IsSound h.request_data

pub pure-Returns : {A : Type 0} (Q : A → Type 0) (a : A) → Q a → Returns Q (pure a)
pure-Returns Q a q g p = (a, g, refl, q, p)

pub bind-Returns :
    {A B : Type 0} (Q : A → Type 0) (R : B → Type 0) (m : Run A) (f : A → Run B)
    → Returns Q m
    → ((a : A) → Q a → Returns R (f a))
    → Returns R (m >>= f)
bind-Returns Q R m f first rest g p =
    let (a, h, e, q, p1) = first g p in
    let (b, k, e2, r, p2) = rest a q h p1 in (b, k, continued f e ∙ e2, r, p2)

abbrev pub Any : {A : Type 0} → A → Type 0
Any a = Unit

pub string_of_item :
    (v : Option Var) (found : Bool) (g : Globals)
    → Holds is_string (record { var = v; found = found })
    → (s : Bytes) × (item_string (record { var = v; found = found }) g ≡ some (s, g))
string_of_item v false g h = ([], refl)
string_of_item (some (text t)) true g h = (t, refl)
string_of_item (some (long n)) true g h = absurd (cc (h refl))
string_of_item (some other) true g h = absurd (cc (h refl))
string_of_item none true g h = absurd (cc (h refl))

pub if-Returns :
    {A : Type 0} (Q : A → Type 0) (b : Bool) (m n : Run A)
    → Returns Q m
    → Returns Q n
    → Returns Q (if b then m else n)
if-Returns Q true m n p q = p
if-Returns Q false m n p q = q

-- A run of which one knows the result, with the same request data.
pub known-Returns :
    {A : Type 0} (m : Run A) (a : A) (f : Globals → Globals)
    → ((g : Globals) → m g ≡ some (a, f g))
    → ((g : Globals) → (f g).request_data ≡ g.request_data)
    → Returns Any m
known-Returns m a f ran same g p = (a, f g, ran g, tt, subst IsSound (sym (same g)) p)

-- A variable whose flag is set can be read as text.
pub item_string-Returns : (i : Item) → Holds is_string i → Returns Any (item_string i)
item_string-Returns i h g p = let (s, e) = string_of_item i.var i.found g h in (s, g, e, tt, p)

-- A run that does not fault, and keeps the request data.
pub sure-Returns :
    {A : Type 0} (m : Run A)
    → ((g : Globals) → m g ≢ none)
    → ((g : Globals) (a : A) (h : Globals) → m g ≡ some (a, h) → h.request_data ≡ g.request_data)
    → Returns Any m
sure-Returns m sure same g p = elim (Option-cases (m g)) [
  | inl fault ↦ absurd (sure g fault)
  | inr ((a, h), ran) ↦ (a, h, ran, tt, subst IsSound (sym (same g a h ran)) p)
]
