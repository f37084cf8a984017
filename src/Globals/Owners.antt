-- ===== src/Globals/Owners.antt =====
-- The drivers' parts of the module globals of php_apm.h.
use php_apm.Common.{
  ℕ, Bool, true, false, if◌then◌else◌, Bytes, Option, some, ◌∷◌, ap, ◌≡◌, refl, sym, subst, ◌∙◌,
}
use php_apm.World.{Effect, Env}
use php_apm.Request.{extracted, extract_data}
use php_apm.Request.Extract.{extracted-keeps}
use php_apm.Globals.{RequestData, Globals, Run, pure, fault, ◌>>=◌, get, emit, sprintf}
use php_apm.Globals.Runs.{Keeps, bound, sprintf_lem, some_inj}

-- The drivers that have a part of the globals and stand in the list of drivers.
pub data Owner : Type 0 where
  of_sqlite3 : Owner
  of_mysql : Owner
  of_statsd : Owner
  of_socket : Owner

-- `g`, with the part of a driver, the request's data and the log as they are in `h`.
abbrev pub with_part : Owner → Globals → Globals → Globals
with_part of_sqlite3 g h = record g {
  sqlite3 = h.sqlite3;
  request_data = h.request_data;
  log = h.log;
}
with_part of_mysql g h = record g { mysql = h.mysql; request_data = h.request_data; log = h.log }
with_part of_statsd g h = record g { statsd = h.statsd; request_data = h.request_data; log = h.log }
with_part of_socket g h = record g { socket = h.socket; request_data = h.request_data; log = h.log }

-- A run that changes nothing but those.
abbrev pub IsLocal : {A : Type 0} → Owner → Run A → Type 0
IsLocal {A} o m = (g : Globals) (a : A) (h : Globals) → m g ≡ some (a, h) → h ≡ with_part o g h

with_part_idem : (o : Owner) (g k h : Globals) → with_part o (with_part o g k) h ≡ with_part o g h
with_part_idem of_sqlite3 g k h = refl
with_part_idem of_mysql g k h = refl
with_part_idem of_statsd g k h = refl
with_part_idem of_socket g k h = refl

with_part_self : (o : Owner) (g : Globals) → g ≡ with_part o g g
with_part_self of_sqlite3 g = refl
with_part_self of_mysql g = refl
with_part_self of_statsd g = refl
with_part_self of_socket g = refl

emit-with_part :
    (o : Owner) (x : Effect) (g : Globals)
    → ◌≡◌ {A = Globals}
        (record g { log = x ∷ g.log })
        (with_part o g (record g { log = x ∷ g.log }))
emit-with_part of_sqlite3 x g = refl
emit-with_part of_mysql x g = refl
emit-with_part of_statsd x g = refl
emit-with_part of_socket x g = refl

data_with_part :
    (o : Owner) (rd : RequestData) (g : Globals)
    → ◌≡◌ {A = Globals}
        (record g { request_data = rd })
        (with_part o g (record g { request_data = rd }))
data_with_part of_sqlite3 rd g = refl
data_with_part of_mysql rd g = refl
data_with_part of_statsd rd g = refl
data_with_part of_socket rd g = refl

module _ (o : Owner) where
  pub with_part_trans :
      (g k h : Globals) → k ≡ with_part o g k → h ≡ with_part o k h → h ≡ with_part o g h
  with_part_trans g k h e e' = e' ∙ ap (λ x. with_part o x h) e ∙ with_part_idem o g k h

  -- A step from `g` to the known `k`.
  pub step-IsLocal :
      {A : Type 0} (a b : A) (g k h : Globals)
      → k ≡ with_part o g k
      → ◌≡◌ {A = Option (A × Globals)} (some (a, k)) (some (b, h))
      → h ≡ with_part o g h
  step-IsLocal a b g k h same e = subst (λ x. x ≡ with_part o g x) (sym (some_inj a b k h e)) same

  pub pure-IsLocal : {A : Type 0} (a : A) → IsLocal o (pure a)
  pure-IsLocal a g b h e = step-IsLocal a b g g h (with_part_self o g) e

  pub bind-IsLocal :
      {A B : Type 0} (m : Run A) (f : A → Run B)
      → IsLocal o m
      → ((a : A) → IsLocal o (f a))
      → IsLocal o (m >>= f)
  bind-IsLocal m f first rest g b h e =
      let (a, k, e1, e2) = bound {r = m g} {f = f} e in
      with_part_trans g k h (first g a k e1) (rest a k b h e2)

  pub if-IsLocal :
      {A : Type 0} (b : Bool) (m n : Run A)
      → IsLocal o m
      → IsLocal o n
      → IsLocal o (if b then m else n)
  if-IsLocal true m n p q = p
  if-IsLocal false m n p q = q

  pub fault-IsLocal : {A : Type 0} → IsLocal o (fault {A = A})
  fault-IsLocal g a h e = cc

  pub emit-IsLocal : (x : Effect) → IsLocal o (emit x)
  emit-IsLocal x g b h e = step-IsLocal tt b g _ h (emit-with_part o x g) e

  pub get-IsLocal : IsLocal o get
  get-IsLocal g a h e = step-IsLocal g a g g h (with_part_self o g) e

  -- A run that changes nothing at all.
  pub Keeps-IsLocal : {A : Type 0} (m : Run A) → Keeps m → IsLocal o m
  Keeps-IsLocal m keeps g a h e =
      subst (λ x. x ≡ with_part o g x) (sym (keeps g a h e)) (with_part_self o g)

  pub sprintf-IsLocal : (size : ℕ) (s : Bytes) → IsLocal o (sprintf size s)
  sprintf-IsLocal size s = Keeps-IsLocal _ λ g a h e. (sprintf_lem size s a g h e).1

  pub extract_data-IsLocal : (env : Env) → IsLocal o (extract_data env)
  extract_data-IsLocal env g a h e =
      let same = extracted-keeps env g in
      step-IsLocal tt a g (extracted env g) h
        (same ∙ data_with_part o (extracted env g).request_data g ∙ ap (with_part o g) (sym same)) e
