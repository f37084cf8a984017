-- ===== src/Ini/Path.antt =====
-- What `OnUpdateDBFile` of driver_sqlite3.c changes.
use php_apm.Common.{
  arith, ℕ, ◌-◌, Bool, true, false, ◌&&◌, if◌then◌else◌, Bytes, codes, take, Option, none, some, [],
  ◌∷◌, ◌++◌, ◌≡◌, refl, sym, ap, ◌∙◌, subst, Bool-cases, Option-cases, ◌≢◌, inl, inr,
}
use php_apm.World.{Effect, Env}
use php_apm.Globals.{Globals, Run, Status, success, failure, pure, ◌>>=◌, ◌>>◌, emit}
use php_apm.Globals.Runs.{bound, continued, some_inj, else_case}
use php_apm.Sqlite3
use php_apm.Sqlite3.{
  disable, disconnect, set_event_db, disable_on_failure, perform_db_access_checks,
}

-- `g`, with the file, the connection and the switch of the SQLite driver and the log as in `h`.
abbrev pub with_file : Globals → Globals → Globals
with_file g h = record g {
  sqlite3 = record g.sqlite3 {
    settings = record g.sqlite3.settings { enabled = h.sqlite3.settings.enabled };
    db_file = h.sqlite3.db_file;
    event_db = h.sqlite3.event_db;
  };
  log = h.log;
}

abbrev IsPath : {A : Type 0} → Run A → Type 0
IsPath {A} m = (g : Globals) (a : A) (h : Globals) → m g ≡ some (a, h) → h ≡ with_file g h

step-IsPath :
    {A : Type 0} (a b : A) (g k h : Globals)
    → k ≡ with_file g k
    → ◌≡◌ {A = Option (A × Globals)} (some (a, k)) (some (b, h))
    → h ≡ with_file g h
step-IsPath a b g k h same e = subst (λ x. x ≡ with_file g x) (sym (some_inj a b k h e)) same

pure-IsPath : {A : Type 0} (a : A) → IsPath (pure a)
pure-IsPath a g b h e = step-IsPath a b g g h refl e

emit-IsPath : (x : Effect) → IsPath (emit x)
emit-IsPath x g b h e = step-IsPath tt b g (record g { log = x ∷ g.log }) h refl e

bind-IsPath :
    {A B : Type 0} (m : Run A) (f : A → Run B)
    → IsPath m
    → ((a : A) → IsPath (f a))
    → IsPath (m >>= f)
bind-IsPath m f first rest g b h e =
    let (a, k, e1, e2) = bound {r = m g} {f = f} e in
    let same : k ≡ with_file g k = first g a k e1 in rest a k b h e2 ∙ ap (λ x. with_file x h) same

if-IsPath :
    {A : Type 0} (b : Bool) (m n : Run A) → IsPath m → IsPath n → IsPath (if b then m else n)
if-IsPath true m n p q = p
if-IsPath false m n p q = q

disable-IsPath : IsPath disable
disable-IsPath g b h e =
    step-IsPath tt b g
      (record g {
        sqlite3 = record g.sqlite3 { settings = record g.sqlite3.settings { enabled = false } };
      })
      h refl e

disable_on_failure-IsPath : (s : Status) → IsPath (disable_on_failure s)
disable_on_failure-IsPath success = pure-IsPath tt
disable_on_failure-IsPath failure = disable-IsPath

disconnect-IsPath : IsPath disconnect
unfolding disconnect
disconnect-IsPath g b h e = ground arith

-- A run without a fault.
abbrev IsSure : {A : Type 0} → Run A → Type 0
IsSure m = (g : Globals) → m g ≢ none

sure_result : (m : Run (Unit {0})) → IsSure m → (g : Globals) → (h : Globals) × (m g ≡ some (tt, h))
sure_result m sure g = elim (Option-cases (m g)) [
  | inl fault ↦ absurd (sure g fault)
  | inr ((a, h), ran) ↦ (h, ran)
]

bind-IsSure :
    {A B : Type 0} (m : Run A) (f : A → Run B)
    → IsSure m
    → ((a : A) → IsSure (f a))
    → IsSure (m >>= f)
bind-IsSure m f first rest g e = elim (Option-cases (m g)) [
  | inl fault ↦ first g fault
  | inr ((a, h), ran) ↦ rest a h (sym (continued f ran) ∙ e)
]

if-IsSure :
    {A : Type 0} (b : Bool) (m n : Run A) → IsSure m → IsSure n → IsSure (if b then m else n)
if-IsSure true m n p q = p
if-IsSure false m n p q = q

step-IsSure : (f : Globals → Globals) → IsSure (λ g. pure tt (f g))
step-IsSure f g e = cc

disconnect-IsSure : IsSure disconnect
unfolding disconnect
disconnect-IsSure g e = ground arith

disable-IsSure : IsSure disable
disable-IsSure g e = cc

disable_on_failure-IsSure : (s : Status) → IsSure (disable_on_failure s)
disable_on_failure-IsSure success g e = cc
disable_on_failure-IsSure failure g e = cc

module _ (env : Env) where
  perform_db_access_checks-IsPath : (path : Bytes) → IsPath (perform_db_access_checks env path)
  unfolding perform_db_access_checks
  perform_db_access_checks-IsPath path g s h e = ground arith

  -- A path that was given, once it is stored.
  checked-IsPath :
      (path : Bytes)
      → IsPath (do disconnect; s ← perform_db_access_checks env path; disable_on_failure s)
  checked-IsPath path =
      bind-IsPath _ _ disconnect-IsPath
        λ _. bind-IsPath _ _ (perform_db_access_checks-IsPath path) disable_on_failure-IsPath

  stored-IsPath :
      (maxpathlen : ℕ) (path : Bytes)
      → IsPath (do
        λ g. pure tt (record g {
          sqlite3 = record g.sqlite3 {
            db_file = take (maxpathlen - 1) (path ++ codes "/" ++ codes "events");
          };
        })
        disconnect
        s ← perform_db_access_checks env path
        disable_on_failure s)
  stored-IsPath maxpathlen path =
      bind-IsPath _ _
        (λ g b h e.
          step-IsPath tt b g
            (record g {
              sqlite3 = record g.sqlite3 {
                db_file = take (maxpathlen - 1) (path ++ codes "/" ++ codes "events");
              };
            })
            h refl e)
        λ _. checked-IsPath path

  -- The handler leaves all else as it is, whether the driver is enabled or not.
  pub on_update_db_file-with_file :
      (maxpathlen : ℕ) (v : Option Bytes) (g h : Globals)
      → Sqlite3.on_update_db_file env maxpathlen v g ≡ some (tt, h)
      → h ≡ with_file g h
  unfolding Sqlite3.on_update_db_file
  on_update_db_file-with_file maxpathlen none g h e =
      if-IsPath _ _ (pure tt) disable-IsPath (pure-IsPath tt) g tt h e
  on_update_db_file-with_file maxpathlen (some []) g h e =
      if-IsPath _ _ (pure tt) disable-IsPath (pure-IsPath tt) g tt h e
  on_update_db_file-with_file maxpathlen (some (c ∷ s)) g h e =
      if-IsPath _ _ (pure tt) (stored-IsPath maxpathlen (c ∷ s)) (pure-IsPath tt) g tt h e

  -- It never enables the driver.
  pub on_update_db_file-disables :
      (maxpathlen : ℕ) (v : Option Bytes) (g h : Globals)
      → Sqlite3.on_update_db_file env maxpathlen v g ≡ some (tt, h)
      → h.sqlite3.settings.enabled && g.sqlite3.settings.enabled ≡ h.sqlite3.settings.enabled
  unfolding Sqlite3.on_update_db_file
  on_update_db_file-disables maxpathlen v g h e = elim (Bool-cases g.sqlite3.settings.enabled) [
    | inl on ↦ ground arith
    | inr off ↦
        let same : h ≡ g = some_inj tt tt g h (
          else_case {b = g.settings.enabled && g.sqlite3.settings.enabled} _ (pure tt) g e
            (ground arith)) in
        subst
          (λ (k : Globals).
            k.sqlite3.settings.enabled && g.sqlite3.settings.enabled ≡ k.sqlite3.settings.enabled)
          (sym same) (ground arith)
  ]

  perform_db_access_checks-IsSure : (path : Bytes) → IsSure (perform_db_access_checks env path)
  unfolding perform_db_access_checks
  perform_db_access_checks-IsSure path g e = ground arith

  stored-IsSure :
      (maxpathlen : ℕ) (path : Bytes)
      → IsSure (do
        λ g. pure tt (record g {
          sqlite3 = record g.sqlite3 {
            db_file = take (maxpathlen - 1) (path ++ codes "/" ++ codes "events");
          };
        })
        disconnect
        s ← perform_db_access_checks env path
        disable_on_failure s)
  stored-IsSure maxpathlen path =
      bind-IsSure _ _
        (step-IsSure λ g. record g {
          sqlite3 = record g.sqlite3 {
            db_file = take (maxpathlen - 1) (path ++ codes "/" ++ codes "events");
          };
        })
        λ _.
          bind-IsSure _ _ disconnect-IsSure
            λ _. bind-IsSure _ _ (perform_db_access_checks-IsSure path) disable_on_failure-IsSure

  -- The handler returns.
  pub on_update_db_file_returns :
      (maxpathlen : ℕ) (v : Option Bytes) (g : Globals)
      → (h : Globals) × (Sqlite3.on_update_db_file env maxpathlen v g ≡ some (tt, h))
  unfolding Sqlite3.on_update_db_file
  on_update_db_file_returns maxpathlen none g =
      sure_result _ (if-IsSure _ _ (pure tt) disable-IsSure (step-IsSure λ g. g)) g
  on_update_db_file_returns maxpathlen (some []) g =
      sure_result _ (if-IsSure _ _ (pure tt) disable-IsSure (step-IsSure λ g. g)) g
  on_update_db_file_returns maxpathlen (some (c ∷ s)) g =
      sure_result _
        (if-IsSure _ _ (pure tt) (stored-IsSure maxpathlen (c ∷ s)) (step-IsSure λ g. g)) g
