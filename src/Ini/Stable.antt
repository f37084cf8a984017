-- ===== src/Ini/Stable.antt =====
-- What the handlers of the INI table leave as it is.
use php_apm.Common.{
  ℕ, ◌&&◌, Bool, Bytes, Option, none, some, List, [], ◌∷◌, ◌++◌, ◌≡◌, All, All-append, true, false,
  ◌⊎◌, inl, inr, subst, sym,
}
use php_apm.World.{Env}
use php_apm.Globals.{Globals, Status, success, failure}
use php_apm.Globals.Runs.{bound, some_inj}
use php_apm.Driver.{on_update_error_reporting}
use php_apm.Ini.{
  Property, CharPointer, nullable, text, long, unsigned_int, OnModify, on_update_bool,
  on_update_string, on_update_long, on_update_long_ge_zero, on_update_apm_error_reporting,
  on_update_db_file, IniEntry, Engine, store, store_string, write_long, modify, updates,
}
use php_apm.Sqlite3
use php_apm.Apm.Drivers.{Build}
use php_apm.Ini.Table.{
  where_defined, ini_entries, module_entries, sqlite3_entries, mysql_entries, statsd_entries,
  socket_entries, elasticsearch_entries,
}
use php_apm.Ini.Path.{with_file, on_update_db_file-with_file, on_update_db_file-disables}

-- An entry of a table.
abbrev pub IsIn : IniEntry → List IniEntry → Type 0
IsIn e [] = ⊥
IsIn e (x ∷ xs) = (e ≡ x) ⊎ IsIn e xs

pub All-IsIn :
    (P : IniEntry → Type 0) (e : IniEntry) (xs : List IniEntry) → All P xs → IsIn e xs → P e
All-IsIn P e [] h n = absurd n
All-IsIn P e (x ∷ xs) (p, ps) (inl here) = subst P (sym here) p
All-IsIn P e (x ∷ xs) (p, ps) (inr there) = All-IsIn P e xs ps there

-- What holds of every entry of a table holds of those that handlers are called of.
pub all_in :
    (P : IniEntry → Type 0) (us : List (IniEntry × Option Bytes)) (xs : List IniEntry)
    → All P xs
    → All (λ u. IsIn u.0 xs) us
    → All (λ u. P u.0) us
all_in P [] xs h among = tt
all_in P (u ∷ us) xs h (here, among) = (All-IsIn P u.0 xs h here, all_in P us xs h among)

-- Whatever is written to it, `P` stays true.
abbrev pub IsSafe : {A : Type 0} → (Globals → Type 0) → Property A → Type 0
IsSafe {A} P p = (a : A) (g : Globals) → P g → P (p.write a g)

abbrev pub IsStable : (Globals → Type 0) → OnModify → Type 0
IsStable P (on_update_bool p) = IsSafe P p
IsStable P (on_update_string (nullable p)) = IsSafe P p
IsStable P (on_update_string (text p)) = IsSafe P p
IsStable P (on_update_long (long p)) = IsSafe P p
IsStable P (on_update_long (unsigned_int p)) = IsSafe P p
IsStable P (on_update_long_ge_zero p) = IsSafe P p
IsStable P (on_update_apm_error_reporting p) =
    (v : Option Bytes) (g : Globals) → P g → P (p.write (on_update_error_reporting v (p.read g)) g)
IsStable P (on_update_db_file p) =
    IsSafe P p
    × ((g h : Globals)
        → h.sqlite3.settings.enabled && g.sqlite3.settings.enabled ≡ h.sqlite3.settings.enabled
        → P g
        → P (with_file g h))

module _ (engine : Engine) (env : Env) (maxpathlen : ℕ) (P : Globals → Type 0) where
  store-IsStable :
      {A : Type 0} (write : A → Globals → Globals) (r : Option A) (g h : Globals) (s : Status)
      → ((a : A) (k : Globals) → P k → P (write a k))
      → store write r g ≡ some (s, h)
      → P g
      → P h
  store-IsStable write none g h s safe e p = subst P (sym (some_inj failure s g h e)) p
  store-IsStable write (some a) g h s safe e p =
      subst P (sym (some_inj success s (write a g) h e)) (safe a g p)

  store_string-IsStable :
      (c : CharPointer) (r : Option (Option Bytes)) (g h : Globals) (s : Status)
      → IsStable P (on_update_string c)
      → store_string c r g ≡ some (s, h)
      → P g
      → P h
  store_string-IsStable c none g h s safe e p = subst P (sym (some_inj failure s g h e)) p
  store_string-IsStable (nullable m) (some t) g h s safe e p =
      subst P (sym (some_inj success s _ h e)) (safe t g p)
  store_string-IsStable (text m) (some none) g h s safe e p = cc
  store_string-IsStable (text m) (some (some t)) g h s safe e p =
      subst P (sym (some_inj success s _ h e)) (safe t g p)

  pub modify-IsStable :
      (m : OnModify) (v : Option Bytes) (g h : Globals) (s : Status)
      → IsStable P m
      → modify engine env maxpathlen m v g ≡ some (s, h)
      → P g
      → P h
  unfolding modify
  modify-IsStable (on_update_bool m) v g h s safe e p =
      store-IsStable m.write (engine.bool_of v) g h s safe e p
  modify-IsStable (on_update_string c) v g h s safe e p =
      store_string-IsStable c (engine.string_of v) g h s safe e p
  modify-IsStable (on_update_long (long m)) v g h s safe e p =
      store-IsStable (write_long (long m)) (engine.long_of v) g h s (λ a k q. safe a k q) e p
  modify-IsStable (on_update_long (unsigned_int m)) v g h s safe e p =
      store-IsStable (write_long (unsigned_int m)) (engine.long_of v) g h s (λ a k q. safe _ k q) e
        p
  modify-IsStable (on_update_long_ge_zero m) v g h s safe e p =
      store-IsStable m.write (engine.long_ge_zero_of v) g h s safe e p
  modify-IsStable (on_update_apm_error_reporting m) v g h s safe e p =
      subst P (sym (some_inj success s _ h e)) (safe v g p)
  modify-IsStable (on_update_db_file m) v g h s (safe, file) e p =
      let (_, k, e1, e2) = bound {r = Sqlite3.on_update_db_file env maxpathlen v g} e in
      store_string-IsStable (nullable m) (engine.string_of v) k h s safe e2 (
        subst P (sym (on_update_db_file-with_file env maxpathlen v g k e1))
          (file g k (on_update_db_file-disables env maxpathlen v g k e1) p))

  -- The same of any calls of such handlers.
  pub updates-IsStable :
      (us : List (IniEntry × Option Bytes)) (g h : Globals)
      → All (λ u. IsStable P u.0.on_modify) us
      → updates engine env maxpathlen us g ≡ some (tt, h)
      → P g
      → P h
  unfolding updates
  updates-IsStable [] g h safe e p = subst P (sym (some_inj tt tt g h e)) p
  updates-IsStable ((x, v) ∷ us) g h (safe, rest) e p =
      let (s, k, e1, e2) = bound {r = modify engine env maxpathlen x.on_modify v g} e in
      updates-IsStable us k h rest e2 (modify-IsStable x.on_modify v g k s safe e1 p)

where_defined-All :
    (Q : IniEntry → Type 0) (b : Bool) (es : List IniEntry) → All Q es → All Q (where_defined b es)
where_defined-All Q true es h = h
where_defined-All Q false es h = tt

-- Some entries of which `Q` holds, with a group of entries more.
abbrev with_group :
    (Q : IniEntry → Type 0)
    → (xs : List IniEntry) × All Q xs
    → (b : Bool) (es : List IniEntry) → All Q es
    → (xs : List IniEntry) × All Q xs
with_group Q (xs, h) b es g =
    (xs ++ where_defined b es, All-append Q xs (where_defined b es) h (where_defined-All Q b es g))

-- What holds of every group of entries holds of the table of every build.
pub ini_entries-All :
    (Q : IniEntry → Type 0) (b : Build) (default_db : Bytes)
    → All Q module_entries
    → All Q (sqlite3_entries default_db)
    → All Q mysql_entries
    → All Q statsd_entries
    → All Q socket_entries
    → All Q elasticsearch_entries
    → All Q (ini_entries b default_db)
unfolding ini_entries
ini_entries-All Q b default_db common lite my statsd socket elastic =
    let g1 =
      with_group Q (module_entries, common) b.driver_sqlite3 (sqlite3_entries default_db) lite in
    let g2 = with_group Q g1 b.driver_mysql mysql_entries my in
    let g3 = with_group Q g2 b.driver_statsd statsd_entries statsd in
    let g4 = with_group Q g3 b.driver_socket socket_entries socket in
    (with_group Q g4 b.have_curl elasticsearch_entries elastic).1
