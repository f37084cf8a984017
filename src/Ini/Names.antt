-- ===== src/Ini/Names.antt =====
-- The names of the INI table.
use php_apm.Common.{
  Bool, true, false, ◌||◌, ◌&&◌, not, arith, Bytes, bytes_eq, List, [], ◌∷◌, ◌≡◌, refl,
}
use php_apm.Apm.Drivers.{Build}
use php_apm.Ini.{IniEntry}
use php_apm.Ini.Table.{ini_entries}

abbrev pub has_name : Bytes → List IniEntry → Bool
has_name n [] = false
has_name n (e ∷ es) = let rest = has_name n es in bytes_eq n e.name || rest

abbrev pub has_twice : List IniEntry → Bool
has_twice [] = false
has_twice (e ∷ es) = let rest = has_twice es in has_name e.name es || rest

abbrev build_of : Bool → Bool → Bool → Bool → Bool → Build
build_of sqlite3 mysql statsd socket curl = record {
  driver_sqlite3 = sqlite3;
  driver_mysql = mysql;
  driver_statsd = statsd;
  driver_socket = socket;
  have_curl = curl;
}

abbrev all_of : (Bool → Bool) → Bool
all_of f = f true && f false

all_of-true : (f : Bool → Bool) → all_of f ≡ true → (b : Bool) → f b ≡ true
all_of-true f h true = ground arith
all_of-true f h false = ground arith

abbrev in_all_builds : (Build → Bool) → Bool
in_all_builds f = all_of λ a. all_of λ b. all_of λ c. all_of λ d. all_of λ e. f (build_of a b c d e)

in_all_builds-true : (f : Build → Bool) → in_all_builds f ≡ true → (b : Build) → f b ≡ true
in_all_builds-true f h b =
    let sqlite3 = b.driver_sqlite3 in
    let mysql = b.driver_mysql in
    let statsd = b.driver_statsd in
    let socket = b.driver_socket in
    let h =
      all_of-true (λ x. all_of λ y. all_of λ z. all_of λ u. all_of λ v. f (build_of x y z u v)) h
        sqlite3 in
    let h =
      all_of-true (λ y. all_of λ z. all_of λ u. all_of λ v. f (build_of sqlite3 y z u v)) h mysql in
    let h = all_of-true (λ z. all_of λ u. all_of λ v. f (build_of sqlite3 mysql z u v)) h statsd in
    let h = all_of-true (λ u. all_of λ v. f (build_of sqlite3 mysql statsd u v)) h socket in
    all_of-true (λ v. f (build_of sqlite3 mysql statsd socket v)) h b.have_curl

abbrev once_in : Bytes → Build → Bool
once_in default_db b = not (has_twice (ini_entries b default_db))

-- The test of all builds, which computes.
tested : (default_db : Bytes) → in_all_builds (once_in default_db) ≡ true
unfolding ini_entries
tested default_db = refl

-- No two entries of the table of a build have the same name.
pub ini_entries-once :
    (b : Build) (default_db : Bytes) → has_twice (ini_entries b default_db) ≡ false
ini_entries-once b default_db =
    let once : once_in default_db b ≡ true =
      in_all_builds-true (once_in default_db) (tested default_db) b in
    ground arith
