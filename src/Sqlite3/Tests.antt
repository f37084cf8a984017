-- ===== src/Sqlite3/Tests.antt =====
-- A request of driver_sqlite3.c with two events.
use php_apm.Common.{true, codes, Option, none, some, [], ◌∷◌, ◌≡◌, refl}
use php_apm.Globals.{EventArgs, Globals, Status, success}
use php_apm.Fixture.{env, globals}
use php_apm.Request.{extracted, find}
use php_apm.Sqlite3.{
  sqlite_get_instance, request_sql, insert_request, process_event, process_stats, rshutdown,
  disconnect,
}
use php_apm.Sqlite3.Connection.{opens, closes, IsBalanced, request, request-closes}

abbrev notice : EventArgs
notice = record {
  type = 8;
  error_filename = some (codes "a.php");
  error_lineno = 12;
  msg = some (codes "m");
  trace = none;
}

abbrev globals_of : Option (Status × Globals) → Globals
globals_of none = globals
globals_of (some (s, h)) = h

abbrev final : Globals
final = globals_of (request env (notice ∷ notice ∷ []) true globals)

returned : request env (notice ∷ notice ∷ []) true globals ≡ some (success, final)
unfolding request process_event insert_request extracted sqlite_get_instance request_sql find
    process_stats rshutdown disconnect
returned = refl

opened_none : IsBalanced globals
unfolding opens closes
opened_none = refl

request-closes_example : opens final.log ≡ closes final.log
request-closes_example =
    request-closes env (notice ∷ notice ∷ []) true globals final success opened_none returned
