-- ===== src/Mysql/Tests.antt =====
-- Statements of driver_mysql.c, and a request of two events.
use php_apm.Common.{
  ◌+◌, ◌≤◌, length, arith, true, codes, Option, none, some, [], ◌∷◌, decimal, decimal_ℤ, ◌≡◌, refl,
}
use php_apm.Globals.{EventArgs, Globals}
use php_apm.Fixture.{env, globals}
use php_apm.Mysql.{
  Fields, request_sql, request_size, event_sql, event_size, stats_sql, process_event,
  insert_request, mysql_get_instance, fields, query_request, process_stats,
}
use php_apm.Request.{extracted, find}
use php_apm.Mysql.Buffers.{request_sql_fits}
use php_apm.Mysql.Account.{request_rows, count_of}
use php_apm.Mysql.Rows.{request, one_request_row}

abbrev request_fields : Fields
request_fields = record {
  application = codes "app";
  script = codes "/a.php";
  uri = codes "/a";
  host = codes "h";
  ip = 2130706433;
  cookies = [];
  post_vars = [];
  referer = [];
  method = codes "GET";
}

abbrev notice : EventArgs
notice = record {
  type = 8;
  error_filename = some (codes "a.php");
  error_lineno = 12;
  msg = some (codes "m");
  trace = none;
}

abbrev globals_of : Option (Unit {0} × Globals) → Globals
globals_of none = globals
globals_of (some (u, h)) = h

abbrev final : Globals
final = globals_of (request env (notice ∷ notice ∷ []) true globals)

returned : request env (notice ∷ notice ∷ []) true globals ≡ some (tt, final)
unfolding request process_event insert_request extracted mysql_get_instance fields find
    query_request request_sql decimal request_size event_sql event_size process_stats stats_sql
    decimal_ℤ
returned = refl

one_request_row_example :
    request_rows final.log ≡ request_rows globals.log + count_of final.mysql.is_request_created
one_request_row_example = one_request_row env (notice ∷ notice ∷ []) true globals final returned

request_sql_fits_example : length (request_sql request_fields) + 1 ≤ request_size request_fields
request_sql_fits_example = request_sql_fits request_fields (omega arith)
