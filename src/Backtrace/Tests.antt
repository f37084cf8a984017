-- ===== src/Backtrace/Tests.antt =====
-- Arguments of backtrace.c, and a table that contains itself.
use php_apm.Common.{pos, true, false, Bytes, codes, some, [], ◌∷◌, ◌++◌, ◌≡◌, ◌≢◌, refl, arith}
use php_apm.Backtrace.Slashes.{apm_addslashes, read_quoted, read_quoted-apm_addslashes}
use php_apm.Backtrace.Buffer.{addslashes_at, addslashes_at-refines}
use php_apm.Backtrace.Value.{
  string, array, num_key, string_key, Store, Counts, enter_table, leave_table,
}
use php_apm.Backtrace.Dump.{append_flat_zval_r, dump_fuel, dumped, out_of_fuel}
use php_apm.Backtrace.Dump.Counters.{append_flat_zval_r-keeps_counts}
use php_apm.Backtrace.Dump.Depth.{append_flat_zval_r-ends, append_flat_zval_r-unlimited}

abbrev name : Bytes
name = codes "a\"b\\c"

addslashes_at-refines_example :
    addslashes_at (name ++ 0 ∷ codes "rest") 5 ≡ some (apm_addslashes name)
addslashes_at-refines_example = addslashes_at-refines name (codes "rest")

read_quoted-apm_addslashes_example :
    read_quoted (apm_addslashes name ++ b'"' ∷ codes ", 7") ≡ some (name, codes ", 7")
read_quoted-apm_addslashes_example = read_quoted-apm_addslashes name (codes ", 7")

-- The table 0 holds a string and itself.
abbrev store : Store
store = record {
  tables = λ t. record {
    apply_protection = true;
    entries = (num_key (pos 0), string (codes "x")) ∷ (string_key (codes "k"), array 0) ∷ [];
  };
  objects = λ o. record { class_name = some (codes "C"); properties = some 0 };
}

abbrev no_counts : Counts
no_counts = record { tables = λ t. 0; objects = λ o. 0 }

abbrev counts_after : Counts
counts_after = leave_table 0 (enter_table 0 no_counts)

-- With a limit of one, the entries of the argument's own table are not shown.
limit_of_one :
    append_flat_zval_r true (pos 1) store 3 (array 0) no_counts
    ≡ dumped (codes "[/* [...] */]") counts_after
unfolding append_flat_zval_r
limit_of_one = refl

append_flat_zval_r-keeps_counts_example : counts_after ≡ no_counts
append_flat_zval_r-keeps_counts_example =
    append_flat_zval_r-keeps_counts true (pos 1) store 3 (array 0) no_counts counts_after
      (codes "[/* [...] */]") limit_of_one

append_flat_zval_r-ends_example :
    append_flat_zval_r true (pos 1) store 2 (array 0) no_counts ≢ out_of_fuel
append_flat_zval_r-ends_example =
    append_flat_zval_r-ends true (pos 1) store 2 (array 0) no_counts (omega arith) (omega arith)

append_flat_zval_r-unlimited_example :
    append_flat_zval_r true (pos 200) store 2 (array 0) no_counts
    ≡ dump_fuel true (λ d. false) store 2 0 (array 0) no_counts
append_flat_zval_r-unlimited_example =
    append_flat_zval_r-unlimited true 200 store 2 (array 0) no_counts (omega arith)
