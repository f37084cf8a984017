-- ===== src/Backtrace/Dump.antt =====
-- backtrace.c: `append_flat_zval_r`, `append_flat_hash` and `append_variable`, for both branches of
-- the preprocessor (`php7` is PHP_VERSION_ID >= 70000). A function returns the text that it appends
-- and the engine's counters; the fuel bounds the
-- nesting.
pub mod Counters
pub mod Depth
use php_apm.Common.{
  ℕ, zero, suc, ℤ, pos, negsuc, ◌+◌, ◌-◌, ◌%◌, Bool, true, false, ◌&&◌, ◌||◌, not, ltb, leb_ℤ, ◌==◌,
  if◌then◌else◌, Bytes, c_string, codes, decimal_ℤ, Option, none, some, List, [], ◌∷◌, ◌++◌,
}
use php_apm.Backtrace.Slashes.{apm_addslashes}
use php_apm.Backtrace.Value.{
  Zval, printable, string, array, object, reference, Key, string_key, num_key, HashTable, Object,
  Store, Counts, enter_table, leave_table, enter_object, leave_object,
}

-- The value of a `char`, which has eight bits and a sign.
abbrev pub signed_char : ℕ → ℤ
signed_char d = if ltb (d % 256) 128 then pos (d % 256) else negsuc (255 - d % 256)

-- `depth >= APM_G(dump_max_depth)`
unfoldable pub reached : (max_depth : ℤ) → ℕ → Bool
reached max_depth d = leb_ℤ max_depth (signed_char d)

abbrev pub ellipsis : Bytes
ellipsis = codes "/* [...] */"

abbrev pub recursion : Bytes
recursion = codes " *RECURSION*"

-- `append_variable`: a string is quoted.
unfoldable pub append_variable : (is_string : Bool) → Bytes → Bytes
append_variable true s = b'"' ∷ (apm_addslashes s ++ b'"' ∷ [])
append_variable false s = s

-- The name of a property that is not public is "\0class\0name"; the loop steps over both NULs. The
-- string ends with a NUL too, and behind that one nothing is left: `none`.
unfoldable pub skip_scope : Bytes → Option Bytes
skip_scope [] = none
skip_scope (c ∷ s) = let rest = skip_scope s in if c == 0 then some s else rest

unfoldable pub property_name : (is_object : Bool) → Bytes → Option Bytes
unfolding skip_scope
property_name is_object [] = some []
property_name is_object (c ∷ s) = if is_object && c == 0 then skip_scope s else some (c ∷ s)

abbrev quoted_name : Option Bytes → Bytes
quoted_name none = codes "*unknown key*"
quoted_name (some s) = apm_addslashes s

-- The empty name of a property starts with its terminating NUL: the loop then reads past its end.
abbrev overreads : (php7 is_object : Bool) → Key → Bool
overreads false true (string_key []) = true
overreads _ _ _ = false

unfoldable pub append_key : (php7 is_object : Bool) → Key → Bytes
unfolding property_name
append_key php7 is_object (num_key n) = decimal_ℤ n
append_key true is_object (string_key s) = s
append_key false is_object (string_key s) =
    b'"' ∷ (quoted_name (property_name is_object s) ++ b'"' ∷ [])

-- The text appended, and the counters then.
pub data Dump : Type 0 where
  dumped : Bytes → Counts → Dump
  overread : Dump
  out_of_fuel : Dump

infixl 5 ◌>>=◌
abbrev pub ◌>>=◌ : Dump → (Bytes × Counts → Dump) → Dump
dumped t c >>= f = f (t, c)
overread >>= f = overread
out_of_fuel >>= f = out_of_fuel

-- `before` and `after` what a dump appends, and a change of the counters behind it
abbrev pub around : Bytes → Dump → Bytes → (Counts → Counts) → Dump
around before d after leave = d >>= λ (t, c). dumped (before ++ t ++ after) (leave c)

abbrev pub heading : Option Bytes → Bytes
heading none = codes "Unknown Class Object ("
heading (some name) = name ++ codes " Object ("

-- In PHP 7 `smart_str_appends` takes the name up to its first NUL.
abbrev pub heading7 : Option Bytes → Bytes
heading7 none = heading none
heading7 (some name) = heading (some (c_string name))

-- The loops, over what the depth test says and how values are dumped inside a table.
module _ (php7 : Bool) (at_limit : ℕ → Bool) (dump : ℕ → Zval → Counts → Dump) where
  -- `append_flat_hash`, from an entry on; `first` is `i == 0`
  unfoldable pub dump_entries :
      (is_object : Bool) → ℕ → (first : Bool) → List (Key × Zval) → Counts → Dump
  dump_entries is_object depth first [] c = dumped [] c
  dump_entries is_object depth first ((k, v) ∷ es) c =
      if at_limit depth
      then dumped ellipsis c
      else if overreads php7 is_object k
      then overread
      else (dump depth v c >>= λ (t, c1).
          around
            ((if first then [] else codes ", ")
              ++ (b'[' ∷ append_key php7 is_object k)
              ++ codes "] => "
              ++ t)
            (dump_entries is_object depth false es c1) [] (λ c2. c2))

module _ (php7 : Bool) (at_limit : ℕ → Bool) (store : Store) (dump : ℕ → Zval → Counts → Dump) where
  -- the entries of a table, one level deeper
  abbrev pub dump_table : (is_object : Bool) → ℕ → ℕ → Counts → Dump
  dump_table is_object depth t c =
      dump_entries php7 at_limit dump is_object ((depth + 1) % 256) true (store.tables t).entries c

  -- `case IS_ARRAY` where the table is counted, and where it is not
  abbrev pub counted_array : ℕ → ℕ → Counts → Dump
  counted_array depth t c =
      if ltb 1 ((enter_table t c).tables t)
      then dumped (b'[' ∷ recursion) (leave_table t (enter_table t c))
      else around (b'[' ∷ []) (dump_table false depth t (enter_table t c)) (b']' ∷ [])
          (leave_table t)

  unfoldable pub dump_array : ℕ → ℕ → Counts → Dump
  unfolding dump_entries
  dump_array depth t c =
      if not php7 || (store.tables t).apply_protection
      then counted_array depth t c
      else around (b'[' ∷ []) (dump_table false depth t c) (b']' ∷ []) (λ c2. c2)

  -- `case IS_OBJECT`: PHP 7 counts at the object, PHP 5 at the table of its properties
  abbrev pub properties7 : Bytes → Option ℕ → ℕ → ℕ → Counts → Dump
  properties7 name none depth o c = dumped (name ++ b')' ∷ []) c
  properties7 name (some t) depth o c =
      around name (dump_table true depth t (enter_object o c)) (b')' ∷ []) (leave_object o)

  abbrev pub dump_object7 : Bytes → Option ℕ → ℕ → ℕ → Counts → Dump
  dump_object7 name properties depth o c =
      if ltb 0 (c.objects o)
      then dumped (name ++ recursion) c
      else properties7 name properties depth o c

  abbrev pub dump_object5 : Bytes → Option ℕ → ℕ → Counts → Dump
  dump_object5 name none depth c = dumped (name ++ b')' ∷ []) c
  dump_object5 name (some t) depth c =
      if ltb 1 ((enter_table t c).tables t)
      then dumped (name ++ recursion) (leave_table t (enter_table t c))
      else around name (dump_table true depth t (enter_table t c)) (b')' ∷ []) (leave_table t)

  unfoldable pub dump_object : ℕ → ℕ → Counts → Dump
  unfolding dump_entries
  dump_object depth o c =
      let obj = store.objects o in
      if php7
      then dump_object7 (heading7 obj.class_name) obj.properties depth o c
      else dump_object5 (heading obj.class_name) obj.properties depth c

  abbrev limited : ℕ → Counts → Dump → Dump
  limited depth c body = if at_limit depth then dumped ellipsis c else body

  -- `append_flat_zval_r`; a reference, which only PHP 7 has as a value, is followed at its depth
  unfoldable pub dump_zval : ℕ → Zval → Counts → Dump
  unfolding dump_array dump_object append_variable
  dump_zval depth (printable s) c = limited depth c (dumped (append_variable false s) c)
  dump_zval depth (string s) c = limited depth c (dumped (append_variable true s) c)
  dump_zval depth (array t) c = limited depth c (dump_array depth t c)
  dump_zval depth (object o) c = limited depth c (dump_object depth o c)
  dump_zval depth (reference v) c =
      limited depth c (around (if php7 then b'&' ∷ [] else []) (dump_zval depth v c) [] (λ c2. c2))

-- The recursion through tables.
unfoldable pub dump_fuel : Bool → (ℕ → Bool) → Store → ℕ → ℕ → Zval → Counts → Dump
unfolding dump_zval
dump_fuel php7 at_limit store zero depth v c = out_of_fuel
dump_fuel php7 at_limit store (suc f) depth v c =
    dump_zval php7 at_limit store (dump_fuel php7 at_limit store f) depth v c

-- `append_flat_zval_r` of an argument, at the depth 0
unfoldable pub append_flat_zval_r :
    (php7 : Bool) → (max_depth : ℤ) → Store → ℕ → Zval → Counts → Dump
unfolding dump_fuel reached
append_flat_zval_r php7 max_depth store f v c = dump_fuel php7 (reached max_depth) store f 0 v c
