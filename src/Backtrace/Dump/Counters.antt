-- ===== src/Backtrace/Dump/Counters.antt =====
-- The engine's counters over the dump of a value, backtrace.c.
use php_apm.Common.{
  ℕ, zero, suc, ℤ, Bool, true, false, ◌||◌, not, ltb, if◌then◌else◌, Bytes, Option, none, some,
  List, [], ◌∷◌, ◌≡◌, refl, fun_ext, arith, ◌∙◌, ap, ◌++◌,
}
use php_apm.Backtrace.Value.{
  Zval, printable, string, array, object, reference, Key, Store, Counts, enter_table, leave_table,
  enter_object, leave_object,
}
use php_apm.Backtrace.Dump.{
  Dump, dumped, overread, out_of_fuel, ◌>>=◌, around, heading, heading7, overreads, dump_entries,
  counted_array, dump_array, properties7, dump_object5, ellipsis, recursion, reached, dump_object,
  dump_zval, dump_fuel, append_flat_zval_r,
}

leave_table-enter_table : (t : ℕ) (c : Counts) → leave_table t (enter_table t c) ≡ c
leave_table-enter_table t c =
    let same = fun_ext λ a. counted t a c in λ i. record c { tables = same i }
  where
    counted : (t a : ℕ) (c : Counts) → (leave_table t (enter_table t c)).tables a ≡ c.tables a
    counted t a c = ground arith

leave_object-enter_object : (o : ℕ) (c : Counts) → leave_object o (enter_object o c) ≡ c
leave_object-enter_object o c =
    let same = fun_ext λ a. counted o a c in λ i. record c { objects = same i }
  where
    counted : (o a : ℕ) (c : Counts) → (leave_object o (enter_object o c)).objects a ≡ c.objects a
    counted o a c = ground arith

-- A dump from the counters `c` ends at those, if it ends.
abbrev pub Restores : Counts → Dump → Type 0
Restores c (dumped t c') = c' ≡ c
Restores c overread = Unit
Restores c out_of_fuel = Unit

pub Restores-around :
    (before after : Bytes) (leave : Counts → Counts) (c0 c : Counts) (d : Dump)
    → Restores c0 d
    → leave c0 ≡ c
    → Restores c (around before d after leave)
Restores-around before after leave c0 c (dumped t c') h e = ap leave h ∙ e
Restores-around before after leave c0 c overread h e = tt
Restores-around before after leave c0 c out_of_fuel h e = tt

pub Restores-bind :
    (c : Counts) (d : Dump) (f : Bytes × Counts → Dump)
    → Restores c d
    → ((t : Bytes) (c1 : Counts) → c1 ≡ c → Restores c (f (t, c1)))
    → Restores c (d >>= f)
Restores-bind c (dumped t c1) f h next = next t c1 h
Restores-bind c overread f h next = tt
Restores-bind c out_of_fuel f h next = tt

Restores-if :
    (c : Counts) (b : Bool) (x y : Dump)
    → Restores c x
    → Restores c y
    → Restores c (if b then x else y)
Restores-if c true x y h k = h
Restores-if c false x y h k = k

module _ (php7 : Bool) (at_limit : ℕ → Bool) (dump : ℕ → Zval → Counts → Dump)
    (keeps : (d : ℕ) (v : Zval) (c : Counts) → Restores c (dump d v c)) where
  dump_entries-Restores :
      (is_object : Bool) (depth : ℕ) (first : Bool) (es : List (Key × Zval)) (c : Counts)
      → Restores c (dump_entries php7 at_limit dump is_object depth first es c)
  unfolding dump_entries
  dump_entries-Restores is_object depth first [] c = refl
  dump_entries-Restores is_object depth first ((k, v) ∷ es) c =
      Restores-if c (at_limit depth) (dumped ellipsis c) _ refl (
        Restores-if c (overreads php7 is_object k) overread _ tt (
          Restores-bind c (dump depth v c) _ (keeps depth v c) λ t c1 e. rw e (
            Restores-around _ _ (λ c2. c2) c c _ (dump_entries-Restores is_object depth false es c)
              refl)))

  module _ (store : Store) where
    counted_array-Restores :
        (depth t : ℕ) (c : Counts) → Restores c (counted_array php7 at_limit store dump depth t c)
    counted_array-Restores depth t c =
        let c1 = enter_table t c in
        Restores-if c (ltb 1 (c1.tables t)) (dumped (b'[' ∷ recursion) (leave_table t c1)) _
          (leave_table-enter_table t c)
          (Restores-around (b'[' ∷ []) (b']' ∷ []) (leave_table t) c1 c _
            (dump_entries-Restores false _ true (store.tables t).entries c1)
            (leave_table-enter_table t c))

    dump_array-Restores :
        (depth t : ℕ) (c : Counts) → Restores c (dump_array php7 at_limit store dump depth t c)
    unfolding dump_array
    dump_array-Restores depth t c =
        Restores-if c (not php7 || (store.tables t).apply_protection) _ _
          (counted_array-Restores depth t c)
          (Restores-around (b'[' ∷ []) (b']' ∷ []) (λ c2. c2) c c _
            (dump_entries-Restores false _ true (store.tables t).entries c) refl)

    properties7-Restores :
        (name : Bytes) (properties : Option ℕ) (depth o : ℕ) (c : Counts)
        → Restores c (properties7 php7 at_limit store dump name properties depth o c)
    properties7-Restores name none depth o c = refl
    properties7-Restores name (some t) depth o c =
        Restores-around name (b')' ∷ []) (leave_object o) (enter_object o c) c _
          (dump_entries-Restores true _ true (store.tables t).entries (enter_object o c))
          (leave_object-enter_object o c)

    dump_object5-Restores :
        (name : Bytes) (properties : Option ℕ) (depth : ℕ) (c : Counts)
        → Restores c (dump_object5 php7 at_limit store dump name properties depth c)
    dump_object5-Restores name none depth c = refl
    dump_object5-Restores name (some t) depth c =
        let c1 = enter_table t c in
        Restores-if c (ltb 1 (c1.tables t)) (dumped (name ++ recursion) (leave_table t c1)) _
          (leave_table-enter_table t c)
          (Restores-around name (b')' ∷ []) (leave_table t) c1 c _
            (dump_entries-Restores true _ true (store.tables t).entries c1)
            (leave_table-enter_table t c))

    dump_object-Restores :
        (depth o : ℕ) (c : Counts) → Restores c (dump_object php7 at_limit store dump depth o c)
    unfolding dump_object
    dump_object-Restores depth o c =
        let obj = store.objects o in
        let name = heading7 obj.class_name in
        Restores-if c php7 _ _
          (Restores-if c (ltb 0 (c.objects o)) (dumped (name ++ recursion) c) _ refl
            (properties7-Restores name obj.properties depth o c))
          (dump_object5-Restores (heading obj.class_name) obj.properties depth c)

    dump_zval-Restores :
        (depth : ℕ) (v : Zval) (c : Counts)
        → Restores c (dump_zval php7 at_limit store dump depth v c)
    unfolding dump_zval
    dump_zval-Restores depth (printable s) c =
        Restores-if c (at_limit depth) (dumped ellipsis c) _ refl refl
    dump_zval-Restores depth (string s) c =
        Restores-if c (at_limit depth) (dumped ellipsis c) _ refl refl
    dump_zval-Restores depth (array t) c =
        Restores-if c (at_limit depth) (dumped ellipsis c) _ refl (dump_array-Restores depth t c)
    dump_zval-Restores depth (object o) c =
        Restores-if c (at_limit depth) (dumped ellipsis c) _ refl (dump_object-Restores depth o c)
    dump_zval-Restores depth (reference v) c =
        Restores-if c (at_limit depth) (dumped ellipsis c) _ refl
          (Restores-around _ _ (λ c2. c2) c c _ (dump_zval-Restores depth v c) refl)

pub dump_fuel-Restores :
    (php7 : Bool) (at_limit : ℕ → Bool) (store : Store) (f depth : ℕ) (v : Zval) (c : Counts)
    → Restores c (dump_fuel php7 at_limit store f depth v c)
unfolding dump_fuel
dump_fuel-Restores php7 at_limit store zero depth v c = tt
dump_fuel-Restores php7 at_limit store (suc f) depth v c =
    dump_zval-Restores php7 at_limit (dump_fuel php7 at_limit store f)
      (dump_fuel-Restores php7 at_limit store f) store depth v c

Restores-dumped : {c c' : Counts} {t : Bytes} (d : Dump) → Restores c d → d ≡ dumped t c' → c' ≡ c
Restores-dumped (dumped t c1) h e = cc (h, e)
Restores-dumped overread h e = cc
Restores-dumped out_of_fuel h e = cc

-- Whatever a value leads to, also back to itself, the counters by which the engine guards against
-- endless recursion are the same after a dump as before it, on every return path, in both versions.
pub append_flat_zval_r-keeps_counts :
    (php7 : Bool) (max_depth : ℤ) (store : Store) (f : ℕ) (v : Zval) (c c' : Counts) (t : Bytes)
    → append_flat_zval_r php7 max_depth store f v c ≡ dumped t c'
    → c' ≡ c
unfolding append_flat_zval_r
append_flat_zval_r-keeps_counts php7 max_depth store f v c c' t =
    Restores-dumped _ (dump_fuel-Restores php7 (reached max_depth) store f 0 v c)
