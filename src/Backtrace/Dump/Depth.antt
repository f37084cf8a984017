-- ===== src/Backtrace/Dump/Depth.antt =====
-- The limit `apm.dump_max_depth` over the dump of a value, backtrace.c.
use php_apm.Common.{
  ℕ, zero, suc, ℤ, pos, negsuc, pos_part, ◌+◌, ◌%◌, ◌≤◌, ◌<◌, Bool, true, false, ◌||◌, not, ltb,
  if◌then◌else◌, Bytes, Option, none, some, List, [], ◌∷◌, ◌++◌, ◌≡◌, ◌≢◌, refl, fun_ext, arith, ap,
}
use php_apm.Backtrace.Value.{
  Zval, printable, string, array, object, reference, Key, Store, Counts, enter_table, leave_table,
  enter_object, leave_object,
}
use php_apm.Backtrace.Dump.{
  Dump, dumped, overread, out_of_fuel, ◌>>=◌, around, heading, heading7, overreads, dump_entries,
  dump_table, dump_array, properties7, dump_object5, dump_object, dump_zval, dump_fuel,
  append_flat_zval_r, reached, ellipsis, recursion,
}

-- A dump has a result, or in PHP 5 ends in a read past the end of an empty name.
abbrev pub Ends : (php7 : Bool) → Dump → Type 0
Ends php7 (dumped t c) = Unit
Ends true overread = ⊥
Ends false overread = Unit
Ends php7 out_of_fuel = ⊥

module _ (php7 : Bool) where
  pub Ends-around :
      (before after : Bytes) (leave : Counts → Counts) (d : Dump)
      → Ends php7 d
      → Ends php7 (around before d after leave)
  Ends-around before after leave (dumped t c) h = tt
  Ends-around before after leave overread h = h
  Ends-around before after leave out_of_fuel h = h

  pub Ends-bind :
      (d : Dump) (f : Bytes × Counts → Dump)
      → Ends php7 d
      → ((t : Bytes) (c : Counts) → Ends php7 (f (t, c)))
      → Ends php7 (d >>= f)
  Ends-bind (dumped t c) f h next = next t c
  Ends-bind overread f h next = h
  Ends-bind out_of_fuel f h next = h

  Ends-if :
      (b : Bool) (x y : Dump)
      → Ends php7 x
      → (b ≡ false → Ends php7 y)
      → Ends php7 (if b then x else y)
  Ends-if true x y h k = h
  Ends-if false x y h k = k refl

  Ends-if' : (b : Bool) (x y : Dump) → Ends php7 x → Ends php7 y → Ends php7 (if b then x else y)
  Ends-if' b x y h k = Ends-if b x y h λ _. k

-- Only PHP 5 reads on.
overreads-Ends :
    (php7 is_object : Bool) (k : Key) (d : Dump)
    → Ends php7 d
    → Ends php7 (if overreads php7 is_object k then overread else d)
overreads-Ends true is_object k d h = h
overreads-Ends false is_object k d h =
    Ends-if false (overreads false is_object k) overread d tt λ _. h

module _ (php7 : Bool) (at_limit : ℕ → Bool) (dump : ℕ → Zval → Counts → Dump) (depth : ℕ) where
  dump_entries-Ends :
      ((v : Zval) (c : Counts) → Ends php7 (dump depth v c))
      → (is_object first : Bool) (es : List (Key × Zval)) (c : Counts)
      → Ends php7 (dump_entries php7 at_limit dump is_object depth first es c)
  unfolding dump_entries
  dump_entries-Ends ends is_object first [] c = tt
  dump_entries-Ends ends is_object first ((k, v) ∷ es) c =
      Ends-if php7 (at_limit depth) (dumped ellipsis c) _ tt λ _.
        overreads-Ends php7 is_object k _ (
          Ends-bind php7 (dump depth v c) _ (ends v c) λ t c1.
            Ends-around php7 _ _ (λ c2. c2) _ (dump_entries-Ends ends is_object false es c1))

module _ (php7 : Bool) (at_limit : ℕ → Bool) (store : Store) (dump : ℕ → Zval → Counts → Dump)
    (depth : ℕ) where
  abbrev Deeper : Type 0
  Deeper = (v : Zval) (c : Counts) → Ends php7 (dump ((depth + 1) % 256) v c)

  dump_array-Ends :
      Deeper → (t : ℕ) (c : Counts) → Ends php7 (dump_array php7 at_limit store dump depth t c)
  unfolding dump_array
  dump_array-Ends ends t c =
      Ends-if' php7 (not php7 || (store.tables t).apply_protection) _ _
        (Ends-if php7 (ltb 1 ((enter_table t c).tables t)) (dumped (b'[' ∷ recursion) _) _ tt λ _.
          Ends-around php7 (b'[' ∷ []) (b']' ∷ []) (leave_table t) _ (entries (enter_table t c)))
        (Ends-around php7 (b'[' ∷ []) (b']' ∷ []) (λ c2. c2) _ (entries c))
    where
      entries : (c : Counts) → Ends php7 (dump_table php7 at_limit store dump false depth t c)
      entries c =
          dump_entries-Ends php7 at_limit dump ((depth + 1) % 256) ends false true
            (store.tables t).entries c

  properties7-Ends :
      Deeper
      → (name : Bytes) (properties : Option ℕ) (o : ℕ) (c : Counts)
      → Ends php7 (properties7 php7 at_limit store dump name properties depth o c)
  properties7-Ends ends name none o c = tt
  properties7-Ends ends name (some t) o c = Ends-around php7 name (b')' ∷ []) (leave_object o) _ (
      dump_entries-Ends php7 at_limit dump ((depth + 1) % 256) ends true true
        (store.tables t).entries (enter_object o c))

  dump_object5-Ends :
      Deeper
      → (name : Bytes) (properties : Option ℕ) (c : Counts)
      → Ends php7 (dump_object5 php7 at_limit store dump name properties depth c)
  dump_object5-Ends ends name none c = tt
  dump_object5-Ends ends name (some t) c =
      Ends-if php7 (ltb 1 ((enter_table t c).tables t)) (dumped (name ++ recursion) _) _ tt λ _.
        Ends-around php7 name (b')' ∷ []) (leave_table t) _ (
          dump_entries-Ends php7 at_limit dump ((depth + 1) % 256) ends true true
            (store.tables t).entries (enter_table t c))

  dump_object-Ends :
      Deeper → (o : ℕ) (c : Counts) → Ends php7 (dump_object php7 at_limit store dump depth o c)
  unfolding dump_object
  dump_object-Ends ends o c =
      let obj = store.objects o in
      let name = heading7 obj.class_name in
      Ends-if' php7 php7 _ _
        (Ends-if php7 (ltb 0 (c.objects o)) (dumped (name ++ recursion) c) _ tt
          λ _. properties7-Ends ends name obj.properties o c)
        (dump_object5-Ends ends (heading obj.class_name) obj.properties c)

  dump_zval-Ends :
      (at_limit depth ≡ false → Deeper)
      → (v : Zval) (c : Counts) → Ends php7 (dump_zval php7 at_limit store dump depth v c)
  unfolding dump_zval
  dump_zval-Ends ends (printable s) c =
      Ends-if php7 (at_limit depth) (dumped ellipsis c) _ tt λ _. tt
  dump_zval-Ends ends (string s) c = Ends-if php7 (at_limit depth) (dumped ellipsis c) _ tt λ _. tt
  dump_zval-Ends ends (array t) c =
      Ends-if php7 (at_limit depth) (dumped ellipsis c) _ tt λ go. dump_array-Ends (ends go) t c
  dump_zval-Ends ends (object o) c =
      Ends-if php7 (at_limit depth) (dumped ellipsis c) _ tt λ go. dump_object-Ends (ends go) o c
  dump_zval-Ends ends (reference v) c =
      Ends-if php7 (at_limit depth) (dumped ellipsis c) _ tt
        λ _. Ends-around php7 _ _ (λ c2. c2) _ (dump_zval-Ends ends v c)

-- Below 128 the test says what it seems to say.
reached-lt :
    (max_depth : ℤ) (d : ℕ)
    → pos_part max_depth ≤ 127
    → d ≤ 127
    → reached max_depth d ≡ false
    → d < pos_part max_depth
unfolding reached
reached-lt (pos k) d small low go = ground arith
reached-lt (negsuc k) d small low go = ground arith

pub dump_fuel-Ends :
    (php7 : Bool) (max_depth : ℤ) (store : Store) (f depth : ℕ) (v : Zval) (c : Counts)
    → pos_part max_depth ≤ 127
    → depth ≤ pos_part max_depth
    → pos_part max_depth < depth + f
    → Ends php7 (dump_fuel php7 (reached max_depth) store f depth v c)
unfolding dump_fuel
dump_fuel-Ends php7 max_depth store zero depth v c small low fuel = absurd (omega arith)
dump_fuel-Ends php7 max_depth store (suc f) depth v c small low fuel =
    dump_zval-Ends php7 (reached max_depth) store (dump_fuel php7 (reached max_depth) store f) depth
      (λ go v' c'.
        let lt : depth < pos_part max_depth = reached-lt max_depth depth small (omega arith) go in
        dump_fuel-Ends php7 max_depth store f ((depth + 1) % 256) v' c' small (omega arith)
          (omega arith))
      v c

Ends-ne : (php7 : Bool) (d : Dump) → Ends php7 d → d ≢ out_of_fuel
Ends-ne php7 (dumped t c) h e = cc
Ends-ne php7 overread h e = cc
Ends-ne php7 out_of_fuel h e = h

dumped_if : (d : Dump) → Ends true d → (t : Bytes) × (c : Counts) × (d ≡ dumped t c)
dumped_if (dumped t c) h = (t, c, refl)
dumped_if overread h = absurd h
dumped_if out_of_fuel h = absurd h

-- With a limit of 127 at most, also a negative one, the dump of every value ends, however deep the
-- value is and also where it leads back to itself: a nesting of `max_depth + 1` calls is enough.
pub append_flat_zval_r-ends :
    (php7 : Bool) (max_depth : ℤ) (store : Store) (f : ℕ) (v : Zval) (c : Counts)
    → pos_part max_depth ≤ 127
    → pos_part max_depth < f
    → append_flat_zval_r php7 max_depth store f v c ≢ out_of_fuel
unfolding append_flat_zval_r
append_flat_zval_r-ends php7 max_depth store f v c small fuel =
    Ends-ne php7 _ (dump_fuel-Ends php7 max_depth store f 0 v c small (omega arith) (omega arith))

never_reached : (k d : ℕ) → 128 ≤ k → reached (pos k) d ≡ false
unfolding reached
never_reached k d h = ground arith

-- A limit of 128 or more is no limit: the depth is counted in a `char`, which never gets there, and
-- every value is dumped as if the test for the depth were not made at all.
pub append_flat_zval_r-unlimited :
    (php7 : Bool) (k : ℕ) (store : Store) (f : ℕ) (v : Zval) (c : Counts)
    → 128 ≤ k
    → append_flat_zval_r php7 (pos k) store f v c ≡ dump_fuel php7 (λ d. false) store f 0 v c
unfolding append_flat_zval_r
append_flat_zval_r-unlimited php7 k store f v c h =
    ap (λ at_limit. dump_fuel php7 at_limit store f 0 v c) (fun_ext λ d. never_reached k d h)
