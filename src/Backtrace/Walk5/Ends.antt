-- ===== src/Backtrace/Walk5/Ends.antt =====
-- The walk over the frames in backtrace.c to its end, in PHP 5.
use php_apm.Common.{
  ℕ, zero, suc, ℤ, pos_part, ◌+◌, ◌≤◌, ◌<◌, Bool, true, false, if◌then◌else◌, Bytes, codes, Option,
  none, some, [], ◌≡◌, ◌≢◌, refl, arith,
}
use php_apm.Backtrace.Value.{Zval, Store, Counts}
use php_apm.Backtrace.Dump.{Dump, append_flat_zval_r}
use php_apm.Backtrace.Dump.Depth.{dump_fuel-Ends}
use php_apm.Backtrace.Chain.{Within, prev-Within}
use php_apm.Backtrace.Frame.{Called, Opline}
use php_apm.Backtrace.Walk.{
  Walk, walked, walk_overread, walk_out_of_fuel, LineEnd, line_end, from_frame,
}
use php_apm.Backtrace.Walk.Ends.{Returns, Found, DumpsAll, line-Returns}
use php_apm.Backtrace.Walk5.{
  Engine5, called5, in_other_function, placed_or, skip_to5, skip_from, skip_internal5, search5,
  end_of5, line5, walk5, append_backtrace5,
}

abbrev FoundOr : Option LineEnd → Type 0
FoundOr none = Unit
FoundOr (some e) = Found e

FoundOr-if :
    (b : Bool) (x y : Option LineEnd) → FoundOr x → FoundOr y → FoundOr (if b then x else y)
FoundOr-if true x y h k = h
FoundOr-if false x y h k = k

placed_or-FoundOr :
    (rest : Option LineEnd) (file : Option Bytes) (o : Option Opline)
    → FoundOr rest
    → FoundOr (placed_or rest file o)
placed_or-FoundOr rest none o h = h
placed_or-FoundOr rest (some file) none h = tt
placed_or-FoundOr rest (some file) (some opline) h = tt

module _ (engine : Engine5) (distance : ℕ → ℕ)
    (chain : (p q : ℕ)
      → (engine.execute_data p).prev_execute_data ≡ some q
      → distance q < distance p) where
  abbrev prev_of : ℕ → Option ℕ
  prev_of p = (engine.execute_data p).prev_execute_data

  skip_to5-le :
      (p : ℕ) (o : Option ℕ)
      → (engine.execute_data p).prev_execute_data ≡ o
      → distance (skip_to5 engine p o) ≤ distance p
  skip_to5-le p none e = omega arith
  skip_to5-le p (some q) e = let lt = chain p q e in ground arith

  skip_from-le :
      (p : ℕ) (file : Option Bytes)
      → distance (skip_from engine p (engine.execute_data p).prev_execute_data file) ≤ distance p
  skip_from-le p none = skip_to5-le p (engine.execute_data p).prev_execute_data refl
  skip_from-le p (some file) = omega arith

  search5-FoundOr :
      (f : ℕ) (prev : Option ℕ) → Within prev_of distance f prev → FoundOr (search5 engine f prev)
  unfolding search5
  search5-FoundOr f none h = tt
  search5-FoundOr zero (some p) h = absurd (omega arith)
  search5-FoundOr (suc f) (some p) h =
      let prev = engine.execute_data p in
      FoundOr-if (in_other_function prev.function) (some (line_end (codes ")\n") [])) _ tt (
        placed_or-FoundOr _ prev.op_array prev.opline (
          search5-FoundOr f prev.prev_execute_data
            (prev-Within prev_of distance chain p f prev.prev_execute_data refl (omega arith))))

  module _ (dump : Zval → Counts → Dump) (ends : DumpsAll false dump) where
    line5-Returns :
        (indent : ℕ) (call : Option Called) (e : Option LineEnd) (c : Counts) (k : Counts → Walk)
        → FoundOr e
        → ((c' : Counts) → Returns false (k c'))
        → Returns false (line5 engine dump indent call e c k)
    line5-Returns indent (some call) (some e) c k found next =
        line-Returns false dump indent call e c k ends found next
    line5-Returns indent none e c k found next = tt
    line5-Returns indent (some call) none c k found next = tt

    walk5-Returns :
        (f : ℕ) (ptr : Option ℕ) (file : Option Bytes) (indent : ℕ) (c : Counts)
        → Within prev_of distance f ptr
        → Returns false (walk5 engine dump f ptr file indent c)
    unfolding walk5
    walk5-Returns f none file indent c h = tt
    walk5-Returns zero (some p) file indent c h = absurd (omega arith)
    walk5-Returns (suc f) (some p) file indent c h =
        let s = skip_internal5 engine p in
        let skip = engine.execute_data s in
        let le : distance s ≤ distance p = skip_from-le p (engine.execute_data p).op_array in
        line5-Returns indent (called5 (engine.execute_data p) file) (end_of5 engine f skip) c _
          (placed_or-FoundOr _ skip.op_array skip.opline (
            search5-FoundOr f skip.prev_execute_data (
              prev-Within prev_of distance chain s f skip.prev_execute_data refl
                (omega (arith, le, h)))))
          λ c'. walk5-Returns f skip.prev_execute_data skip.op_array (indent + 1) c' (
            prev-Within prev_of distance chain s f skip.prev_execute_data refl
              (omega (arith, le, h)))

Returns-ne : (w : Walk) → Returns false w → w ≢ walk_out_of_fuel
Returns-ne (walked t out c) h e = cc
Returns-ne walk_overread h e = cc
Returns-ne walk_out_of_fuel h e = h

-- In PHP 5 `append_backtrace` ends where the chain of frames does and the limit for the depth is 127 at
-- most, whatever the frames and their arguments are.
pub append_backtrace5_ends :
    (engine : Engine5) (distance : ℕ → ℕ) (max_depth : ℤ) (store : Store) (f : ℕ) (c : Counts)
    → ((p q : ℕ) → (engine.execute_data p).prev_execute_data ≡ some q → distance q < distance p)
    → ((p : ℕ) → engine.current_execute_data ≡ some p → distance p < f)
    → pos_part max_depth ≤ 127
    → pos_part max_depth < f
    → append_backtrace5 engine max_depth store f c ≢ walk_out_of_fuel
unfolding append_backtrace5 append_flat_zval_r
append_backtrace5_ends engine distance max_depth store f c chain near small fuel =
    Returns-ne _ (starts engine.current_execute_data near)
  where
    starts :
        (o : Option ℕ)
        → ((p : ℕ) → o ≡ some p → distance p < f)
        → Returns false (
            from_frame
              (λ p. walk5 engine (append_flat_zval_r false max_depth store f) f (some p) none 0 c)
              o
              c)
    starts none near = tt
    starts (some p) near =
        walk5-Returns engine distance chain (append_flat_zval_r false max_depth store f)
          (λ v c'. dump_fuel-Ends false max_depth store f 0 v c' small (omega arith) (omega arith))
          f (some p) none 0 c (near p refl)
