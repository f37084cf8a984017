-- ===== src/Backtrace/Walk/Ends.antt =====
-- The walk over the frames in backtrace.c to its end.
use php_apm.Common.{
  ℕ, zero, suc, ℤ, pos_part, ◌+◌, ◌≤◌, ◌<◌, codes, Bool, true, false, if◌then◌else◌, Bytes, Option,
  none, some, List, [], ◌∷◌, ◌++◌, ◌≡◌, refl, arith,
}
use php_apm.Backtrace.Value.{Zval, Store, Counts}
use php_apm.Backtrace.Dump.{Dump, dumped, overread, out_of_fuel, append_flat_zval_r}
use php_apm.Backtrace.Dump.Depth.{Ends, Ends-around, Ends-bind, dump_fuel-Ends}
use php_apm.Backtrace.Chain.{Within, prev-Within}
use php_apm.Backtrace.Frame.{ExecuteData, Engine, Called, called, in_internal_code, Function}
use php_apm.Backtrace.Walk.{
  Walk, walked, walk_overread, walk_out_of_fuel, line_then, behind, debug_print_backtrace_args,
  print_args, skip_internal, skip_to, place, LineEnd, line_end, search_out_of_fuel, search,
  place_func, at_place, from_frame, end_of, file_of, line, walk, append_backtrace, number_text,
  call_text,
}

-- The chain of frames ends: a frame's predecessor is nearer to the end, and what the engine puts in the
-- place of a generator's frame is not farther from it.
pub record EndsBy (engine : Engine) (distance : ℕ → ℕ) : Type 0 where
  pub prev :
      (p q : ℕ) → (engine.execute_data p).prev_execute_data ≡ some q → distance q < distance p
  pub placeholder : (p : ℕ) → distance (engine.check_placeholder_frame p) ≤ distance p

-- A walk has a result, or in PHP 5 reads what is not there.
abbrev pub Returns : (php7 : Bool) → Walk → Type 0
Returns php7 (walked t out c) = Unit
Returns true walk_overread = ⊥
Returns false walk_overread = Unit
Returns php7 walk_out_of_fuel = ⊥

abbrev pub Found : LineEnd → Type 0
Found (line_end t out) = Unit
Found search_out_of_fuel = ⊥

pub Found-if : (b : Bool) (x y : LineEnd) → Found x → Found y → Found (if b then x else y)
Found-if true x y h k = h
Found-if false x y h k = k

abbrev pub DumpsAll : (php7 : Bool) → (Zval → Counts → Dump) → Type 0
DumpsAll php7 dump = (v : Zval) (c : Counts) → Ends php7 (dump v c)

args-Ends :
    (php7 : Bool)
    → (dump : Zval → Counts → Dump) → DumpsAll php7 dump
    → (first : Bool) (vs : List Zval) (c : Counts)
    → Ends php7 (debug_print_backtrace_args dump first vs c)
unfolding debug_print_backtrace_args
args-Ends php7 dump ends first [] c = tt
args-Ends php7 dump ends first (v ∷ vs) c =
    Ends-bind php7 (dump v c) _ (ends v c)
      λ t c1. Ends-around php7 _ _ (λ c2. c2) _ (args-Ends php7 dump ends false vs c1)

pub print_args-Ends :
    (php7 : Bool)
    → (dump : Zval → Counts → Dump) → DumpsAll php7 dump
    → (args : Option (List Zval)) (c : Counts) → Ends php7 (print_args dump args c)
print_args-Ends php7 dump ends none c = tt
print_args-Ends php7 dump ends (some vs) c = args-Ends php7 dump ends true vs c

behind-Returns :
    (php7 : Bool) → (t out : Bytes) (w : Walk) → Returns php7 w → Returns php7 (behind t out w)
behind-Returns php7 t out (walked t' out' c) h = tt
behind-Returns php7 t out walk_overread h = h
behind-Returns php7 t out walk_out_of_fuel h = h

overread-Returns : (php7 : Bool) → Ends php7 overread → Returns php7 walk_overread
overread-Returns true h = h
overread-Returns false h = h

line_then-Returns :
    (php7 : Bool)
    → (d : Dump) (out : Bytes) (k : Counts → Walk) → Ends php7 d
    → ((c : Counts) → Returns php7 (k c))
    → Returns php7 (line_then d out k)
line_then-Returns php7 (dumped t c) out k h next = behind-Returns php7 t out (k c) (next c)
line_then-Returns php7 overread out k h next = overread-Returns php7 h
line_then-Returns php7 out_of_fuel out k h next = h

pub line-Returns :
    (php7 : Bool)
    → (dump : Zval → Counts → Dump) (indent : ℕ) (call : Called) (e : LineEnd) (c : Counts)
      (k : Counts → Walk)
    → DumpsAll php7 dump
    → Found e
    → ((c' : Counts) → Returns php7 (k c'))
    → Returns php7 (line dump indent call e c k)
line-Returns php7 dump indent call search_out_of_fuel c k ends found next = found
line-Returns php7 dump indent call (line_end t out) c k ends found next =
    line_then-Returns php7 _ out k
      (Ends-around php7 (number_text indent ++ call_text call) t (λ c2. c2) _
        (print_args-Ends php7 dump ends call.arg_array c))
      next

module _ (engine : Engine) (distance : ℕ → ℕ) (chain : EndsBy engine distance) where
  abbrev prev_of : ℕ → Option ℕ
  prev_of p = (engine.execute_data p).prev_execute_data

  skip_to-le :
      (p : ℕ) (o : Option ℕ)
      → (engine.execute_data p).prev_execute_data ≡ o
      → distance (skip_to engine p o) ≤ distance p
  skip_to-le p none e = omega arith
  skip_to-le p (some q) e = let lt = chain.prev p q e in ground arith

  skip_internal-le : (p : ℕ) → distance (skip_internal engine p) ≤ distance p
  unfolding skip_internal
  skip_internal-le p =
      let le = skip_to-le p (engine.execute_data p).prev_execute_data refl in ground arith

  at_place-Found :
      (lineno : ℕ) (rest : LineEnd) (o : Option Function)
      → Found rest
      → Found (at_place engine lineno rest o)
  at_place-Found lineno rest none h = h
  at_place-Found lineno rest (some func) h = tt

  search-Found :
      (f : ℕ) (prev_call : ExecuteData) (prev : Option ℕ)
      → Within prev_of distance f prev
      → Found (search engine f prev_call prev)
  unfolding search
  search-Found f prev_call none h = tt
  search-Found zero prev_call (some p) h = absurd (omega arith)
  search-Found (suc f) prev_call (some p) h =
      let prev = engine.execute_data p in
      let rest =
        search-Found f prev prev.prev_execute_data
          (prev-Within prev_of distance chain.prev p f prev.prev_execute_data refl (omega arith)) in
      Found-if (in_internal_code prev_call.func) (line_end (codes ")\n") []) _ tt
        (at_place-Found prev.opline.lineno _ (place_func engine prev.func) rest)

  end_of-Found :
      (f p : ℕ) (o : Option (Bytes × ℕ))
      → distance p ≤ f
      → Found (end_of engine f (engine.execute_data p) o)
  end_of-Found f p none h =
      search-Found f (engine.execute_data p) (engine.execute_data p).prev_execute_data
        (prev-Within prev_of distance chain.prev p f _ refl h)
  end_of-Found f p (some (file, lineno)) h = tt

  module _ (dump : Zval → Counts → Dump) (ends : DumpsAll true dump) where
    walk-Returns :
        (f : ℕ) (ptr : Option ℕ) (call : ℕ) (file : Option Bytes) (indent : ℕ) (c : Counts)
        → Within prev_of distance f ptr
        → Returns true (walk engine dump f ptr call file indent c)
    unfolding walk
    walk-Returns f none call file indent c h = tt
    walk-Returns zero (some p) call file indent c h = absurd (omega arith)
    walk-Returns (suc f) (some p) call file indent c h =
        let ptr = engine.check_placeholder_frame p in
        let s = skip_internal engine ptr in
        let skip = engine.execute_data s in
        let near : distance s ≤ f = omega (arith, skip_internal-le ptr, chain.placeholder p, h) in
        line-Returns true dump indent
          (called engine (engine.execute_data ptr) (engine.execute_data call) file)
          (end_of engine f skip (place engine skip)) c _ ends
          (end_of-Found f s (place engine skip) near)
          λ c'.
            walk-Returns f skip.prev_execute_data s (file_of engine (place engine skip))
              (indent + 1) c'
              (prev-Within prev_of distance chain.prev s f skip.prev_execute_data refl near)

walked_if : (w : Walk) → Returns true w → (t out : Bytes) × (c : Counts) × (w ≡ walked t out c)
walked_if (walked t out c) h = (t, out, c, refl)
walked_if walk_overread h = absurd h
walked_if walk_out_of_fuel h = absurd h

-- Where the chain of frames ends and the limit for the depth is 127 at most, `append_backtrace` returns
-- with a trace, whatever the frames and their arguments are: the distance of the first frame from the
-- end of the chain, and the limit, bound its loops and calls.
pub append_backtrace_returns :
    (engine : Engine) (distance : ℕ → ℕ) (max_depth : ℤ) (store : Store) (f : ℕ) (c : Counts)
    → EndsBy engine distance
    → ((p : ℕ) → engine.current_execute_data ≡ some p → distance p < f)
    → pos_part max_depth ≤ 127
    → pos_part max_depth < f
    → (trace printed : Bytes) × (c' : Counts) × (append_backtrace engine max_depth store f c
        ≡ walked trace printed c')
unfolding append_backtrace append_flat_zval_r
append_backtrace_returns engine distance max_depth store f c chain near small fuel =
    walked_if _ (starts engine.current_execute_data near)
  where
    starts :
        (o : Option ℕ)
        → ((p : ℕ) → o ≡ some p → distance p < f)
        → Returns true (
            from_frame
              (λ p. walk engine (append_flat_zval_r true max_depth store f) f (some p) p none 0 c)
              o
              c)
    starts none near = tt
    starts (some p) near =
        walk-Returns engine distance chain (append_flat_zval_r true max_depth store f)
          (λ v c'. dump_fuel-Ends true max_depth store f 0 v c' small (omega arith) (omega arith)) f
          (some p) p none 0 c (near p refl)
