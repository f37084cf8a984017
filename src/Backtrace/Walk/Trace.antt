-- ===== src/Backtrace/Walk/Trace.antt =====
-- What `append_backtrace` of backtrace.c appends and prints.
use php_apm.Common.{
  ℕ, zero, suc, ℤ, Bool, true, false, not, if◌then◌else◌, Bytes, codes, is_some, Option, none, some,
  List, [], ◌≡◌, ◌⊎◌, inl, inr, refl, ◌∙◌, ap, subst, All, Bool-cases,
}
use php_apm.Backtrace.Value.{Zval, Store, Counts}
use php_apm.Backtrace.Dump.{Dump, append_flat_zval_r, reached}
use php_apm.Backtrace.Dump.Counters.{dump_fuel-Restores}
use php_apm.Backtrace.Frame.{ExecuteData, Engine, in_internal_code, user_code, Function}
use php_apm.Backtrace.Walk.{
  walked, place, place_in, LineEnd, line_end, search_out_of_fuel, search, place_func, at_place,
  end_of, walk, from_frame, append_backtrace, place_text,
}
use php_apm.Backtrace.Walk.Lines.{
  Line, numbered, all_printed, EndOf, IsTrace, IsLinesFrom, walk-IsTrace, all-IsEnd,
  silent-all_printed,
}

-- A frame on the chain that begins with `prev`.
pub data Behind (engine : Engine) : (prev : Option ℕ) → ℕ → Type 0 where
  here : (p : ℕ) → Behind engine (some p) p
  further :
      (p q : ℕ)
      → Behind engine (engine.execute_data p).prev_execute_data q
      → Behind engine (some p) q

-- The end of a line without a place of its own: none; or the place of a frame of user code behind is
-- printed, and the trace has nothing, not even the end of the line.
abbrev pub IsUnplaced : Engine → Option ℕ → (appended printed : Bytes) → Type 0
IsUnplaced engine prev appended printed =
    ((appended ≡ codes ")\n") × (printed ≡ []))
    ⊎ ((q : ℕ) × (func : Function) × Behind engine prev q
        × ((engine.execute_data q).func ≡ some func)
        × (user_code func.type ≡ true)
        × (appended ≡ [])
        × (printed ≡ place_text func.filename (engine.execute_data q).opline.lineno))

abbrev IsEndAt : Engine → ExecuteData → Option (Bytes × ℕ) → (appended printed : Bytes) → Type 0
IsEndAt engine skip (some (filename, lineno)) appended printed =
    (appended ≡ place_text filename lineno) × (printed ≡ [])
IsEndAt engine skip none appended printed =
    IsUnplaced engine skip.prev_execute_data appended printed

-- The end of the line of a frame: the place of its call, if the frame has one.
abbrev pub IsLineEnd : Engine → ExecuteData → (appended printed : Bytes) → Type 0
IsLineEnd engine skip = IsEndAt engine skip (place engine skip)

module _ (engine : Engine) where
  EndOf-if :
      (IsEnd : (appended printed : Bytes) → Type 0) (b : Bool) (x y : LineEnd)
      → EndOf IsEnd x
      → EndOf IsEnd y
      → EndOf IsEnd (if b then x else y)
  EndOf-if IsEnd true x y h k = h
  EndOf-if IsEnd false x y h k = k

  -- What is found from the frame before on.
  behind-EndOf :
      (p : ℕ) (e : LineEnd)
      → EndOf (IsUnplaced engine (engine.execute_data p).prev_execute_data) e
      → EndOf (IsUnplaced engine (some p)) e
  behind-EndOf p search_out_of_fuel h = tt
  behind-EndOf p (line_end appended printed) (inl none_found) = inl none_found
  behind-EndOf p (line_end appended printed) (inr (q, func, b, f, u, a, o)) =
      inr (q, func, further p q b, f, u, a, o)

  at_place-EndOf :
      (p : ℕ) (rest : LineEnd) (o : Option Function)
      → (engine.execute_data p).func ≡ o
      → EndOf (IsUnplaced engine (some p)) rest
      → EndOf
          (IsUnplaced engine (some p))
          (at_place engine (engine.execute_data p).opline.lineno rest (place_func engine o))
  at_place-EndOf p rest none e h = h
  at_place-EndOf p rest (some func) e h = elim (Bool-cases (user_code func.type)) [
    | inl user ↦ rw user (inr (p, func, here p, e, user, refl, refl))
    | inr internal ↦ rw internal h
  ]

  search-EndOf :
      (f : ℕ) (prev_call : ExecuteData) (prev : Option ℕ)
      → EndOf (IsUnplaced engine prev) (search engine f prev_call prev)
  unfolding search
  search-EndOf f prev_call none = inl (refl, refl)
  search-EndOf zero prev_call (some p) = tt
  search-EndOf (suc f) prev_call (some p) =
      let prev = engine.execute_data p in
      EndOf-if (IsUnplaced engine (some p)) (in_internal_code prev_call.func)
        (line_end (codes ")\n") []) _ (inl (refl, refl))
        (at_place-EndOf p _ prev.func refl (
          behind-EndOf p (search engine f prev prev.prev_execute_data)
            (search-EndOf f prev prev.prev_execute_data)))

  end_of-EndOf :
      (f : ℕ) (skip : ExecuteData) (o : Option (Bytes × ℕ))
      → EndOf (IsEndAt engine skip o) (end_of engine f skip o)
  end_of-EndOf f skip none = search-EndOf f skip skip.prev_execute_data
  end_of-EndOf f skip (some (filename, lineno)) = (refl, refl)

  abbrev IsSilent : (appended printed : Bytes) → Type 0
  IsSilent appended printed = printed ≡ []

  internal-EndOf :
      (f : ℕ) (skip : ExecuteData) (prev : Option ℕ)
      → in_internal_code skip.func ≡ true
      → EndOf IsSilent (search engine f skip prev)
  unfolding search
  internal-EndOf f skip none h = refl
  internal-EndOf zero skip (some p) h = tt
  internal-EndOf (suc f) skip (some p) h = rw h refl

  -- A frame of a function is one of user code, which has a place, or an internal one.
  func-EndOf :
      (f : ℕ) (skip : ExecuteData) (o : Option Function)
      → skip.func ≡ o
      → is_some o ≡ true
      → EndOf IsSilent (end_of engine f skip (place_in engine skip o))
  func-EndOf f skip none e h = cc
  func-EndOf f skip (some func) e h = elim (Bool-cases (user_code func.type)) [
    | inl user ↦ rw user refl
    | inr internal ↦
        rw internal
          (internal-EndOf f skip skip.prev_execute_data (ap in_internal_code e ∙ ap not internal))
  ]

  -- The dumps of arguments with their limit and fuel.
  abbrev pub dump_with : (max_depth : ℤ) → Store → ℕ → Zval → Counts → Dump
  dump_with max_depth store f = append_flat_zval_r true max_depth store f

  starts-IsTrace :
      (IsEnd : ExecuteData → (appended printed : Bytes) → Type 0)
      → ((f p : ℕ)
          → EndOf
              (IsEnd (engine.execute_data p))
              (end_of engine f (engine.execute_data p) (place engine (engine.execute_data p))))
      → (max_depth : ℤ) (store : Store) (f : ℕ) (c : Counts) (o : Option ℕ)
      → IsTrace
          (IsLinesFrom engine IsEnd (dump_with max_depth store f) o c)
          0
          c
          (from_frame (λ p. walk engine (dump_with max_depth store f) f (some p) p none 0 c) o c)
  unfolding numbered all_printed append_flat_zval_r
  starts-IsTrace IsEnd ended max_depth store f c none = ([], refl, refl, refl, refl)
  starts-IsTrace IsEnd ended max_depth store f c (some p) =
      walk-IsTrace engine IsEnd (dump_with max_depth store f)
        (λ v c'. dump_fuel-Restores true (reached max_depth) store f 0 v c') ended f (some p) p none
        0 c

-- The lines of the frames where the engine is.
abbrev pub IsTraceOf : Engine → (max_depth : ℤ) → Store → ℕ → Counts → List Line → Type 0
IsTraceOf engine max_depth store f =
    IsLinesFrom engine (IsLineEnd engine) (append_flat_zval_r true max_depth store f)
      engine.current_execute_data

-- The text of a trace has one line for each frame of the chain, in its order, and they are numbered from
-- 0 on: a line is its number, the call of its frame, the dumps of the call's arguments, and its end. That
-- is the place of the call, where the frame has one; if not, it is `)`, or a frame of user code
-- behind has a place, which is printed to the output of the script, and the line has no end. Nothing
-- else is printed, and the engine's counters are what they were.
pub append_backtrace-numbered :
    (engine : Engine) (max_depth : ℤ) (store : Store) (f : ℕ) (c : Counts) (trace printed : Bytes)
    (c' : Counts)
    → append_backtrace engine max_depth store f c ≡ walked trace printed c'
    → (ls : List Line) × (trace ≡ numbered 0 ls)
      × (printed ≡ all_printed ls)
      × (c' ≡ c)
      × IsTraceOf engine max_depth store f c ls
unfolding append_backtrace
append_backtrace-numbered engine max_depth store f c trace printed c' e =
    subst (IsTrace (IsTraceOf engine max_depth store f c) 0 c) e (
      starts-IsTrace engine (IsLineEnd engine)
        (λ f' p.
          end_of-EndOf engine f' (engine.execute_data p) (place engine (engine.execute_data p)))
        max_depth store f c engine.current_execute_data)

-- Where every frame has a function, nothing is printed to the output of the script.
pub append_backtrace_silent :
    (engine : Engine) (max_depth : ℤ) (store : Store) (f : ℕ) (c : Counts) (trace printed : Bytes)
    (c' : Counts)
    → ((p : ℕ) → is_some (engine.execute_data p).func ≡ true)
    → append_backtrace engine max_depth store f c ≡ walked trace printed c'
    → printed ≡ []
unfolding append_backtrace place append_flat_zval_r
append_backtrace_silent engine max_depth store f c trace printed c' funcs e =
    let dump = append_flat_zval_r true max_depth store f in
    let (ls, text, out, same, lines) =
      subst
        (IsTrace (IsLinesFrom engine (λ skip. IsSilent engine) dump engine.current_execute_data c) 0
          c)
        e
        (starts-IsTrace engine (λ skip. IsSilent engine)
          (λ f' p.
            func-EndOf engine f' (engine.execute_data p) (engine.execute_data p).func refl
              (funcs p))
          max_depth store f c engine.current_execute_data) in
    out
    ∙ silent-all_printed (IsSilent engine) (λ appended out' h. h) ls
        (from-IsSilent engine dump engine.current_execute_data c ls lines)
  where
    from-IsSilent :
        (engine : Engine) (dump : Zval → Counts → Dump) (o : Option ℕ) (c : Counts) (ls : List Line)
        → IsLinesFrom engine (λ skip. IsSilent engine) dump o c ls
        → All (λ l. IsSilent engine l.ending l.printed) ls
    from-IsSilent engine dump none c ls h = rw h tt
    from-IsSilent engine dump (some p) c ls h =
        all-IsEnd engine (λ skip. IsSilent engine) dump (IsSilent engine) (λ skip a o h. h) ls
          (some p) p none c h
