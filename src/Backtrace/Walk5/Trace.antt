-- ===== src/Backtrace/Walk5/Trace.antt =====
-- What `append_backtrace` of backtrace.c appends in PHP 5.
use php_apm.Common.{
  ℕ, zero, suc, ℤ, ◌+◌, Bool, true, false, if◌then◌else◌, Bytes, codes, Option, none, some, List,
  [], ◌∷◌, ◌≡◌, ◌⊎◌, inl, inr, refl, ◌∙◌, subst,
}
use php_apm.Backtrace.Value.{Zval, Store, Counts}
use php_apm.Backtrace.Dump.{Dump, append_flat_zval_r, reached}
use php_apm.Backtrace.Dump.Counters.{dump_fuel-Restores}
use php_apm.Backtrace.Frame.{Called, Opline}
use php_apm.Backtrace.Walk.{
  Walk, walked, LineEnd, line_end, search_out_of_fuel, from_frame, place_text,
}
use php_apm.Backtrace.Walk.Lines.{
  Line, numbered, all_printed, EndOf, IsTrace, Says, RestoresAll, at_end,
}
use php_apm.Backtrace.Walk5.{
  ExecuteData5, Engine5, called5, in_other_function, placed_or, skip_internal5, search5, end_of5,
  line5, walk5, append_backtrace5,
}

-- A frame on the chain that begins with `prev`.
pub data Behind5 (engine : Engine5) : (prev : Option ℕ) → ℕ → Type 0 where
  here5 : (p : ℕ) → Behind5 engine (some p) p
  further5 :
      (p q : ℕ)
      → Behind5 engine (engine.execute_data p).prev_execute_data q
      → Behind5 engine (some p) q

-- The end of a line without a file of its own: none, or the place of a frame behind.
abbrev pub IsFound : Engine5 → Option ℕ → (appended printed : Bytes) → Type 0
IsFound engine prev appended printed =
    ((appended ≡ codes ")\n") × (printed ≡ []))
    ⊎ ((q : ℕ) × (filename : Bytes) × (opline : Opline) × Behind5 engine prev q
        × ((engine.execute_data q).op_array ≡ some filename)
        × ((engine.execute_data q).opline ≡ some opline)
        × (appended ≡ place_text filename opline.lineno)
        × (printed ≡ []))

abbrev IsEndAt5 :
    Engine5 → (prev : Option ℕ) → Option Bytes → Option Opline → (appended printed : Bytes) → Type 0
IsEndAt5 engine prev (some filename) (some opline) appended printed =
    (appended ≡ place_text filename opline.lineno) × (printed ≡ [])
IsEndAt5 engine prev (some filename) none appended printed = ⊥
IsEndAt5 engine prev none o appended printed = IsFound engine prev appended printed

-- The end of the line of a frame: the place of its call, if the frame has a file.
abbrev pub IsLineEnd5 : Engine5 → ExecuteData5 → (appended printed : Bytes) → Type 0
IsLineEnd5 engine skip = IsEndAt5 engine skip.prev_execute_data skip.op_array skip.opline

abbrev Ended : ((appended printed : Bytes) → Type 0) → Option LineEnd → Type 0
Ended IsEnd none = Unit
Ended IsEnd (some e) = EndOf IsEnd e

Ended-if :
    (IsEnd : (appended printed : Bytes) → Type 0) (b : Bool) (x y : Option LineEnd)
    → Ended IsEnd x
    → Ended IsEnd y
    → Ended IsEnd (if b then x else y)
Ended-if IsEnd true x y h k = h
Ended-if IsEnd false x y h k = k

module _ (engine : Engine5) where
  IsFound-behind :
      (p : ℕ) (e : LineEnd)
      → EndOf (IsFound engine (engine.execute_data p).prev_execute_data) e
      → EndOf (IsFound engine (some p)) e
  IsFound-behind p search_out_of_fuel h = tt
  IsFound-behind p (line_end appended printed) (inl nowhere) = inl nowhere
  IsFound-behind p (line_end appended printed) (inr (q, file, opline, b, e, o, a, n)) =
      inr (q, file, opline, further5 p q b, e, o, a, n)

  Ended-behind :
      (p : ℕ) (o : Option LineEnd)
      → Ended (IsFound engine (engine.execute_data p).prev_execute_data) o
      → Ended (IsFound engine (some p)) o
  Ended-behind p none h = tt
  Ended-behind p (some e) h = IsFound-behind p e h

  placed_or-Found :
      (p : ℕ) (rest : Option LineEnd) (file : Option Bytes) (o : Option Opline)
      → (engine.execute_data p).op_array ≡ file
      → (engine.execute_data p).opline ≡ o
      → Ended (IsFound engine (some p)) rest
      → Ended (IsFound engine (some p)) (placed_or rest file o)
  placed_or-Found p rest none o e e' h = h
  placed_or-Found p rest (some file) none e e' h = tt
  placed_or-Found p rest (some file) (some opline) e e' h =
      inr (p, file, opline, here5 p, e, e', refl, refl)

  search5-Found : (f : ℕ) (prev : Option ℕ) → Ended (IsFound engine prev) (search5 engine f prev)
  unfolding search5
  search5-Found f none = inl (refl, refl)
  search5-Found zero (some p) = tt
  search5-Found (suc f) (some p) =
      let prev = engine.execute_data p in
      Ended-if (IsFound engine (some p)) (in_other_function prev.function)
        (some (line_end (codes ")\n") [])) _ (inl (refl, refl))
        (placed_or-Found p _ prev.op_array prev.opline refl refl (
          Ended-behind p (search5 engine f prev.prev_execute_data)
            (search5-Found f prev.prev_execute_data)))

  end_of5-Ended :
      (f : ℕ) (prev : Option ℕ) (file : Option Bytes) (o : Option Opline)
      → Ended (IsEndAt5 engine prev file o) (placed_or (search5 engine f prev) file o)
  end_of5-Ended f prev none o = search5-Found f prev
  end_of5-Ended f prev (some file) none = tt
  end_of5-Ended f prev (some file) (some opline) = (refl, refl)

  module _ (dump : Zval → Counts → Dump) where
    -- One line for each frame from `ptr` on to the end of the chain, in its order.
    abbrev pub IsLines5 : (ptr : Option ℕ) → (file : Option Bytes) → Counts → List Line → Type 0
    IsLines5 none file c [] = Unit
    IsLines5 none file c (l ∷ ls) = ⊥
    IsLines5 (some p) file c [] = ⊥
    IsLines5 (some p) file c (l ∷ ls) =
        ((call : Called) × (called5 (engine.execute_data p) file ≡ some call)
          × Says dump call (IsLineEnd5 engine (engine.execute_data (skip_internal5 engine p))) c l)
        × IsLines5 (engine.execute_data (skip_internal5 engine p)).prev_execute_data
            (engine.execute_data (skip_internal5 engine p)).op_array c ls

    module _ (keeps : RestoresAll dump) where
      line5-IsTrace :
          (P Q : List Line → Type 0) (IsEnd : (appended printed : Bytes) → Type 0) (indent : ℕ)
          (call : Option Called) (e : Option LineEnd) (c : Counts) (k : Counts → Walk)
          → Ended IsEnd e
          → ((x : Called) (l : Line) (ls : List Line)
              → call ≡ some x
              → Says dump x IsEnd c l
              → Q ls
              → P (l ∷ ls))
          → ((c' : Counts) → c' ≡ c → IsTrace Q (indent + 1) c (k c'))
          → IsTrace P indent c (line5 engine dump indent call e c k)
      line5-IsTrace P Q IsEnd indent (some call) (some e) c k ends add next =
          at_end P Q dump keeps IsEnd indent call e c k ends (λ l ls. add call l ls refl) next
      line5-IsTrace P Q IsEnd indent none e c k ends add next = tt
      line5-IsTrace P Q IsEnd indent (some call) none c k ends add next = tt

      walk5-IsTrace :
          (f : ℕ) (ptr : Option ℕ) (file : Option Bytes) (indent : ℕ) (c : Counts)
          → IsTrace (IsLines5 ptr file c) indent c (walk5 engine dump f ptr file indent c)
      unfolding walk5 numbered all_printed
      walk5-IsTrace f none file indent c = ([], refl, refl, refl, tt)
      walk5-IsTrace zero (some p) file indent c = tt
      walk5-IsTrace (suc f) (some p) file indent c =
          let skip = engine.execute_data (skip_internal5 engine p) in
          line5-IsTrace (IsLines5 (some p) file c) (IsLines5 skip.prev_execute_data skip.op_array c)
            (IsLineEnd5 engine skip) indent (called5 (engine.execute_data p) file)
            (end_of5 engine f skip) c _
            (end_of5-Ended f skip.prev_execute_data skip.op_array skip.opline)
            (λ x l ls called says rest. ((x, called, says), rest))
            λ c' e. rw e (walk5-IsTrace f skip.prev_execute_data skip.op_array (indent + 1) c)

      no_print :
          (skip : ExecuteData5) (appended printed : Bytes)
          → (file : Option Bytes) (o : Option Opline)
          → IsEndAt5 engine skip.prev_execute_data file o appended printed
          → printed ≡ []
      no_print skip appended printed (some file) (some opline) (e, p) = p
      no_print skip appended printed (some file) none h = absurd h
      no_print skip appended printed none o (inl (e, p)) = p
      no_print skip appended printed none o (inr (q, file, opline, b, f, g, e, p)) = p

      lines5_silent :
          (ls : List Line) (ptr : Option ℕ) (file : Option Bytes) (c : Counts)
          → IsLines5 ptr file c ls
          → all_printed ls ≡ []
      unfolding all_printed
      lines5_silent [] ptr file c h = refl
      lines5_silent (l ∷ ls) none file c h = absurd h
      lines5_silent (l ∷ ls) (some p) file c ((call, called, (a, b, ends)), rest) =
          let skip = engine.execute_data (skip_internal5 engine p) in
          rw (no_print skip l.ending l.printed skip.op_array skip.opline ends)
            (lines5_silent ls _ _ c rest)

-- The lines of the frames where the engine is.
abbrev IsLinesFrom5 : Engine5 → (Zval → Counts → Dump) → Option ℕ → Counts → List Line → Type 0
IsLinesFrom5 engine dump o c ls = IsLines5 engine dump o none c ls

abbrev pub IsTraceOf5 : Engine5 → (max_depth : ℤ) → Store → ℕ → Counts → List Line → Type 0
IsTraceOf5 engine max_depth store f =
    IsLinesFrom5 engine (append_flat_zval_r false max_depth store f) engine.current_execute_data

-- In PHP 5 the text of a trace has one line for each frame of the chain, in its order, and they are
-- numbered from 0 on: a line is its number, the call of its frame, the dumps of the call's arguments,
-- and its end. That is the place of the call, where the frame has a file; if not, it is `)` or the place
-- of a frame behind. Nothing is printed to the output of the script, and the engine's counters are what
-- they were.
pub append_backtrace5-numbered :
    (engine : Engine5) (max_depth : ℤ) (store : Store) (f : ℕ) (c : Counts) (trace printed : Bytes)
    (c' : Counts)
    → append_backtrace5 engine max_depth store f c ≡ walked trace printed c'
    → (ls : List Line) × (trace ≡ numbered 0 ls)
      × (printed ≡ [])
      × (c' ≡ c)
      × IsTraceOf5 engine max_depth store f c ls
unfolding append_backtrace5 append_flat_zval_r numbered all_printed
append_backtrace5-numbered engine max_depth store f c trace printed c' e =
    let dump = append_flat_zval_r false max_depth store f in
    let keeps : RestoresAll dump =
      λ v c'. dump_fuel-Restores false (reached max_depth) store f 0 v c' in
    let (ls, text, out, same, lines) =
      subst (IsTrace (IsTraceOf5 engine max_depth store f c) 0 c) e
        (starts keeps engine.current_execute_data) in
    (
      ls,
      text,
      out ∙ lines5_silent engine dump keeps ls engine.current_execute_data none c lines,
      same,
      lines,
    )
  where
    starts :
        RestoresAll (append_flat_zval_r false max_depth store f)
        → (o : Option ℕ)
        → IsTrace (IsLinesFrom5 engine (append_flat_zval_r false max_depth store f) o c) 0 c (
            from_frame
              (λ p. walk5 engine (append_flat_zval_r false max_depth store f) f (some p) none 0 c)
              o
              c)
    starts keeps none = ([], refl, refl, refl, tt)
    starts keeps (some p) =
        walk5-IsTrace engine (append_flat_zval_r false max_depth store f) keeps f (some p) none 0 c
