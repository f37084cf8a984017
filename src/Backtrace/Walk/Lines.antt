-- ===== src/Backtrace/Walk/Lines.antt =====
-- The lines of a trace of backtrace.c.
use php_apm.Common.{
  ℕ, zero, suc, ◌+◌, Bool, true, false, Bytes, Option, none, some, List, [], ◌∷◌, ◌++◌,
  append_assoc, ◌≡◌, refl, ap, All,
}
use php_apm.Backtrace.Value.{Zval, Counts}
use php_apm.Backtrace.Dump.{Dump, dumped, overread, out_of_fuel, around}
use php_apm.Backtrace.Dump.Counters.{Restores, Restores-around, Restores-bind}
use php_apm.Backtrace.Frame.{ExecuteData, Engine, Called, called}
use php_apm.Backtrace.Walk.{
  Walk, walked, walk_overread, walk_out_of_fuel, line_then, behind, debug_print_backtrace_args,
  print_args, skip_internal, place, LineEnd, line_end, search_out_of_fuel, end_of, file_of, line,
  walk, number_text, call_text,
}

-- A line: what it calls, the arguments, and what its end appends to the trace and prints.
pub record Line : Type 0 where
  pub call : Bytes
  pub args : Bytes
  pub ending : Bytes
  pub printed : Bytes

abbrev pub line_text : Line → Bytes
line_text l = l.call ++ l.args ++ l.ending

-- The lines of a trace, numbered from `indent` on.
unfoldable pub numbered : ℕ → List Line → Bytes
numbered indent [] = []
numbered indent (l ∷ ls) = number_text indent ++ line_text l ++ numbered (indent + 1) ls

unfoldable pub all_printed : List Line → Bytes
all_printed [] = []
all_printed (l ∷ ls) = l.printed ++ all_printed ls

-- What a walk from the number `indent` and the counters `c` is, if it has a result: lines of which `P`
-- holds.
abbrev pub IsTrace : (List Line → Type 0) → ℕ → Counts → Walk → Type 0
IsTrace P indent c (walked t out c') =
    (ls : List Line) × (t ≡ numbered indent ls) × (out ≡ all_printed ls) × (c' ≡ c) × P ls
IsTrace P indent c walk_overread = Unit
IsTrace P indent c walk_out_of_fuel = Unit

module _ (P Q : List Line → Type 0) where
  behind-IsTrace :
      (indent : ℕ) (c : Counts) (l : Line) (w : Walk)
      → ((ls : List Line) → Q ls → P (l ∷ ls))
      → IsTrace Q (indent + 1) c w
      → IsTrace P indent c
          (behind ((number_text indent ++ l.call) ++ l.args ++ l.ending) l.printed w)
  unfolding numbered all_printed
  behind-IsTrace indent c l (walked t out c') add (ls, e, o, same, all) =
      (l ∷ ls, rw e (simp append_assoc), ap (λ x. l.printed ++ x) o, same, add ls all)
  behind-IsTrace indent c l walk_overread add h = tt
  behind-IsTrace indent c l walk_out_of_fuel add h = tt

  line-IsTrace :
      (indent : ℕ) (c : Counts) (call appended printed : Bytes) (d : Dump) (k : Counts → Walk)
      → Restores c d
      → ((args : Bytes)
          → d ≡ dumped args c
          → (ls : List Line) → Q ls
          → P (record { call = call; args = args; ending = appended; printed = printed } ∷ ls))
      → ((c' : Counts) → c' ≡ c → IsTrace Q (indent + 1) c (k c'))
      → IsTrace P indent c
          (line_then (around (number_text indent ++ call) d appended (λ c1. c1)) printed k)
  line-IsTrace indent c call appended printed (dumped t c1) k same add next =
      behind-IsTrace indent c
        (record { call = call; args = t; ending = appended; printed = printed }) (k c1)
        (add t (ap (dumped t) same)) (next c1 same)
  line-IsTrace indent c call appended printed overread k same add next = tt
  line-IsTrace indent c call appended printed out_of_fuel k same add next = tt

abbrev pub RestoresAll : (Zval → Counts → Dump) → Type 0
RestoresAll dump = (v : Zval) (c : Counts) → Restores c (dump v c)

args-Restores :
    (dump : Zval → Counts → Dump)
    → RestoresAll dump
    → (first : Bool) (vs : List Zval) (c : Counts)
    → Restores c (debug_print_backtrace_args dump first vs c)
unfolding debug_print_backtrace_args
args-Restores dump keeps first [] c = refl
args-Restores dump keeps first (v ∷ vs) c =
    Restores-bind c (dump v c) _ (keeps v c) λ t c1 e.
      rw e (Restores-around _ _ (λ c2. c2) c c _ (args-Restores dump keeps false vs c) refl)

print_args-Restores :
    (dump : Zval → Counts → Dump)
    → RestoresAll dump
    → (args : Option (List Zval)) (c : Counts) → Restores c (print_args dump args c)
print_args-Restores dump keeps none c = refl
print_args-Restores dump keeps (some vs) c = args-Restores dump keeps true vs c

-- A line says what is called: with these arguments as `dump` writes them, and with this end.
abbrev pub Says :
    (Zval → Counts → Dump)
    → Called
    → (IsEnd : (appended printed : Bytes) → Type 0) → Counts
    → Line
    → Type 0
Says dump call IsEnd c l =
    (l.call ≡ call_text call)
    × (print_args dump call.arg_array c ≡ dumped l.args c)
    × IsEnd l.ending l.printed

abbrev pub EndOf : ((appended printed : Bytes) → Type 0) → LineEnd → Type 0
EndOf IsEnd (line_end appended printed) = IsEnd appended printed
EndOf IsEnd search_out_of_fuel = Unit

module _ (P Q : List Line → Type 0) (dump : Zval → Counts → Dump) (keeps : RestoresAll dump) where
  pub at_end :
      (IsEnd : (appended printed : Bytes) → Type 0) (indent : ℕ) (call : Called) (e : LineEnd)
      (c : Counts) (k : Counts → Walk)
      → EndOf IsEnd e
      → ((l : Line) (ls : List Line) → Says dump call IsEnd c l → Q ls → P (l ∷ ls))
      → ((c' : Counts) → c' ≡ c → IsTrace Q (indent + 1) c (k c'))
      → IsTrace P indent c (line dump indent call e c k)
  at_end IsEnd indent call search_out_of_fuel c k ends add next = tt
  at_end IsEnd indent call (line_end appended printed) c k ends add next =
      line-IsTrace P Q indent c (call_text call) appended printed (print_args dump call.arg_array c)
        k (print_args-Restores dump keeps call.arg_array c)
        (λ args made ls q. add _ ls (refl, made, ends) q) next

module _ (engine : Engine) (IsEnd : ExecuteData → (appended printed : Bytes) → Type 0)
    (dump : Zval → Counts → Dump) where
  -- The frame at which a round reads the place of the call.
  abbrev pub skip_of : ℕ → ℕ
  skip_of p = skip_internal engine (engine.check_placeholder_frame p)

  -- One line for each frame from `ptr` on to the end of the chain, in its order: the line says what is
  -- called there, and ends as its frame does.
  abbrev pub IsLines :
      (ptr : Option ℕ) → (call : ℕ) → (file : Option Bytes) → Counts → List Line → Type 0
  IsLines none call file c [] = Unit
  IsLines none call file c (l ∷ ls) = ⊥
  IsLines (some p) call file c [] = ⊥
  IsLines (some p) call file c (l ∷ ls) =
      Says dump
        (called engine (engine.execute_data (engine.check_placeholder_frame p))
          (engine.execute_data call) file)
        (IsEnd (engine.execute_data (skip_of p))) c l
      × IsLines (engine.execute_data (skip_of p)).prev_execute_data (skip_of p)
          (file_of engine (place engine (engine.execute_data (skip_of p)))) c ls

  -- The same from the frame where the engine is.
  abbrev pub IsLinesFrom : Option ℕ → Counts → List Line → Type 0
  IsLinesFrom none c ls = ls ≡ []
  IsLinesFrom (some p) c ls = IsLines (some p) p none c ls

  module _ (keeps : RestoresAll dump)
      (ended : (f p : ℕ)
        → EndOf
            (IsEnd (engine.execute_data p))
            (end_of engine f (engine.execute_data p) (place engine (engine.execute_data p)))) where
    pub walk-IsTrace :
        (f : ℕ) (ptr : Option ℕ) (call : ℕ) (file : Option Bytes) (indent : ℕ) (c : Counts)
        → IsTrace (IsLines ptr call file c) indent c (walk engine dump f ptr call file indent c)
    unfolding walk numbered all_printed
    walk-IsTrace f none call file indent c = ([], refl, refl, refl, tt)
    walk-IsTrace zero (some p) call file indent c = tt
    walk-IsTrace (suc f) (some p) call file indent c =
        let ptr = engine.check_placeholder_frame p in
        let s = skip_internal engine ptr in
        let skip = engine.execute_data s in
        let next_file = file_of engine (place engine skip) in
        at_end (IsLines (some p) call file c) (IsLines skip.prev_execute_data s next_file c) dump
          keeps (IsEnd skip) indent
          (called engine (engine.execute_data ptr) (engine.execute_data call) file)
          (end_of engine f skip (place engine skip)) c _ (ended f s)
          (λ l ls says rest. (says, rest))
          λ c' e. rw e (walk-IsTrace f skip.prev_execute_data s next_file (indent + 1) c)

pub all-IsEnd :
    (engine : Engine) (IsEnd : ExecuteData → (appended printed : Bytes) → Type 0)
    (dump : Zval → Counts → Dump) (IsAny : (appended printed : Bytes) → Type 0)
    → ((skip : ExecuteData) (appended printed : Bytes)
        → IsEnd skip appended printed
        → IsAny appended printed)
    → (ls : List Line) (ptr : Option ℕ) (call : ℕ) (file : Option Bytes) (c : Counts)
    → IsLines engine IsEnd dump ptr call file c ls
    → All (λ l. IsAny l.ending l.printed) ls
all-IsEnd engine IsEnd dump IsAny any [] ptr call file c h = tt
all-IsEnd engine IsEnd dump IsAny any (l ∷ ls) none call file c h = absurd h
all-IsEnd engine IsEnd dump IsAny any (l ∷ ls) (some p) call file c ((a, b, e), rest) =
    (any _ l.ending l.printed e, all-IsEnd engine IsEnd dump IsAny any ls _ _ _ c rest)

pub silent-all_printed :
    (IsEnd : (appended printed : Bytes) → Type 0)
    → ((appended printed : Bytes) → IsEnd appended printed → printed ≡ [])
    → (ls : List Line) → All (λ l. IsEnd l.ending l.printed) ls
    → all_printed ls ≡ []
unfolding all_printed
silent-all_printed IsEnd silent [] h = refl
silent-all_printed IsEnd silent (l ∷ ls) (e, h) =
    rw (silent l.ending l.printed e) (silent-all_printed IsEnd silent ls h)
