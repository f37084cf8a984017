-- ===== src/Backtrace/Walk/Tests.antt =====
-- Traces of two frames.
use php_apm.Common.{
  arith, ℕ, zero, suc, pos, true, Bytes, codes, none, List, [], ◌∷◌, ◌++◌, ◌≡◌, refl, decimal,
  is_some,
}
use php_apm.Backtrace.Slashes.{apm_addslashes}
use php_apm.Backtrace.Frame.{ExecuteData}
use php_apm.Backtrace.Walk.Sample.{
  distance, chain, near, construct, engine_with, engine, store, no_counts,
}
use php_apm.Backtrace.Walk.{walked, append_backtrace, place_text}
use php_apm.Backtrace.Walk.Ends.{append_backtrace_returns}
use php_apm.Backtrace.Value.{Counts}
use php_apm.Backtrace.Walk.Lines.{Line, numbered, all_printed}
use php_apm.Backtrace.Walk.Trace.{IsTraceOf, append_backtrace-numbered, append_backtrace_silent}

abbrev text : Bytes
text =
    codes "#0 trig->__construct(\"x\", \"x\") called at [a.php:9]\n"
    ++ codes "#1 trig->__construct(\"x\", \"x\") called at [a.php:20]\n"

traced : append_backtrace engine (pos 5) store 6 no_counts ≡ walked text [] no_counts
unfolding append_backtrace decimal apm_addslashes
traced = refl

abbrev dummy : ExecuteData
dummy = record construct { func = none; this = none }

-- The place of a frame without a function is printed, and its line has no end.
place_printed :
    append_backtrace
      (engine_with (dummy ∷ record construct { prev_execute_data = none } ∷ []))
      (pos 5)
      store
      6
      no_counts
    ≡ walked
        (codes "#0 unknown(#1 unknown() called at [a.php:9]\n")
        (place_text (codes "a.php") 9)
        no_counts
unfolding append_backtrace decimal
place_printed = refl

append_backtrace-numbered_example :
    (ls : List Line) × (text ≡ numbered 0 ls)
    × ([] ≡ all_printed ls)
    × (no_counts ≡ no_counts)
    × IsTraceOf engine (pos 5) store 6 no_counts ls
append_backtrace-numbered_example =
    append_backtrace-numbered engine (pos 5) store 6 no_counts text [] no_counts traced

all_functions : (p : ℕ) → is_some (engine.execute_data p).func ≡ true
all_functions zero = refl
all_functions (suc p) = refl

append_backtrace_silent_example : ◌≡◌ {A = Bytes} [] []
append_backtrace_silent_example =
    append_backtrace_silent engine (pos 5) store 6 no_counts text [] no_counts all_functions traced

append_backtrace_returns_example :
    (trace printed : Bytes) × (c' : Counts) × (append_backtrace engine (pos 5) store 6 no_counts
      ≡ walked trace printed c')
append_backtrace_returns_example =
    append_backtrace_returns engine distance (pos 5) store 6 no_counts chain near (omega arith)
      (omega arith)
