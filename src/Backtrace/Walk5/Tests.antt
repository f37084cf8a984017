-- ===== src/Backtrace/Walk5/Tests.antt =====
-- A trace of two frames in PHP 5.
use php_apm.Common.{
  ℕ, zero, suc, pos, true, Bytes, codes, none, some, List, [], ◌∷◌, ◌++◌, ◌≡◌, refl, decimal,
}
use php_apm.Backtrace.Slashes.{apm_addslashes}
use php_apm.Backtrace.Value.{string, Store, Counts}
use php_apm.Backtrace.Frame.{user_function, do_fcall, other_constant}
use php_apm.Backtrace.Walk.{walked}
use php_apm.Backtrace.Walk.Lines.{Line, numbered}
use php_apm.Backtrace.Walk5.{ExecuteData5, Engine5, append_backtrace5}
use php_apm.Backtrace.Walk5.Trace.{IsTraceOf5, append_backtrace5-numbered}

abbrev trigger_error : ExecuteData5
trigger_error = record {
  op_array = some (codes "a.php");
  opline = some (record { opcode = do_fcall; lineno = 9; op2_constant = other_constant });
  function =
      some (record {
        type = user_function;
        scope = none;
        function_name = some (codes "trigger_error");
      });
  object = none;
  arguments = some (some (string (codes "x")) ∷ none ∷ []);
  prev_execute_data = some 1;
}

abbrev main : ExecuteData5
main = record trigger_error {
  function = some (record {
    type = user_function;
    scope = some (codes "trig");
    function_name = some (codes "ger2");
  });
  arguments = none;
  prev_execute_data = none;
}

abbrev frames : ℕ → ExecuteData5
frames zero = trigger_error
frames (suc p) = main

abbrev engine : Engine5
engine = record { execute_data = frames; current_execute_data = some 0 }

abbrev store : Store
store = record {
  tables = λ t. record { apply_protection = true; entries = [] };
  objects = λ o. record { class_name = none; properties = none };
}

abbrev no_counts : Counts
no_counts = record { tables = λ t. 0; objects = λ o. 0 }

abbrev text : Bytes
text =
    codes "#0 trigger_error(\"x\", ) called at [a.php:9]\n"
    ++ codes "#1 trig::ger2() called at [a.php:9]\n"

traced : append_backtrace5 engine (pos 5) store 6 no_counts ≡ walked text [] no_counts
unfolding append_backtrace5 decimal apm_addslashes
traced = refl

append_backtrace5-numbered_example :
    (ls : List Line) × (text ≡ numbered 0 ls)
    × (◌≡◌ {A = Bytes} [] [])
    × (no_counts ≡ no_counts)
    × IsTraceOf5 engine (pos 5) store 6 no_counts ls
append_backtrace5-numbered_example =
    append_backtrace5-numbered engine (pos 5) store 6 no_counts text [] no_counts traced
