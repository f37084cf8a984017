-- ===== src/Backtrace/Walk/Sample.antt =====
-- Two frames, at which traces are tried.
use php_apm.Common.{
  ℕ, zero, suc, ◌<◌, ◌≤◌, true, false, Bytes, codes, Option, none, some, List, [], ◌∷◌, ◌≡◌, arith,
}
use php_apm.Backtrace.Value.{string, Store, Counts}
use php_apm.Backtrace.Frame.{
  Class, Function, ExecuteData, Engine, user_function, other_opcode, do_fcall, other_constant,
}
use php_apm.Backtrace.Walk.Ends.{EndsBy}

abbrev pub trig : Class
trig = record { name = codes "trig"; trait_aliases = false }

abbrev pub function : Option Class → Bytes → Function
function scope name = record {
  type = user_function;
  scope = scope;
  function_name = some name;
  filename = codes "a.php";
  line_end = 30;
  num_args = 1;
  last_var = 1;
  t = 0;
}

abbrev pub construct : ExecuteData
construct = record {
  func = some (function (some trig) (codes "__construct"));
  opline = record { opcode = do_fcall; lineno = 9; op2_constant = other_constant };
  this = some (record { ce = trig; is_std_class_name = true; get_class_name = [] });
  num_args = 2;
  slots = λ i. string (codes "x");
  prev_execute_data = some 1;
}

abbrev pub trigger : ExecuteData
trigger = record {
  func = some (function none (codes "trigger1"));
  opline = record { opcode = other_opcode; lineno = 20; op2_constant = other_constant };
  this = none;
  num_args = 0;
  slots = λ i. string (codes "x");
  prev_execute_data = none;
}

abbrev pub nth : List ExecuteData → ℕ → ExecuteData
nth [] p = trigger
nth (x ∷ xs) zero = x
nth (x ∷ xs) (suc p) = nth xs p

abbrev pub engine_with : List ExecuteData → Engine
engine_with frames = record {
  execute_data = nth frames;
  current_execute_data = some 0;
  opline_before_exception = none;
  check_placeholder_frame = λ p. p;
  resolve_method_name = λ c f. [];
}

abbrev pub engine : Engine
engine = engine_with (construct ∷ [])

abbrev pub store : Store
store = record {
  tables = λ t. record { apply_protection = true; entries = [] };
  objects = λ o. record { class_name = none; properties = none };
}

abbrev pub no_counts : Counts
no_counts = record { tables = λ t. 0; objects = λ o. 0 }

pub distance : ℕ → ℕ
distance zero = 1
distance (suc p) = 0

prev-lt : (p q : ℕ) → (engine.execute_data p).prev_execute_data ≡ some q → distance q < distance p
unfolding distance
prev-lt zero zero e = ground arith
prev-lt zero (suc q) e = omega arith
prev-lt (suc p) q e = cc

same_place : (p : ℕ) → distance (engine.check_placeholder_frame p) ≤ distance p
same_place p = omega arith

pub near : (p : ℕ) → engine.current_execute_data ≡ some p → distance p < 6
unfolding distance
near zero e = omega arith
near (suc p) e = omega arith

pub chain : EndsBy engine distance
chain = record { prev = prev-lt; placeholder = same_place }
