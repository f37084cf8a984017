-- ===== src/Backtrace/Frame.antt =====
-- What backtrace.c reads of a frame of the engine (PHP_VERSION_ID >= 70000), and how it names the
-- called function. Frames have addresses; what the engine's own functions answer is given with them.
use php_apm.Common.{
  ℕ, zero, suc, ◌+◌, ◌-◌, Bool, true, false, not, ◌&&◌, ◌||◌, ltb, if◌then◌else◌, Bytes, codes,
  c_string, Option, none, some, List, [], ◌∷◌, ◌++◌,
}
use php_apm.Backtrace.Value.{Zval, string}

pub data FunctionType : Type 0 where
  internal_function : FunctionType
  user_function : FunctionType
  overloaded_function : FunctionType
  eval_code : FunctionType
  overloaded_function_temporary : FunctionType

-- ZEND_USER_CODE
abbrev pub user_code : FunctionType → Bool
user_code user_function = true
user_code eval_code = true
user_code _ = false

abbrev pub is_user_function : FunctionType → Bool
is_user_function user_function = true
is_user_function _ = false

abbrev pub is_eval_code : FunctionType → Bool
is_eval_code eval_code = true
is_eval_code _ = false

pub data Opcode : Type 0 where
  do_icall : Opcode
  do_ucall : Opcode
  do_fcall : Opcode
  do_fcall_by_name : Opcode
  include_or_eval : Opcode
  handle_exception : Opcode
  other_opcode : Opcode

-- An opcode that calls a function or includes a file.
abbrev pub is_call : Opcode → Bool
is_call handle_exception = false
is_call other_opcode = false
is_call _ = true

abbrev pub is_include : Opcode → Bool
is_include include_or_eval = true
is_include _ = false

-- the values of `op2.constant` that the code tells apart
pub data Including : Type 0 where
  zend_eval : Including
  zend_include : Including
  zend_require : Including
  zend_include_once : Including
  zend_require_once : Including
  other_constant : Including

pub record Opline : Type 0 where
  pub opcode : Opcode
  pub lineno : ℕ
  pub op2_constant : Including

pub record Class : Type 0 where
  pub name : Bytes
  pub trait_aliases : Bool

pub record Function : Type 0 where
  pub type : FunctionType
  pub scope : Option Class
  pub function_name : Option Bytes
  pub filename : Bytes
  pub line_end : ℕ
  pub num_args : ℕ
  pub last_var : ℕ
  pub t : ℕ

-- The object that `This` holds. Its class may have a `get_class_name` of its own.
pub record This : Type 0 where
  pub ce : Class
  pub is_std_class_name : Bool
  pub get_class_name : Bytes

-- zend_execute_data
pub record ExecuteData : Type 0 where
  pub func : Option Function
  pub opline : Opline
  pub this : Option This
  pub num_args : ℕ
  -- ZEND_CALL_VAR_NUM, where the arguments start
  pub slots : ℕ → Zval
  pub prev_execute_data : Option ℕ

pub record Engine : Type 0 where
  pub execute_data : ℕ → ExecuteData
  pub current_execute_data : Option ℕ
  pub opline_before_exception : Option Opline
  pub check_placeholder_frame : ℕ → ℕ
  pub resolve_method_name : Class → Function → Bytes

-- `func && ZEND_USER_CODE(func->common.type)`
abbrev pub in_user_code : Option Function → Bool
in_user_code none = false
in_user_code (some f) = user_code f.type

-- `func && !ZEND_USER_CODE(func->common.type)`
abbrev pub in_internal_code : Option Function → Bool
in_internal_code none = false
in_internal_code (some f) = not (user_code f.type)

-- `n` values from the slot `i` on
unfoldable pub values : (ℕ → Zval) → (i n : ℕ) → List Zval
values slots i zero = []
values slots i (suc n) = slots i ∷ values slots (i + 1) n

-- `debug_backtrace_get_args`: more arguments than a function declares stand behind its variables. The
-- array has what ZEND_HASH_FILL_ADD puts into it.
unfoldable pub debug_backtrace_get_args : ExecuteData → Function → List Zval
unfolding values
debug_backtrace_get_args call func =
    if is_user_function func.type && ltb func.num_args call.num_args
    then values call.slots 0 func.num_args
      ++ values call.slots (func.last_var + func.t) (call.num_args - func.num_args)
    else values call.slots 0 call.num_args

-- What a line says of the call.
pub record Called : Type 0 where
  -- the class, and `->` or `::`
  pub class_name : Option (Bytes × Bytes)
  pub function_name : Option Bytes
  pub arg_array : Option (List Zval)

abbrev pub class_of : Option Class → Option This → Option (Bytes × Bytes)
class_of (some scope) (some object) = some (scope.name, codes "->")
class_of none (some object) =
    some (if object.is_std_class_name then object.ce.name else object.get_class_name, codes "->")
class_of (some scope) none = some (scope.name, codes "::")
class_of none none = none

abbrev object_class : Option This → Class → Class
object_class none scope = scope
object_class (some object) scope = object.ce

module _ (engine : Engine) where
  abbrev name_in : Option Class → Option This → Function → Option Bytes
  name_in none object func = func.function_name
  name_in (some scope) object func =
      if scope.trait_aliases
      then some (engine.resolve_method_name (object_class object scope) func)
      else func.function_name

  -- `function_name` of the call, NULL for code outside of functions
  unfoldable pub function_name : ExecuteData → Option (Bytes × Function)
  function_name call = elim call.func [
    | none ↦ none
    | some func ↦ elim (name_in func.scope call.this func) [ none ↦ none | some n ↦ some (n, func) ]
  ]

abbrev pub including : Including → Bytes × Bool
including zend_eval = (codes "eval", false)
including zend_include = (codes "include", true)
including zend_require = (codes "require", true)
including zend_include_once = (codes "include_once", true)
including zend_require_once = (codes "require_once", true)
including other_constant = (codes "unknown", false)

-- the name, and `build_filename_arg`
unfoldable pub included : ExecuteData → Bytes × Bool
included ptr =
    if not (in_user_code ptr.func) || not (is_include ptr.opline.opcode)
    then (codes "unknown", false)
    else including ptr.opline.op2_constant

abbrev pub filename_arg : Bool → Option Bytes → Option (List Zval)
filename_arg true (some file) = some (string (c_string file) ∷ [])
filename_arg _ _ = none

unfoldable pub called :
    Engine → (ptr call : ExecuteData) → (include_filename : Option Bytes) → Called
unfolding function_name debug_backtrace_get_args included
called engine ptr call include_filename = elim (function_name engine call) [
  | some (name, func) ↦ record {
    class_name = class_of func.scope call.this;
    function_name = some name;
    arg_array = if is_eval_code func.type then none else some (debug_backtrace_get_args call func);
  }
  | none ↦
      let (name, build_filename_arg) = included ptr in
      record {
        class_name = none;
        function_name = some name;
        arg_array = filename_arg build_filename_arg include_filename;
      }
]
