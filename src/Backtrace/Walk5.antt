-- ===== src/Backtrace/Walk5.antt =====
-- `append_backtrace` and `debug_backtrace_get_args` of backtrace.c in the branches for PHP 5, where a
-- frame names the function that it calls itself. A read through a null pointer is an overread.
pub mod Trace
pub mod Ends
mod Tests
use php_apm.Common.{
  ℕ, zero, suc, ◌+◌, ℤ, Bool, true, false, not, ◌&&◌, ◌||◌, if◌then◌else◌, Bytes, codes, Option,
  none, some, List, [], ◌∷◌,
}
use php_apm.Backtrace.Value.{Zval, printable, Store, Counts}
use php_apm.Backtrace.Dump.{Dump, append_flat_zval_r}
use php_apm.Backtrace.Frame.{
  FunctionType, is_user_function, Opcode, do_fcall, do_fcall_by_name, include_or_eval, is_include,
  Opline, Called, including, filename_arg,
}
use php_apm.Backtrace.Walk.{
  Walk, walked, walk_overread, walk_out_of_fuel, LineEnd, line_end, search_out_of_fuel, line,
  place_text, from_frame, debug_print_backtrace_args,
}

-- What `function_state.function` points to.
pub record Function5 : Type 0 where
  pub type : FunctionType
  pub scope : Option Bytes
  pub function_name : Option Bytes

-- zend_execute_data; a null pointer is `none`.
pub record ExecuteData5 : Type 0 where
  -- the file name of `op_array`
  pub op_array : Option Bytes
  pub opline : Option Opline
  pub function : Option Function5
  -- the object's class, as `zend_get_object_classname` gives it
  pub object : Option Bytes
  -- `function_state.arguments`, each of which may be null
  pub arguments : Option (List (Option Zval))
  pub prev_execute_data : Option ℕ

pub record Engine5 : Type 0 where
  pub execute_data : ℕ → ExecuteData5
  pub current_execute_data : Option ℕ

-- `add_next_index_null`: NULL prints as nothing.
abbrev pub arg_or_null : Option Zval → Zval
arg_or_null none = printable []
arg_or_null (some v) = v

-- `debug_backtrace_get_args`
unfoldable pub get_args5 : List (Option Zval) → List Zval
get_args5 [] = []
get_args5 (a ∷ args) = arg_or_null a ∷ get_args5 args

abbrev pub args_of : Option (List (Option Zval)) → Option (List Zval)
args_of none = none
args_of (some args) = some (get_args5 args)

abbrev pub class_of5 : Option Bytes → Option Bytes → Option (Bytes × Bytes)
class_of5 (some scope) (some object) = some (scope, codes "->")
class_of5 none (some object) = some (object, codes "->")
class_of5 (some scope) none = some (scope, codes "::")
class_of5 none none = none

abbrev pub is_fcall : Opcode → Bool
is_fcall do_fcall = true
is_fcall do_fcall_by_name = true
is_fcall _ = false

-- `(! ptr->opline) || …`
abbrev pub has_args : Option Opline → Bool
has_args none = true
has_args (some opline) = is_fcall opline.opcode

abbrev pub included5 : Option Opline → Bytes × Bool
included5 none = (codes "unknown", false)
included5 (some opline) =
    if is_include opline.opcode then including opline.op2_constant else (codes "unknown", false)

-- What a line says of a call; `none` where there is no function to read.
abbrev pub called_function :
    ExecuteData5 → Option Bytes → (include_filename : Option Bytes) → Option Bytes → Called
called_function ptr scope include_filename (some name) = record {
  class_name = class_of5 scope ptr.object;
  function_name = some name;
  arg_array = if has_args ptr.opline then args_of ptr.arguments else none;
}
called_function ptr scope include_filename none =
    let (name, build_filename_arg) = included5 ptr.opline in
    record {
      class_name = none;
      function_name = some name;
      arg_array = filename_arg build_filename_arg include_filename;
    }

abbrev called_in : ExecuteData5 → Option Bytes → Option Function5 → Option Called
called_in ptr include_filename none = none
called_in ptr include_filename (some f) =
    some (called_function ptr f.scope include_filename f.function_name)

unfoldable pub called5 : ExecuteData5 → (include_filename : Option Bytes) → Option Called
unfolding get_args5
called5 ptr include_filename = called_in ptr include_filename ptr.function

-- `prev->function_state.function && …->common.type != ZEND_USER_FUNCTION`
abbrev pub in_other_function : Option Function5 → Bool
in_other_function none = false
in_other_function (some f) = not (is_user_function f.type)

-- the place of a line, where the file is known; the line is read through `opline`
abbrev pub placed : Bytes → Option Opline → Option LineEnd
placed filename none = none
placed filename (some opline) = some (line_end (place_text filename opline.lineno) [])

abbrev pub placed_or : Option LineEnd → Option Bytes → Option Opline → Option LineEnd
placed_or rest none opline = rest
placed_or rest (some filename) opline = placed filename opline

module _ (engine : Engine5) where
  abbrev pub goes_on_at5 : Option Opline → Bool
  goes_on_at5 none = false
  goes_on_at5 (some opline) = not (is_fcall opline.opcode || is_include opline.opcode)

  abbrev pub skip_to5 : (ptr : ℕ) → Option ℕ → ℕ
  skip_to5 ptr none = ptr
  skip_to5 ptr (some prev) = if goes_on_at5 (engine.execute_data prev).opline then prev else ptr

  abbrev pub skip_from : (ptr : ℕ) → Option ℕ → Option Bytes → ℕ
  skip_from ptr prev none = skip_to5 ptr prev
  skip_from ptr prev (some filename) = ptr

  unfoldable pub skip_internal5 : ℕ → ℕ
  skip_internal5 ptr =
      let f = engine.execute_data ptr in skip_from ptr f.prev_execute_data f.op_array

  unfoldable pub search5 : ℕ → (prev : Option ℕ) → Option LineEnd
  search5 f none = some (line_end (codes ")\n") [])
  search5 zero (some p) = some search_out_of_fuel
  search5 (suc f) (some p) =
      let prev = engine.execute_data p in
      let rest = search5 f prev.prev_execute_data in
      if in_other_function prev.function
      then some (line_end (codes ")\n") [])
      else placed_or rest prev.op_array prev.opline

  abbrev pub end_of5 : ℕ → (skip : ExecuteData5) → Option LineEnd
  end_of5 f skip = placed_or (search5 f skip.prev_execute_data) skip.op_array skip.opline

  module _ (dump : Zval → Counts → Dump) where
    abbrev pub line5 : ℕ → Option Called → Option LineEnd → Counts → (Counts → Walk) → Walk
    line5 indent (some call) (some e) c k = line dump indent call e c k
    line5 indent none e c k = walk_overread
    line5 indent (some call) none c k = walk_overread

    unfoldable pub walk5 :
        ℕ → (ptr : Option ℕ) → (include_filename : Option Bytes) → (indent : ℕ) → Counts → Walk
    unfolding skip_internal5 search5 called5
    walk5 f none include_filename indent c = walked [] [] c
    walk5 zero (some p) include_filename indent c = walk_out_of_fuel
    walk5 (suc f) (some p) include_filename indent c =
        let s = skip_internal5 p in
        let skip = engine.execute_data s in
        line5 indent (called5 (engine.execute_data p) include_filename) (end_of5 f skip) c
          (walk5 f skip.prev_execute_data skip.op_array (indent + 1))

  unfoldable pub append_backtrace5 : (max_depth : ℤ) → Store → ℕ → Counts → Walk
  unfolding walk5 append_flat_zval_r debug_print_backtrace_args
  append_backtrace5 max_depth store f c =
      from_frame (λ p. walk5 (append_flat_zval_r false max_depth store f) f (some p) none 0 c)
        engine.current_execute_data c
