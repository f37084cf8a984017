-- ===== src/Backtrace/Walk.antt =====
-- `append_backtrace` of backtrace.c (PHP_VERSION_ID >= 70000): a line for each frame.
pub mod Ends
pub mod Lines
pub mod Trace
pub mod Sample
mod Tests
use php_apm.Common.{
  ℕ, zero, suc, ◌+◌, ℤ, Bool, true, false, not, ◌&&◌, if◌then◌else◌, Bytes, codes, c_string,
  decimal, or_else, Option, none, some, List, [], ◌∷◌, ◌++◌,
}
use php_apm.Backtrace.Value.{Zval, Store, Counts}
use php_apm.Backtrace.Dump.{Dump, dumped, overread, out_of_fuel, ◌>>=◌, around, append_flat_zval_r}
use php_apm.Backtrace.Frame.{
  ExecuteData, Engine, Opline, is_call, handle_exception, Opcode, in_user_code, in_internal_code,
  Function, Called, called,
}

-- What is appended to the trace, what is printed to the output of the script, and the engine's
-- counters then.
pub data Walk : Type 0 where
  walked : (trace printed : Bytes) → Counts → Walk
  walk_overread : Walk
  walk_out_of_fuel : Walk

-- Text of a line, and the lines behind it.
abbrev pub behind : (text printed : Bytes) → Walk → Walk
behind t printed (walked trace out c) = walked (t ++ trace) (printed ++ out) c
behind t printed walk_overread = walk_overread
behind t printed walk_out_of_fuel = walk_out_of_fuel

abbrev pub line_then : Dump → (printed : Bytes) → (Counts → Walk) → Walk
line_then overread printed k = walk_overread
line_then out_of_fuel printed k = walk_out_of_fuel
line_then (dumped t c) printed k = behind t printed (k c)

module _ (dump : Zval → Counts → Dump) where
  -- `debug_print_backtrace_args`; `first` is `i == 0`
  unfoldable pub debug_print_backtrace_args : (first : Bool) → List Zval → Counts → Dump
  debug_print_backtrace_args first [] c = dumped [] c
  debug_print_backtrace_args first (v ∷ vs) c = dump v c >>= λ (t, c1).
      around ((if first then [] else codes ", ") ++ t) (debug_print_backtrace_args false vs c1) []
        (λ c2. c2)

  abbrev pub print_args : Option (List Zval) → Counts → Dump
  print_args none c = dumped [] c
  print_args (some args) c = debug_print_backtrace_args true args c

abbrev pub class_text : Option (Bytes × Bytes) → Bytes
class_text none = []
class_text (some (class_name, call_type)) = c_string class_name ++ call_type

abbrev pub name_text : Option Bytes → Bytes
name_text none = codes "main"
name_text (some name) = c_string name

-- the number of a line, and what follows it up to the arguments
abbrev pub number_text : ℕ → Bytes
number_text indent = b'#' ∷ (decimal indent ++ b' ' ∷ [])

abbrev pub call_text : Called → Bytes
call_text call = class_text call.class_name ++ name_text call.function_name ++ b'(' ∷ []

abbrev pub place_text : Bytes → ℕ → Bytes
place_text filename lineno =
    codes ") called at [" ++ c_string filename ++ b':' ∷ (decimal lineno ++ codes "]\n")

abbrev pub is_handle_exception : Opcode → Bool
is_handle_exception handle_exception = true
is_handle_exception _ = false

abbrev pub lineno_or : ℕ → Option Opline → ℕ
lineno_or n none = n
lineno_or n (some opline) = opline.lineno

-- What the end of a line appends, and what it prints.
pub data LineEnd : Type 0 where
  line_end : (appended printed : Bytes) → LineEnd
  search_out_of_fuel : LineEnd

module _ (dump : Zval → Counts → Dump) where
  -- a line, up to what is known of its end
  abbrev pub line : ℕ → Called → LineEnd → Counts → (Counts → Walk) → Walk
  line indent call search_out_of_fuel c k = walk_out_of_fuel
  line indent call (line_end appended printed) c k =
      line_then
        (around (number_text indent ++ call_text call) (print_args dump call.arg_array c) appended
          (λ c1. c1))
        printed k

abbrev pub from_frame : (ℕ → Walk) → Option ℕ → Counts → Walk
from_frame go none c = walked [] [] c
from_frame go (some p) c = go p

module _ (engine : Engine) where
  -- A frame of an internal function that is called in another way than by a call's opcode is skipped.
  abbrev pub goes_on_at : ExecuteData → Bool
  goes_on_at prev = in_user_code prev.func && not (is_call prev.opline.opcode)

  abbrev pub skip_to : (ptr : ℕ) → Option ℕ → ℕ
  skip_to ptr none = ptr
  skip_to ptr (some prev) = if goes_on_at (engine.execute_data prev) then prev else ptr

  unfoldable pub skip_internal : ℕ → ℕ
  skip_internal ptr =
      let f = engine.execute_data ptr in
      if in_user_code f.func then ptr else skip_to ptr f.prev_execute_data

  -- `filename` and `lineno` of a frame
  abbrev pub place_in : ExecuteData → Option Function → Option (Bytes × ℕ)
  place_in skip none = none
  place_in skip (some func) =
      if in_user_code (some func)
      then some (
        func.filename,
        if is_handle_exception skip.opline.opcode
            then lineno_or func.line_end engine.opline_before_exception
            else skip.opline.lineno,
      )
      else none

  unfoldable pub place : ExecuteData → Option (Bytes × ℕ)
  place skip = place_in skip skip.func

  abbrev pub place_func : Option Function → Option Function
  place_func none = none
  place_func (some func) = if in_user_code (some func) then some func else none

  abbrev pub at_place : ℕ → (rest : LineEnd) → Option Function → LineEnd
  at_place lineno rest none = rest
  at_place lineno rest (some func) = line_end [] (place_text func.filename lineno)

  -- The search for the place of a call that has no file of its own.
  unfoldable pub search : ℕ → (prev_call : ExecuteData) → (prev : Option ℕ) → LineEnd
  search f prev_call none = line_end (codes ")\n") []
  search zero prev_call (some p) = search_out_of_fuel
  search (suc f) prev_call (some p) =
      let prev = engine.execute_data p in
      let rest = search f prev prev.prev_execute_data in
      if in_internal_code prev_call.func
      then line_end (codes ")\n") []
      else at_place prev.opline.lineno rest (place_func prev.func)

  abbrev pub end_of : ℕ → (skip : ExecuteData) → Option (Bytes × ℕ) → LineEnd
  end_of f skip (some (filename, lineno)) = line_end (place_text filename lineno) []
  end_of f skip none = search f skip skip.prev_execute_data

  abbrev pub file_of : Option (Bytes × ℕ) → Option Bytes
  file_of none = none
  file_of (some (filename, lineno)) = some filename

  module _ (dump : Zval → Counts → Dump) where
    -- The loop: from the frame `ptr` on, with `call` and `include_filename` as the last round left them.
    unfoldable pub walk :
        ℕ
        → (ptr : Option ℕ) → (call : ℕ) → (include_filename : Option Bytes) → (indent : ℕ) → Counts
        → Walk
    unfolding skip_internal place search called
    walk f none call include_filename indent c = walked [] [] c
    walk zero (some p) call include_filename indent c = walk_out_of_fuel
    walk (suc f) (some p) call include_filename indent c =
        let ptr = engine.check_placeholder_frame p in
        let s = skip_internal ptr in
        let skip = engine.execute_data s in
        let where_called = place skip in
        line dump indent
          (called engine (engine.execute_data ptr) (engine.execute_data call) include_filename)
          (end_of f skip where_called) c
          (walk f skip.prev_execute_data s (file_of where_called) (indent + 1))

  -- `append_backtrace`
  unfoldable pub append_backtrace : (max_depth : ℤ) → Store → ℕ → Counts → Walk
  unfolding walk append_flat_zval_r debug_print_backtrace_args
  append_backtrace max_depth store f c =
      from_frame (λ p. walk (append_flat_zval_r true max_depth store f) f (some p) p none 0 c)
        engine.current_execute_data c
