-- ===== src/Ini.antt =====
-- The INI settings of apm.c: what an entry between PHP_INI_BEGIN and PHP_INI_END is, and the handlers
-- that the engine calls with a new value. The engine's own handlers are parameters.
pub mod Members
pub mod Table
pub mod Path
pub mod Stable
pub mod Silenced
pub mod Scripts
pub mod Names
pub mod Late
pub mod Defaults
pub mod Registered
pub mod Start
mod Tests
use php_apm.Common.{
  ℕ, ◌-◌, ◌%◌, ◌^◌, ℤ, pos, negsuc, Bool, Bytes, Option, none, some, List, [], ◌∷◌,
}
use php_apm.World.{Env}
use php_apm.Globals.{
  DriverSettings, Globals, Run, Status, success, failure, pure, fault, ◌>>=◌, ◌>>◌,
}
use php_apm.Driver.{on_update_error_reporting}
use php_apm.Sqlite3

-- A member of a structure, which the macros of the table name by its offset.
pub record Member (S A : Type 0) : Type 0 where
  pub read : S → A
  pub write : A → S → S

abbrev pub within : {S T A : Type 0} → Member S T → Member T A → Member S A
within outer inner = record {
  read = λ s. inner.read (outer.read s);
  write = λ a s. outer.write (inner.write a (outer.read s)) s;
}

abbrev pub Property : Type 0 → Type 0
Property A = Member Globals A

-- A `char *`. Where the sources read one without a test for null, the globals hold its text.
pub data CharPointer : Type 0 where
  nullable : Property (Option Bytes) → CharPointer
  text : Property Bytes → CharPointer

-- What OnUpdateLong writes a `long` to. Two members are declared `unsigned int`, and hold the low half.
pub data LongPointer : Type 0 where
  long : Property ℤ → LongPointer
  unsigned_int : Property ℕ → LongPointer

pub data OnModify : Type 0 where
  on_update_bool : Property Bool → OnModify
  on_update_string : CharPointer → OnModify
  on_update_long : LongPointer → OnModify
  on_update_long_ge_zero : Property ℕ → OnModify
  on_update_apm_error_reporting : Property DriverSettings → OnModify
  on_update_db_file : Property (Option Bytes) → OnModify

-- One line of the table.
pub record IniEntry : Type 0 where
  pub name : Bytes
  pub value : Option Bytes
  pub modifiable : ℕ
  pub on_modify : OnModify

-- What the engine's handlers store for a value that may be null; `none` for FAILURE. OnUpdateString
-- may store a null pointer.
pub record Engine : Type 0 where
  pub bool_of : Option Bytes → Option Bool
  pub string_of : Option Bytes → Option (Option Bytes)
  pub long_of : Option Bytes → Option ℤ
  pub long_ge_zero_of : Option Bytes → Option ℕ

-- the low 32 bits
abbrev pub low_32 : ℤ → ℕ
low_32 (pos n) = n % 2 ^ 32
low_32 (negsuc n) = 2 ^ 32 - 1 - n % 2 ^ 32

abbrev pub store : {A : Type 0} → (A → Globals → Globals) → Option A → Run Status
store write none = pure failure
store write (some a) = λ g. pure success (write a g)

abbrev pub store_string : CharPointer → Option (Option Bytes) → Run Status
store_string p none = pure failure
store_string (nullable p) (some s) = λ g. pure success (p.write s g)
store_string (text p) (some none) = fault
store_string (text p) (some (some s)) = λ g. pure success (p.write s g)

abbrev pub write_long : LongPointer → ℤ → Globals → Globals
write_long (long p) n = p.write n
write_long (unsigned_int p) n = p.write (low_32 n)

module _ (engine : Engine) (env : Env) (maxpathlen : ℕ) where
  -- `OnUpdateDBFile`, which ends with OnUpdateString
  abbrev pub update_db_file : Property (Option Bytes) → Option Bytes → Run Status
  update_db_file p v = do
    Sqlite3.on_update_db_file env maxpathlen v
    store_string (nullable p) (engine.string_of v)

  -- The call of an entry's handler.
  unfoldable pub modify : OnModify → Option Bytes → Run Status
  modify (on_update_bool p) v = store p.write (engine.bool_of v)
  modify (on_update_string p) v = store_string p (engine.string_of v)
  modify (on_update_long p) v = store (write_long p) (engine.long_of v)
  modify (on_update_long_ge_zero p) v = store p.write (engine.long_ge_zero_of v)
  modify (on_update_apm_error_reporting p) v =
      λ g. pure success (p.write (on_update_error_reporting v (p.read g)) g)
  modify (on_update_db_file p) v = update_db_file p v

  -- The calls of handlers in a row, each with a value. What one returns is the engine's to read: the
  -- setting of a value that was refused is what it was.
  unfoldable pub updates : List (IniEntry × Option Bytes) → Run (Unit {0})
  unfolding modify
  updates [] = pure tt
  updates ((e, v) ∷ us) = do s ← modify e.on_modify v; updates us
