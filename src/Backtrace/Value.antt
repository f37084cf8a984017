-- ===== src/Backtrace/Value.antt =====
-- What backtrace.c reads of PHP's values: hash tables and objects stand in a store and are named by
-- numbers, so that a value may lead back to itself. The engine's counters, by which the dump notices
-- that, are a state of their own.
use php_apm.Common.{ℕ, ℤ, ◌+◌, ◌-◌, ◌==◌, if◌then◌else◌, Bool, Bytes, Option, List}

pub data Zval : Type 0 where
  -- any value that is no string, array, object or reference, with its printable text
  printable : Bytes → Zval
  string : Bytes → Zval
  array : ℕ → Zval
  object : ℕ → Zval
  reference : Zval → Zval

pub data Key : Type 0 where
  string_key : Bytes → Key
  num_key : ℤ → Key

pub record HashTable : Type 0 where
  -- ZEND_HASH_APPLY_PROTECTION
  pub apply_protection : Bool
  pub entries : List (Key × Zval)

pub record Object : Type 0 where
  pub class_name : Option Bytes
  pub properties : Option ℕ

pub record Store : Type 0 where
  pub tables : ℕ → HashTable
  pub objects : ℕ → Object

-- `nApplyCount` of the tables, and the apply counts of the objects.
pub record Counts : Type 0 where
  pub tables : ℕ → ℕ
  pub objects : ℕ → ℕ

abbrev pub increment : ℕ → (ℕ → ℕ) → ℕ → ℕ
increment t c a = if a == t then c a + 1 else c a

abbrev pub decrement : ℕ → (ℕ → ℕ) → ℕ → ℕ
decrement t c a = if a == t then c a - 1 else c a

abbrev pub enter_table : ℕ → Counts → Counts
enter_table t c = record c { tables = increment t c.tables }

abbrev pub leave_table : ℕ → Counts → Counts
leave_table t c = record c { tables = decrement t c.tables }

abbrev pub enter_object : ℕ → Counts → Counts
enter_object o c = record c { objects = increment o c.objects }

abbrev pub leave_object : ℕ → Counts → Counts
leave_object o c = record c { objects = decrement o c.objects }
