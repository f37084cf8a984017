-- ===== src/Globals.antt =====
-- The module globals of php_apm.h (ZEND_BEGIN_MODULE_GLOBALS(apm)), the process-wide variables of
-- apm.c, and the monad in which the functions run.
pub mod Runs
pub mod Owners
use php_apm.Common.{ℕ, ◌+◌, leb, length, ℤ, if◌then◌else◌, Bool, Bytes, Option, none, some, ◌∷◌}
use php_apm.World.{Timeval, Rusage, Var, Effect, Log}

-- The settings that every driver has under its own prefix.
pub record DriverSettings : Type 0 where
  pub enabled : Bool
  pub stats_enabled : Bool
  pub exception_mode : ℕ
  pub error_reporting : ℕ
  pub process_silenced_events : Bool

-- The settings that all drivers share.
pub record Settings : Type 0 where
  pub enabled : Bool
  pub application_id : Option Bytes
  pub event_enabled : Bool
  pub store_stacktrace : Bool
  pub store_ip : Bool
  pub store_cookies : Bool
  pub store_post : Bool
  pub stats_duration_threshold : ℤ
  pub stats_user_cpu_threshold : ℤ
  pub stats_sys_cpu_threshold : ℤ
  pub dump_max_depth : ℤ

-- An event as the drivers are given it (PROCESS_EVENT_ARGS); a null pointer is `none`.
pub record EventArgs : Type 0 where
  pub type : ℕ
  pub error_filename : Option Bytes
  pub error_lineno : ℕ
  pub msg : Option Bytes
  pub trace : Option Bytes

-- RD_DEF: the pointer to a variable, and whether it may be used.
pub record Item : Type 0 where
  pub var : Option Var
  pub found : Bool

pub record RequestData : Type 0 where
  pub uri : Item
  pub host : Item
  pub ip : Item
  pub referer : Item
  pub ts : Item
  pub script : Item
  pub method : Item
  pub initialized : Bool
  pub cookies_found : Bool
  pub post_vars_found : Bool
  pub cookies : Bytes
  pub post_vars : Bytes

pub record Sqlite3State : Type 0 where
  pub settings : DriverSettings
  pub db_path : Option Bytes
  pub db_file : Bytes
  pub event_db : Bool
  pub timeout : ℤ
  pub request_id : ℕ
  pub is_request_created : Bool

pub record MysqlState : Type 0 where
  pub settings : DriverSettings
  pub db_host : Option Bytes
  pub db_port : ℕ
  pub db_user : Option Bytes
  pub db_pass : Option Bytes
  pub db_name : Option Bytes
  pub event_db : Bool
  pub is_request_created : Bool

pub record StatsdState : Type 0 where
  pub settings : DriverSettings
  pub host : Bytes
  pub port : ℕ
  pub prefix : Bytes
  pub servinfo : Bool

-- Addresses of event entries; 0 is NULL.
abbrev pub Ptr : Type 0
Ptr = ℕ

pub record EventEntry : Type 0 where
  pub type : ℕ
  pub error_filename : Option Bytes
  pub error_lineno : ℕ
  pub msg : Option Bytes
  pub trace : Option Bytes
  pub next : Ptr

-- What an `apm_event_entry **` points to: the global `socket_events`, or the `next` of an entry.
pub data Cell : Type 0 where
  events_cell : Cell
  next_cell : Ptr → Cell

abbrev pub Heap : Type 0
Heap = Ptr → Option EventEntry

pub record SocketState : Type 0 where
  pub settings : DriverSettings
  pub path : Bytes
  pub events : Ptr
  pub last_event : Option Cell
  pub heap : Heap
  pub fresh : Ptr

pub record ElasticsearchState : Type 0 where
  pub settings : DriverSettings
  pub host : Bytes
  pub port : ℤ
  pub index : Bytes
  pub user : Option Bytes
  pub pass : Option Bytes
  pub username : Option Bytes
  pub password : Option Bytes
  pub batch_size : ℤ
  pub batch_timeout : ℤ
  pub batch_buffer : Option Bytes
  pub batch_count : ℕ

-- A callback of the engine: one of this extension, or another.
pub data Hook : Type 0 where
  apm_hook : Hook
  other_hook : ℕ → Hook

pub record Globals : Type 0 where
  pub settings : Settings
  pub currently_silenced : Bool
  pub request_data : RequestData
  pub duration : ℕ
  pub mem_peak_usage : ℤ
  pub user_cpu : ℕ
  pub sys_cpu : ℕ
  pub begin_tp : Timeval
  pub begin_usg : Option Rusage
  pub zend_error_cb : Hook
  pub old_error_cb : Hook
  pub throw_exception_hook : Option Hook
  pub begin_silence_handler : Option Hook
  pub end_silence_handler : Option Hook
  pub orig_begin_silence_handler : Option Hook
  pub orig_end_silence_handler : Option Hook
  pub sqlite3 : Sqlite3State
  pub mysql : MysqlState
  pub statsd : StatsdState
  pub socket : SocketState
  pub elasticsearch : ElasticsearchState
  pub log : Log

-- `none` is undefined behaviour: a read through a null or dangling pointer, or an overrun buffer.
abbrev pub Run : Type 0 → Type 0
Run A = Globals → Option (A × Globals)

abbrev pub pure : {A : Type 0} → A → Run A
pure a g = some (a, g)

abbrev pub fault : {A : Type 0} → Run A
fault g = none

infixl 5 ◌>>=◌ ◌>>◌
abbrev pub ◌>>=◌ : {A B : Type 0} → Run A → (A → Run B) → Run B
◌>>=◌ m f g = elim (m g) [ none ↦ none | some (a, g') ↦ f a g' ]

abbrev pub ◌>>◌ : {B : Type 0} → Run (Unit {0}) → Run B → Run B
m >> k = m >>= λ _. k

abbrev pub get : Run Globals
get g = some (g, g)

abbrev pub put : Globals → Run (Unit {0})
put g' g = some (tt, g')

abbrev pub emit : Effect → Run (Unit {0})
emit e g = some (tt, record g { log = e ∷ g.log })

-- `sprintf` into a buffer of `size` bytes, the NUL included
abbrev pub sprintf : (size : ℕ) → Bytes → Run Bytes
sprintf size s = if leb (length s + 1) size then pure s else fault

-- `if (test) { body }`
abbrev pub when : Bool → Run (Unit {0}) → Run (Unit {0})
when b m = if b then m else pure tt

-- The results of the engine's module functions.
pub data Status : Type 0 where
  success : Status
  failure : Status
