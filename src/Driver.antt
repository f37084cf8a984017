-- ===== src/Driver.antt =====
-- The drivers' common part, php_apm.h: `struct apm_driver` and what the macro APM_DRIVER_CREATE
-- declares for each driver.
pub mod Level
pub mod Filter
mod Tests
use php_apm.Common.{
  ℕ, ◌+◌, ◌%◌, ◌^◌, ◌*◌, ◌-◌, bit_and, Bool, true, false, not, ◌&&◌, ◌||◌, ◌==◌, leb, if◌then◌else◌,
  List, [], ◌∷◌, Option, none, some, Bytes, codes, starts_with,
}
use php_apm.Globals.{DriverSettings, Globals, EventArgs, Run, Status}
use Level.{e_all}

-- APM_EVENT_ERROR and APM_EVENT_EXCEPTION
pub data EventType : Type 0 where
  error_event : EventType
  exception_event : EventType

-- `struct apm_driver`. The field `is_request_created` of the struct is written once and never read.
pub record Driver : Type 0 where
  pub process_event : EventArgs → Run (Unit {0})
  pub process_stats : Run (Unit {0})
  pub minit : Run Status
  pub rinit : Run Status
  pub mshutdown : Run Status
  pub rshutdown : Run Status
  pub is_enabled : Globals → Bool
  pub want_event : EventType → ℕ → Bytes → Globals → Bool
  pub want_stats : Globals → Bool
  pub error_reporting : Globals → ℕ

abbrev pub uncaught_exception : Bytes
uncaught_exception = codes "Uncaught exception"

-- The part of `want_event` that looks at the event.
unfoldable pub selects : DriverSettings → EventType → ℕ → Bytes → Bool
selects s exception_event level msg = s.exception_mode == 2
selects s error_event level msg =
    (s.exception_mode == 1 || not (starts_with uncaught_exception msg))
    && not (bit_and level s.error_reporting == 0)

-- `apm_driver_<name>_want_event`
unfoldable pub want_event : DriverSettings → (silenced : Bool) → EventType → ℕ → Bytes → Bool
unfolding selects
want_event s silenced type level msg =
    s.enabled && selects s type level msg && (not silenced || s.process_silenced_events)

-- `apm_driver_<name>_want_stats`
unfoldable pub want_stats : DriverSettings → Bool
want_stats s = s.enabled && s.stats_enabled

-- `atoi`, into the 32-bit pattern of an `int`
atoi_digits : ℕ → Bytes → ℕ
atoi_digits acc [] = acc
atoi_digits acc (c ∷ s) =
    let rest = atoi_digits (acc * 10 + (c - b'0')) s in
    if leb b'0' c && leb c b'9' then rest else acc

unfoldable pub atoi : Bytes → ℕ
unfolding atoi_digits
atoi [] = 0
atoi (c ∷ s) =
    if c == b'-'
    then (2 ^ 32 - atoi_digits 0 s % 2 ^ 32) % 2 ^ 32
    else (if c == b'+' then atoi_digits 0 s else atoi_digits 0 (c ∷ s)) % 2 ^ 32

-- `OnUpdateAPM<name>ErrorReporting`: without a value it is APM_E_<name>, which is APM_E_ALL.
unfoldable pub on_update_error_reporting : Option Bytes → DriverSettings → DriverSettings
on_update_error_reporting none s = record s { error_reporting = e_all }
on_update_error_reporting (some v) s = record s { error_reporting = atoi v }

-- `apm_driver_<name>_create`, with the driver's settings among the globals.
unfoldable pub create :
    (Globals → DriverSettings)
    → (process_event : EventArgs → Run (Unit {0})) → (process_stats : Run (Unit {0}))
    → (minit rinit mshutdown rshutdown : Run Status) → Driver
create settings process_event process_stats minit rinit mshutdown rshutdown = record {
  process_event = process_event;
  process_stats = process_stats;
  minit = minit;
  rinit = rinit;
  mshutdown = mshutdown;
  rshutdown = rshutdown;
  is_enabled = λ g. (settings g).enabled;
  want_event = λ type level msg g. want_event (settings g) g.currently_silenced type level msg;
  want_stats = λ g. want_stats (settings g);
  error_reporting = λ g. (settings g).error_reporting;
}
