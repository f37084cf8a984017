-- ===== src/Driver/Filter.antt =====
-- The event filter of php_apm.h: an exception that is thrown, and the fatal error that the engine
-- raises if nothing catches it, are one incident.
use php_apm.Common.{
  ℕ, ◌+◌, bit_and, Bool, true, false, ◌==◌, ◌≡◌, ◌≢◌, ◌↔◌, ◌⊎◌, Bytes, starts_with, arith,
  if◌then◌else◌,
}
use php_apm.Globals.{DriverSettings}
use php_apm.Driver.{EventType, error_event, exception_event, uncaught_exception, want_event}
use php_apm.Driver.Level.{e_exception}

abbrev pub count_of : Bool → ℕ
count_of true = 1
count_of false = 0

-- How often a driver records an uncaught exception: as an exception, and as the fatal error whose
-- message is `fatal`.
unfoldable pub records_of_uncaught : DriverSettings → Bool → ℕ → (msg fatal : Bytes) → ℕ
unfolding want_event
records_of_uncaught s silenced level msg fatal =
    count_of (want_event s silenced exception_event e_exception msg)
    + count_of (want_event s silenced error_event level fatal)

-- An enabled driver that the silence operator does not stop, and whose error reporting covers the fatal
-- error's level. Where the fatal error's message begins with "Uncaught exception", as in PHP 5, an uncaught
-- exception is recorded exactly once in the modes 1 and 2, and not at all in the mode 0 or in any
-- other. Where it does not, as with the "Uncaught Exception: ..." of PHP 7, it is recorded twice in the
-- mode 2, and once in any other.
pub uncaught_records :
    (s : DriverSettings) (silenced : Bool) (level : ℕ) (msg fatal : Bytes)
    → s.enabled ≡ true
    → (silenced ≡ false) ⊎ (s.process_silenced_events ≡ true)
    → bit_and level s.error_reporting ≢ 0
    → records_of_uncaught s silenced level msg fatal ≡ (
        if starts_with uncaught_exception fatal
        then if s.exception_mode == 1 then 1 else if s.exception_mode == 2 then 1 else 0
        else if s.exception_mode == 2
        then 2
        else 1)
unfolding records_of_uncaught
uncaught_records s silenced level msg fatal on loud covered = ground arith

-- An event reaches no driver that is disabled, nor one that drops silenced events while the silence
-- operator is in force; an exception that is thrown is recorded in the mode 2 alone; and an error
-- whose message is no uncaught exception is recorded whatever the mode, if its level is covered.
pub want_event_lem :
    (s : DriverSettings) (silenced : Bool) (type : EventType) (level : ℕ) (msg : Bytes)
    → (want_event s silenced type level msg ≡ true) ↔ (
        (s.enabled ≡ true)
        × ((silenced ≡ false) ⊎ (s.process_silenced_events ≡ true))
        × (((type ≡ exception_event) × (s.exception_mode ≡ 2))
            ⊎ ((type ≡ error_event)
                × (bit_and level s.error_reporting ≢ 0)
                × ((s.exception_mode ≡ 1) ⊎ (starts_with uncaught_exception msg ≡ false)))))
unfolding want_event
want_event_lem s silenced exception_event level msg = (λ h. ground arith, λ h. ground arith)
want_event_lem s silenced error_event level msg = (λ h. ground arith, λ h. ground arith)
