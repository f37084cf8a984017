-- ===== src/Ini/Tests.antt =====
-- The INI table with a concrete engine.
use php_apm.Common.{
  ℕ, pos, Bool, true, false, not, ◌==◌, codes, decimal, digits_value, digits_value-decimal, none,
  some, List, [], ◌∷◌, ◌++◌, ◌&&◌, ◌≡◌, refl, ap, inl, inr,
}
use php_apm.Globals.{Globals, success, apm_hook, other_hook, pure}
use php_apm.Driver.{error_event, want_event}
use php_apm.Driver.Level.{e_warning}
use php_apm.Apm.{process_event, rinit, prepared, until_failure}
use php_apm.Request.{empty_request_data}
use php_apm.Ini.Stable.{IsIn}
use php_apm.Driver.{create}
use php_apm.Apm.Drivers.{Build, built, driver_of, drivers, elastic}
use php_apm.Fixture.{env, globals}
use php_apm.Ini.{IniEntry, Engine, modify, updates, on_update_bool}
use php_apm.Ini.Table.{
  php_ini_all, php_ini_perdir, entry, ini_entries, module_entries, statsd_entries, socket_entries,
}
use php_apm.Ini.Defaults.{defaults}
use php_apm.Ini.Start.{php_minit, php_minit_starts}
use php_apm.Ini.Scripts.{switches, modes, script_changes_reserved}
use php_apm.Ini.Silenced.{statsd_drops_silenced}
use php_apm.Globals.Owners.{of_socket}
use php_apm.Apm.Dispatch.{event}
use php_apm.Ini.Late.{late_socket_faults}
use php_apm.Ini.Members.{socket_enabled, statsd_enabled}

abbrev engine : Engine
engine = record {
  bool_of = λ v. elim v [ none ↦ some false | some s ↦ some (not (digits_value 0 s == 0)) ];
  string_of = λ v. some v;
  long_of = λ v. elim v [ none ↦ some (pos 0) | some s ↦ some (pos (digits_value 0 s)) ];
  long_ge_zero_of = λ v. elim v [ none ↦ some 0 | some s ↦ some (digits_value 0 s) ];
}

abbrev build : Build
build = record {
  driver_sqlite3 = true;
  driver_mysql = true;
  driver_statsd = true;
  driver_socket = true;
  have_curl = true;
}

one : engine.bool_of (some (codes "1")) ≡ some true
unfolding digits_value
one = refl

nought : engine.bool_of (some (codes "0")) ≡ some false
unfolding digits_value
nought = refl

numbers : (n : ℕ) → engine.long_of (some (decimal n)) ≡ some (pos n)
numbers n = ap (λ n. some (pos n)) (digits_value-decimal n)

naturals : (n : ℕ) → engine.long_ge_zero_of (some (decimal n)) ≡ some n
naturals n = ap (λ n. some n) (digits_value-decimal n)

php_minit_starts_example :
    (h : Globals) × (php_minit engine env 4096 build
        (defaults (ini_entries build (codes "/db")))
        globals
      ≡ some (success, h))
    × (h.zend_error_cb ≡ apm_hook)
    × (h.throw_exception_hook ≡ some apm_hook)
    × (h.old_error_cb ≡ other_hook 0)
php_minit_starts_example =
    php_minit_starts engine env 4096 one nought (λ s. refl) numbers naturals build (codes "/db")
      globals

abbrev socket_entry : IniEntry
socket_entry =
    entry (codes "apm.socket_enabled") (some (codes "1")) php_ini_all
      (on_update_bool socket_enabled)

abbrev statsd_entry : IniEntry
statsd_entry =
    entry (codes "apm.statsd_enabled") (some (codes "1")) php_ini_perdir
      (on_update_bool statsd_enabled)

abbrev passed_over : Globals
passed_over = record globals {
  socket = record globals.socket { settings = record globals.socket.settings { enabled = false } };
}

-- A build with one driver.
abbrev with_only : (statsd socket : Bool) → Build
with_only statsd socket = record {
  driver_sqlite3 = false;
  driver_mysql = false;
  driver_statsd = statsd;
  driver_socket = socket;
  have_curl = false;
}

IsIn-append : (e : IniEntry) (xs ys : List IniEntry) → IsIn e ys → IsIn e (xs ++ ys)
IsIn-append e [] ys h = h
IsIn-append e (x ∷ xs) ys h = inr (IsIn-append e xs ys h)

socket_entry-IsIn : IsIn socket_entry (ini_entries (with_only false true) [])
unfolding ini_entries
socket_entry-IsIn = IsIn-append socket_entry module_entries socket_entries (inl refl)

statsd_entry-IsIn : IsIn statsd_entry (ini_entries (with_only true false) [])
unfolding ini_entries
statsd_entry-IsIn = IsIn-append statsd_entry module_entries statsd_entries (inl refl)

script_changes_reserved_example :
    (switches globals ≡ switches passed_over)
    × (modes globals ≡ modes passed_over)
    × (true && true ≡ true)
unfolding updates modify digits_value
script_changes_reserved_example =
    script_changes_reserved engine env 4096 (with_only false true) []
      ((socket_entry, some (codes "1")) ∷ []) passed_over globals (socket_entry-IsIn, tt) (refl, tt)
      ran
  where
    ran :
        updates engine env 4096 ((socket_entry, some (codes "1")) ∷ []) passed_over
        ≡ some (tt, globals)
    ran = refl

abbrev dropping : Bool → Globals
dropping enabled = record globals {
  statsd = record globals.statsd {
    settings = record globals.statsd.settings {
      enabled = enabled;
      process_silenced_events = false;
    };
  };
}

statsd_drops_silenced_example :
    want_event (dropping true).statsd.settings true error_event e_warning (codes "m") ≡ false
unfolding updates modify digits_value
statsd_drops_silenced_example =
    statsd_drops_silenced engine env 4096 (with_only true false) []
      ((statsd_entry, some (codes "1")) ∷ []) (dropping false) (dropping true) error_event e_warning
      (codes "m") (statsd_entry-IsIn, tt) refl ran
  where
    ran :
        updates engine env 4096 ((statsd_entry, some (codes "1")) ∷ []) (dropping false)
        ≡ some (tt, dropping true)
    ran = refl

abbrev begun : Globals → Globals
begun g = record g {
  orig_begin_silence_handler = none;
  begin_silence_handler = some apm_hook;
  orig_end_silence_handler = none;
  end_silence_handler = some apm_hook;
  request_data = empty_request_data;
  begin_tp = env.gettimeofday [];
  begin_usg = env.getrusage [];
  zend_error_cb = apm_hook;
  throw_exception_hook = some apm_hook;
}

late_socket_faults_example :
    process_event
        (drivers env (with_only false true))
        (elastic env (with_only false true))
        (pure [])
        error_event
        e_warning
        (some (codes "f"))
        3
        (codes "m")
        (begun globals)
      ≡ none
    × ((k : Globals)
        → (driver_of env of_socket).process_event
            (event e_warning (some (codes "f")) 3 (codes "m") [])
            (record k { socket = (begun globals).socket })
          ≡ none)
unfolding rinit until_failure prepared drivers built driver_of create updates modify digits_value
    want_event
late_socket_faults_example =
    late_socket_faults engine env 4096 (with_only false true) []
      ((socket_entry, some (codes "1")) ∷ []) passed_over (begun passed_over) (begun globals)
      (begun globals) success (pure []) error_event e_warning (some (codes "f")) 3 (codes "m") []
      refl refl refl request_begun (socket_entry-IsIn, tt) ran refl refl wanted
  where
    request_begun :
        rinit
          (drivers env (with_only false true))
          (elastic env (with_only false true))
          env
          passed_over
        ≡ some (success, begun passed_over)
    request_begun = refl

    ran :
        updates engine env 4096 ((socket_entry, some (codes "1")) ∷ []) (begun passed_over)
        ≡ some (tt, begun globals)
    ran = refl

    wanted : want_event globals.socket.settings false error_event e_warning (codes "m") ≡ true
    wanted = refl
