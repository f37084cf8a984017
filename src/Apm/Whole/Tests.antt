-- ===== src/Apm/Whole/Tests.antt =====
-- A build with all drivers but the one for SQLite.
use php_apm.Common.{
  ℕ, arith, true, false, codes, Option, none, some, List, Bytes, ◌≡◌, refl, decimal_ℤ, starts_with,
}
use php_apm.Globals.{Globals, Run, Status, success, pure, ◌>>◌, apm_hook, other_hook}
use php_apm.Globals.Owners.{of_mysql}
use php_apm.Driver.{error_event, want_stats}
use php_apm.Socket.Connect.{connect_all}
use php_apm.Request.{extracted, find}
use php_apm.Statsd
use php_apm.Socket
use php_apm.Socket.Shutdown
use php_apm.Fixture.{env, globals}
use php_apm.Apm.{process_event, elastic_event, rinit, rshutdown}
use php_apm.Apm.Dispatch.{call_all, wanting, event}
use php_apm.Apm.Drivers.{Build, built, driver_of, drivers, elastic}
use php_apm.Apm.Entries.{
  DriverHeap, DriverList, ginit, loop_from, recursive_free_driver, ginit_refines,
}
use php_apm.Apm.Hooks.{handlers}
use php_apm.Apm.Composed.{KeepsToItself, driver_of-KeepsToItself}
use php_apm.Socket.{dummy}
use php_apm.Apm.Traced.{HasLines, backtrace, event_traced}
use php_apm.Backtrace.Walk.Lines.{Line, numbered}
use php_apm.Backtrace.Walk.Sample.{engine, store, no_counts, distance, chain, near}
use php_apm.Apm.Whole.{request_begins, request_restored}

abbrev build : Build
build = record {
  driver_sqlite3 = false;
  driver_mysql = true;
  driver_statsd = true;
  driver_socket = true;
  have_curl = true;
}

abbrev trace : Run Bytes
trace = pure (codes "#0")

driver_of-KeepsToItself_example : KeepsToItself of_mysql (driver_of env of_mysql)
driver_of-KeepsToItself_example = driver_of-KeepsToItself env of_mysql

request_begins_example :
    (h : Globals) × (rinit (drivers env build) (elastic env build) env globals ≡ some (success, h))
    × (h.zend_error_cb ≡ apm_hook)
    × (h.throw_exception_hook ≡ some apm_hook)
    × (handlers h ≡ (some apm_hook, some apm_hook, none, none, other_hook 0))
request_begins_example = request_begins env build globals refl

abbrev globals_of : Option (Status × Globals) → Globals
globals_of none = globals
globals_of (some (s, h)) = h

abbrev ready : Globals
ready = record globals { statsd = record globals.statsd { servinfo = true } }

abbrev small : Build
small = record build { driver_mysql = false; have_curl = false }

abbrev begun : Globals
begun = globals_of (rinit (drivers env small) (elastic env small) env ready)

abbrev ended : Globals
ended = globals_of (rshutdown (drivers env small) (elastic env small) env begun)

begins : rinit (drivers env small) (elastic env small) env ready ≡ some (success, begun)
unfolding rinit drivers Statsd.rinit Shutdown.rinit
begins = refl

ends : rshutdown (drivers env small) (elastic env small) env begun ≡ some (success, ended)
unfolding rinit rshutdown drivers elastic Statsd.rinit Shutdown.rinit want_stats
    Statsd.process_stats Statsd.rshutdown Shutdown.process_stats Shutdown.rshutdown
    Statsd.stats_data decimal_ℤ Socket.rinit connect_all extracted starts_with find
    Socket.has_events Socket.clear_events
ends = refl

enabled_then : begun.settings.enabled ≡ true
unfolding rinit drivers Statsd.rinit Shutdown.rinit
enabled_then = refl

request_restored_example :
    (ended.begin_silence_handler ≡ none)
    × (ended.end_silence_handler ≡ none)
    × (ended.throw_exception_hook ≡ none)
    × (ended.zend_error_cb ≡ other_hook 0)
request_restored_example =
    request_restored env small ready begun begun ended success refl enabled_then begins refl ends

abbrev empty : DriverHeap
empty a = none

ginit_refines_example :
    (l : DriverList) × (h' : DriverHeap) × (ginit build 1 empty ≡ some l)
    × (loop_from 5 l.heap l.drivers ≡ some (built build))
    × (recursive_free_driver 5 l.heap l.drivers ≡ some h')
    × ((a : ℕ) → h' a ≡ none)
ginit_refines_example = ginit_refines build 1 empty (omega arith) (λ a le. refl)

event_traced_example :
    (h : Globals) × (ls : List Line) × (process_event
        (drivers env build)
        (elastic env build)
        (backtrace engine store 6 no_counts)
        error_event
        8
        (some (codes "a.php"))
        12
        (codes "m")
        globals
      ≡ (call_all
              (λ d. d.process_event (event 8 (some (codes "a.php")) 12 (codes "m") (numbered 0 ls)))
              (wanting (λ d. d.want_event error_event 8 (codes "m")) h (drivers env build))
            >> elastic_event
                (drivers env build)
                (elastic env build)
                (event 8 (some (codes "a.php")) 12 (codes "m") (numbered 0 ls)))
          h)
    × (h ≡ record globals { log = h.log })
    × HasLines globals.settings.store_stacktrace engine globals.settings.dump_max_depth store 6
        no_counts ls
event_traced_example =
    event_traced env build engine distance store 6 no_counts error_event 8 (some (codes "a.php")) 12
      (codes "m") globals chain near (omega arith) (omega arith)
