-- ===== src/Statsd/Tests.antt =====
-- A packet of driver_statsd.c, and its setup.
use php_apm.Common.{
  ◌^◌, true, ltb, codes, is_some, some, Option, none, [], decimal, ◌≡◌, refl, arith,
}
use php_apm.Globals.{EventArgs, Globals, Status, success}
use php_apm.Fixture.{env, globals}
use php_apm.Statsd.{event_data, process_event, minit}
use php_apm.Statsd.Packets.{packet, process_event_sends, minit_ports}

abbrev ready : Globals
ready = record globals { statsd = record globals.statsd { servinfo = true } }

abbrev warning : EventArgs
warning = record {
  type = 2;
  error_filename = some (codes "a.php");
  error_lineno = 1;
  msg = some (codes "m");
  trace = some [];
}

process_event_sends_example :
    process_event env warning ready
    ≡ some (tt, record ready { log = packet (some 5) (event_data (codes "apm") 2) [] })
process_event_sends_example = process_event_sends env ready warning refl (omega arith)

minit_ports_example : is_some (minit env globals) ≡ ltb 8125 (10 ^ 7)
minit_ports_example = minit_ports env globals refl refl

abbrev globals_of : Option (Status × Globals) → Globals
globals_of none = globals
globals_of (some (s, h)) = h

abbrev set_up : Globals
set_up = globals_of (minit env globals)

returned : minit env globals ≡ some (success, set_up)
unfolding minit decimal
returned = refl

still_enabled : set_up.statsd.settings.enabled ≡ true
unfolding minit decimal
still_enabled = refl
