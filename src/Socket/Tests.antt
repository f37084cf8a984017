-- ===== src/Socket/Tests.antt =====
-- The event list of a request with two events.
use php_apm.Common.{
  ℕ, ◌+◌, ◌≤◌, Bytes, c_string, length, starts_with, ◌++◌, true, false, none, some, Option, List,
  [], ◌∷◌, ◌≡◌, refl, arith, codes, or_else,
}
use php_apm.Globals.{EventArgs, Ptr, SocketState, Globals, success}
use php_apm.Fixture.{env, globals}
use php_apm.Request.{extracted}
use php_apm.Request.Extract.{IsSound}
use php_apm.Socket.Connect.{connect_all, max_sockets}
use php_apm.Socket.Descriptors.{opens, closes, sends, IsHeld, Connected, connect_all-Connected}
use php_apm.Socket.Parts.{render, connect_each, connect_all-render}
use php_apm.Socket.Returns.{connect_all_returns}
use php_apm.Socket.Session.{errors_of, sent_to}
use php_apm.Socket.Shutdown.{Fields, rshutdown}
use php_apm.Socket.Reporting.{rshutdown_reports}
use php_apm.Socket.{
  Report, report, rinit, process_event, clear_events, has_events, collect_errors, reports,
}
use php_apm.Socket.Clear.{process_events, map_recorded, is_cons, session}
use php_apm.Socket.Faults.{untraced_faults}

abbrev notice : EventArgs
notice = record {
  type = 8;
  error_filename = some (codes "a.php");
  error_lineno = 3;
  msg = some (codes "undefined");
  trace = some (codes "#0 main()");
}

abbrev events : List EventArgs
events = notice ∷ record notice { error_lineno = 4 } ∷ []

session_example :
    (t u : SocketState) × (process_events true events (rinit globals.socket) ≡ some t)
    × (collect_errors t ≡ reports (map_recorded true events))
    × (has_events t ≡ some (is_cons events))
    × (clear_events t ≡ some u)
    × ((a : Ptr) → u.heap a ≡ globals.socket.heap a)
session_example =
    session true events globals.socket ((refl, refl), ((refl, refl), tt)) (omega arith)
      (λ a le. refl)

-- the state after the two events, with traces dropped
abbrev untraced : SocketState
untraced = or_else (process_events false events (rinit globals.socket)) globals.socket

untraced_faults_example : collect_errors untraced ≡ none
unfolding process_events process_event rinit
untraced_faults_example =
    untraced_faults notice (record notice { error_lineno = 4 } ∷ []) globals.socket untraced
      ((refl, refl), ((refl, refl), tt)) (omega arith) (λ a le. refl) refl

abbrev target : Bytes
target = codes "file:/a|tcp:h:1"

connect_all_returns_example :
    (sds : List ℕ) × (h : Globals) × (connect_all env target globals ≡ some (sds, h))
connect_all_returns_example = connect_all_returns env target globals (omega arith) (omega arith)

abbrev globals_of : Option (List ℕ × Globals) → Globals
globals_of none = globals
globals_of (some (sds, h)) = h

abbrev joined : Globals
joined = globals_of (connect_all env target globals)

abbrev both : List ℕ
both = 5 ∷ 5 ∷ []

connect_all-Connected_example : Connected globals both joined × (length both ≤ max_sockets)
unfolding connect_all starts_with
connect_all-Connected_example = connect_all-Connected env target globals both joined refl

abbrev full : Globals
full = record globals {
  socket = or_else (process_events true events (rinit globals.socket)) globals.socket;
}

full-IsSound : IsSound full.request_data
full-IsSound = ground arith

abbrev two_reports : List Report
two_reports = or_else (reports (map_recorded true events)) []

rshutdown_reports_example :
    (h : Globals) × (sds : List ℕ) × (k : Globals) × (front : Fields) × (rshutdown env full
      ≡ some (success, h))
    × (connect_all env (c_string full.socket.path) (extracted env full) ≡ some (sds, k))
    × IsHeld full.log k.log sds
    × (length sds ≤ max_sockets)
    × (sends h.log ≡ sent_to sds (env.php_json_encode (front ++ errors_of true two_reports)) [])
    × ((fd : ℕ) → opens fd h.log + 0 ≡ closes fd h.log + 0)
    × ((a : Ptr) → h.socket.heap a ≡ none)
unfolding sends opens closes reports report process_events process_event rinit
rshutdown_reports_example =
    rshutdown_reports env full globals.socket (codes "app") true events two_reports refl
      full-IsSound refl (omega arith) (omega arith) ((refl, refl), ((refl, refl), tt)) (omega arith)
      (λ a le. refl) refl refl

abbrev parts : List Bytes
parts = codes "file:/a" ∷ codes "tcp:h:1" ∷ []

connect_all-render_example : connect_all env (render parts) ≡ connect_each env [] parts
connect_all-render_example = connect_all-render env parts (ground arith)
