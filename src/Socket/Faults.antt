-- ===== src/Socket/Faults.antt =====
-- Events without a trace in driver_socket.c.
use php_apm.Common.{◌≤◌, ◌<◌, false, none, some, List, ◌∷◌, ◌≡◌, arith, All, ◌∙◌}
use php_apm.Globals.{EventArgs, Ptr, SocketState}
use php_apm.Socket.{rinit, report, reports, collect_errors}
use php_apm.Socket.Queue.{recorded}
use php_apm.Socket.Clear.{process_events, map_recorded, IsNamed, session}

report-recorded_off : (x : EventArgs) → report (recorded false x) ≡ none
unfolding report
report-recorded_off x = ground arith

reports-recorded_off :
    (x : EventArgs) (xs : List EventArgs) → reports (map_recorded false (x ∷ xs)) ≡ none
unfolding reports
reports-recorded_off x xs = rw (report-recorded_off x)

-- With `apm.store_stacktrace` off, an event that is recorded has no trace, and `rshutdown` reads the
-- null pointer as a string: after any event at all, its report of the request faults.
pub untraced_faults :
    (x : EventArgs) (xs : List EventArgs) (s t : SocketState)
    → All IsNamed (x ∷ xs)
    → 0 < s.fresh
    → ((a : Ptr) → s.fresh ≤ a → s.heap a ≡ none)
    → process_events false (x ∷ xs) (rinit s) ≡ some t
    → collect_errors t ≡ none
untraced_faults x xs s t named pos unused ran =
    let (t', u, ran', reported, _, _, _) = session false (x ∷ xs) s named pos unused in
    let same : t' ≡ t = cc in rw (← same) (reported ∙ reports-recorded_off x xs)
