-- ===== src/Socket/Reporting.antt =====
-- `apm_driver_socket_rshutdown` of driver_socket.c as a whole, behind the events of a request.
use php_apm.Common.{
  ℕ, ◌+◌, ◌≤◌, ◌<◌, Bool, true, not, ◌&&◌, Bytes, c_string, length, none, some, List, ◌++◌, ◌≡◌,
  sym, ap, ◌∙◌, subst, All, arith,
}
use php_apm.World.{Env, Log}
use php_apm.Globals.{EventArgs, Ptr, SocketState, Globals, success, pure}
use php_apm.Globals.Runs.{continued, run_false}
use php_apm.Request.{extracted}
use php_apm.Request.Extract.{extracted-keeps, IsSound, IsTyped, extracted-IsSound}
use php_apm.Socket.{Report, reports, collect_errors, has_events, clear_events}
use php_apm.Socket.Clear.{process_events, map_recorded, IsNamed, is_cons, session}
use php_apm.Socket.Connect.{max_sockets, connect_all}
use php_apm.Socket.Descriptors.{opens, closes, count, sends, IsHeld, connect_all-Connected}
use php_apm.Socket.Returns.{connect_all_returns}
use php_apm.Socket.Session.{
  errors_of, request_fields-Returns, sent_log, closed_log, sent_to, sends-sent_log,
  sends-closed_log, sent_log-balance, closed_log-balance, report_to_lem,
}
use php_apm.Socket.Shutdown.{Fields, report_to, rshutdown}
use php_apm.Socket

-- The log of a report to the connections that were made.
ended_log :
    (sds : List ℕ) (buf : Bytes) (l0 l : Log)
    → sends l ≡ sends l0
    → ((fd : ℕ) → opens fd l + closes fd l0 ≡ closes fd l + opens fd l0 + count fd sds)
    → (sends (closed_log sds (sent_log sds buf l)) ≡ sent_to sds buf (sends l0))
      × ((fd : ℕ)
          → opens fd (closed_log sds (sent_log sds buf l)) + closes fd l0
            ≡ closes fd (closed_log sds (sent_log sds buf l)) + opens fd l0)
ended_log sds buf l0 l quiet holds =
    let sent_l = sent_log sds buf l in
    (
      sends-closed_log sds sent_l ∙ sends-sent_log sds buf l ∙ ap (sent_to sds buf) quiet,
      λ fd.
          let (o, c) = closed_log-balance fd sds sent_l in
          let (o', c') = sent_log-balance fd sds buf l in omega (arith, o, c, o', c', holds fd),
    )

-- What the report does with connections, from globals that have the events of the request.
reported :
    (env : Env) (k : Globals) (sds : List ℕ) (app : Bytes) (events : Bool) (rs : List Report)
    (u : SocketState)
    → IsTyped k.request_data
    → k.settings.application_id ≡ some app
    → has_events k.socket ≡ some events
    → collect_errors k.socket ≡ some rs
    → clear_events k.socket ≡ some u
    → (front : Fields) × (report_to env sds k
        ≡ some (
          success,
          record k {
            socket = u;
            log =
                closed_log sds
                  (sent_log sds (env.php_json_encode (front ++ errors_of events rs)) k.log);
          },
        ))
reported env k sds app events rs u typed app_named some_events listed cleared =
    let (front, made) =
      request_fields-Returns env k typed app events rs app_named some_events listed in
    (front, report_to_lem env sds (front ++ errors_of events rs) k u made cleared)

-- The end of an enabled request with an application id and sound request data that had the events `xs`,
-- each with a file and a message, on a heap that is unused from `fresh` on; whose path is shorter than the
-- buffers it is copied to, and whose reports can be read: RSHUTDOWN of the driver returns with success.
-- The loop over the path has made connections, at most MAX_SOCKETS, which are just what it opened and did
-- not close; each of them was sent one message and no other, the encoding of fields that
-- end with exactly the reports of the events in their order, or with none where no event came; every
-- descriptor that was opened is closed, and the heap is as it was before the request.
pub rshutdown_reports :
    (env : Env) (g : Globals) (s : SocketState) (app : Bytes) (b : Bool) (xs : List EventArgs)
    (rs : List Report)
    → (g.settings.enabled && g.socket.settings.enabled) ≡ true
    → IsSound g.request_data
    → g.settings.application_id ≡ some app
    → length (c_string g.socket.path) + 1 ≤ env.sun_path_size
    → length (c_string g.socket.path) < 1024
    → All IsNamed xs
    → 0 < s.fresh
    → ((a : Ptr) → s.fresh ≤ a → s.heap a ≡ none)
    → process_events b xs (Socket.rinit s) ≡ some g.socket
    → reports (map_recorded b xs) ≡ some rs
    → (h : Globals) × (sds : List ℕ) × (k : Globals) × (front : Fields) × (rshutdown env g
        ≡ some (success, h))
      × (connect_all env (c_string g.socket.path) (extracted env g) ≡ some (sds, k))
      × IsHeld g.log k.log sds
      × (length sds ≤ max_sockets)
      × (sends h.log
          ≡ sent_to sds (env.php_json_encode (front ++ errors_of (is_cons xs) rs)) (sends g.log))
      × ((fd : ℕ) → opens fd h.log + closes fd g.log ≡ closes fd h.log + opens fd g.log)
      × ((a : Ptr) → h.socket.heap a ≡ s.heap a)
unfolding rshutdown
rshutdown_reports env g s app b xs rs enabled sound app_named file host all_named fresh_pos unused
      handled readable =
    let k0 = extracted env g in
    let kept : k0 ≡ record g { request_data = k0.request_data } = extracted-keeps env g in
    let path_kept : k0.socket ≡ g.socket = ap (λ (x : Globals). x.socket) kept in
    let (sds, k, joined) =
      connect_all_returns env (c_string k0.socket.path) k0 (rw path_kept file)
        (rw path_kept host) in
    let ((same, quiet, holds), room) =
      connect_all-Connected env (c_string k0.socket.path) k0 sds k joined in
    let (t, u, ran, listed, some_events, cleared, restored) =
      session b xs s all_named fresh_pos unused in
    let at_end : t ≡ k.socket = cc (ran, handled, ap (λ (x : Globals). x.socket) same, path_kept) in
    let (front, done) =
      reported env k sds app (is_cons xs) rs u
        (subst (λ (x : Globals). IsTyped x.request_data) (sym same)
          (extracted-IsSound env g sound).0.typed)
        (ap (λ (x : Globals). x.settings.application_id) same
          ∙ ap (λ (x : Globals). x.settings.application_id) kept
          ∙ app_named)
        (subst (λ x. has_events x ≡ some (is_cons xs)) at_end some_events)
        (subst (λ x. collect_errors x ≡ some rs) at_end (listed ∙ readable))
        (subst (λ x. clear_events x ≡ some u) at_end cleared) in
    let (messages, balance) =
      ended_log sds (env.php_json_encode (front ++ errors_of (is_cons xs) rs)) g.log k.log
        (quiet ∙ ap (λ (x : Globals). sends x.log) kept)
        (subst
          (λ (x : Globals).
            (fd : ℕ)
            → opens fd k.log + closes fd x.log ≡ closes fd k.log + opens fd x.log + count fd sds)
          kept holds) in
    (
      _,
      sds,
      k,
      front,
      run_false _ (pure success) _ g (ap not enabled) ∙ continued _ joined ∙ done,
      ap (λ (x : SocketState). connect_all env (c_string x.path) k0) (sym path_kept) ∙ joined,
      subst (λ (x : Globals). IsHeld x.log k.log sds) kept holds,
      room,
      messages,
      balance,
      restored,
    )
