-- ===== src/Ini/Late.antt =====
-- Changes of `apm.socket_enabled` within a request.
pub mod Begin
use php_apm.Common.{
  ℕ, Bool, true, false, if◌then◌else◌, Bytes, Option, none, some, List, [], ◌∷◌, ◌++◌, ◌≡◌, refl,
  sym, subst, ap, ◌∙◌, All, arith, Bool-cases, ◌⊎◌, inl, inr, Option-cases,
}
use php_apm.World.{Env}
use php_apm.Globals.{SocketState, EventArgs, Globals, Run, Status, success, failure, pure}
use php_apm.Globals.Runs.{
  bound, some_inj, then_case, else_case, then_value, else_value, if_true, if_false, continued,
}
use php_apm.Globals.Owners.{Owner, of_sqlite3, of_mysql, of_statsd, of_socket, IsLocal, with_part}
use php_apm.Driver.{EventType, Driver, create, on_update_error_reporting, want_event}
use php_apm.Apm.{process_event, elastic_event, until_failure, on_success, rinit, prepared, install}
use php_apm.Apm.Drivers.{Build, built, only_if, driver_of, all_drivers, drivers, elastic}
use php_apm.Apm.Composed.{driver_of-KeepsToItself}
use php_apm.Apm.Dispatch.{call_all, wanting, event}
use php_apm.Apm.Whole.{event_delivered}
use php_apm.Ini.Late.Begin.{IsUnready, IsPassedOver, others-keep_socket, rinit-IsPassedOver}
use php_apm.Ini.{IniEntry, Engine, updates}
use php_apm.Ini.Table.{ini_entries}
use php_apm.Ini.Stable.{IsIn, all_in, IsStable, updates-IsStable, ini_entries-All}
use php_apm.Socket
use php_apm.Socket.Shutdown

abbrev HasSocket : List Owner → Type 0
HasSocket [] = ⊥
HasSocket (o ∷ os) = (o ≡ of_socket) ⊎ HasSocket os

built-HasSocket : (b : Build) → b.driver_socket ≡ true → HasSocket (built b)
unfolding built
built-HasSocket b h = ground arith

module _ (env : Env) where
  socket_event_faults :
      (x : EventArgs) (g : Globals)
      → IsUnready g
      → (driver_of env of_socket).process_event x g ≡ none
  unfolding driver_of Shutdown.process_event Socket.process_event
  socket_event_faults x g p = rw p refl

  module _ (wants : Driver → Globals → Bool) (x : EventArgs) (h : Globals) where
    -- Some driver's call, and calls that fault from its end.
    behind_call :
        (o : Owner) (ds : List Driver) (g : Globals) (r : Option (Unit {0} × Globals))
        → (driver_of env o).process_event x g ≡ r
        → IsUnready g
        → ((k : Globals) → IsUnready k → call_all (λ d. d.process_event x) ds k ≡ none)
        → elim r [ none ↦ none | some (a, k) ↦ call_all (λ d. d.process_event x) ds k ] ≡ none
    behind_call o ds g none e p rest = refl
    behind_call o ds g (some (a, k)) e p rest =
        elim (others-keep_socket o g k ((driver_of-KeepsToItself env o).process_event x g a k e)) [
          | inl here ↦
              let ran : (driver_of env of_socket).process_event x g ≡ some (a, k) =
                subst (λ o. (driver_of env o).process_event x g ≡ some (a, k)) here e in
              absurd (cc (socket_event_faults x g p, ran))
          | inr same ↦ rest k (ap (λ (s : SocketState). s.last_event) same ∙ p)
        ]

    calls_fault :
        (os : List Owner) (g : Globals)
        → HasSocket os
        → wants (driver_of env of_socket) h ≡ true
        → IsUnready g
        → call_all (λ d. d.process_event x) (wanting wants h (all_drivers env os)) g ≡ none
    unfolding call_all wanting
    calls_fault [] g n w p = absurd n
    calls_fault (o ∷ os) g (inl here) w p =
        let rest = wanting wants h (all_drivers env os) in
        subst
          (λ o.
            call_all (λ d. d.process_event x)
              (if wants (driver_of env o) h then driver_of env o ∷ rest else rest) g
            ≡ none)
          (sym here)
          (ap (λ (l : List Driver). call_all (λ d. d.process_event x) l g) (if_true _ _ _ w)
            ∙ ap
                (λ (r : Option (Unit {0} × Globals)). elim r [
                  | none ↦ none
                  | some (a, k) ↦ call_all (λ d. d.process_event x) rest k
                ])
                (socket_event_faults x g p))
    calls_fault (o ∷ os) g (inr there) w p =
        let later : (k : Globals) → IsUnready k → _ = λ k q. calls_fault os k there w q in
        elim (Bool-cases (wants (driver_of env o) h)) [
          | inl on ↦
              ap (λ (l : List Driver). call_all (λ d. d.process_event x) l g) (if_true _ _ _ on)
              ∙ behind_call o (wanting wants h (all_drivers env os)) g
                  ((driver_of env o).process_event x g) refl p later
          | inr off ↦
              ap (λ (l : List Driver). call_all (λ d. d.process_event x) l g) (if_false _ _ _ off)
              ∙ later g p
        ]

ini_entries-IsUnready :
    (b : Build) (default_db : Bytes)
    → All (λ e. IsStable IsUnready e.on_modify) (ini_entries b default_db)
unfolding on_update_error_reporting
ini_entries-IsUnready b default_db =
    ini_entries-All _ b default_db (ground arith) (ground arith) (ground arith) (ground arith)
      (ground arith) (ground arith)

-- In a build with the socket driver, and in a process where no request was begun yet while the driver
-- was enabled, so that its pointer to the last event is still null: a request is begun while the driver
-- is disabled, settings are changed, the driver is enabled by that and wants an event whose trace is
-- there. The event is not handled to its end: the socket driver reads through the null pointer, whatever
-- the drivers before it have done, if none of them has faulted yet.
pub late_socket_faults :
    (engine : Engine) (env : Env) (maxpathlen : ℕ) (b : Build) (default_db : Bytes)
    (us : List (IniEntry × Option Bytes)) (g g1 g2 g3 : Globals) (s : Status)
    (append_backtrace : Run Bytes) (event_type : EventType) (type : ℕ)
    (error_filename : Option Bytes) (error_lineno : ℕ) (msg trace_val : Bytes)
    → b.driver_socket ≡ true
    → g.socket.last_event ≡ none
    → g.socket.settings.enabled ≡ false
    → rinit (drivers env b) (elastic env b) env g ≡ some (s, g1)
    → All (λ u. IsIn u.0 (ini_entries b default_db)) us
    → updates engine env maxpathlen us g1 ≡ some (tt, g2)
    → (if g2.settings.store_stacktrace then append_backtrace else pure []) g2 ≡ some (trace_val, g3)
    → g3.socket ≡ g2.socket
    → want_event g3.socket.settings g3.currently_silenced event_type type msg ≡ true
    → process_event
          (drivers env b)
          (elastic env b)
          append_backtrace
          event_type
          type
          error_filename
          error_lineno
          msg
          g2
        ≡ none
      × ((k : Globals)
          → (driver_of env of_socket).process_event
              (event type error_filename error_lineno msg trace_val)
              (record k { socket = g3.socket })
            ≡ none)
unfolding drivers driver_of
late_socket_faults engine env maxpathlen b default_db us g g1 g2 g3 s append_backtrace event_type
      type error_filename error_lineno msg trace_val socket fresh off begun among changed traced
      same wanted =
    let (unready, _) = rinit-IsPassedOver env b g g1 s begun (fresh, off) in
    let unready : IsUnready g2 =
      updates-IsStable engine env maxpathlen IsUnready us g1 g2
        (all_in _ us (ini_entries b default_db) (ini_entries-IsUnready b default_db) among) changed
        unready in
    let unready : IsUnready g3 = ap (λ (s : SocketState). s.last_event) same ∙ unready in
    let x = event type error_filename error_lineno msg trace_val in
    (
      event_delivered env b append_backtrace event_type type error_filename error_lineno msg g2 g3
            trace_val traced
          ∙ ap
              (λ (r : Option (Unit {0} × Globals)). elim r [
                | none ↦ none
                | some (a, k) ↦ elastic_event (drivers env b) (elastic env b) x k
              ])
              (calls_fault env (λ d. d.want_event event_type type msg) x g3 (built b) g3
                (built-HasSocket b socket) wanted unready),
      λ k. socket_event_faults env x (record k { socket = g3.socket }) unready,
    )
