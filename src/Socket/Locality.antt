-- ===== src/Socket/Locality.antt =====
-- What driver_socket.c changes of the module globals.
use php_apm.Common.{
  ℕ, Bool, true, false, not, ◌&&◌, ◌||◌, Bool-cases, inl, inr, Bytes, codes, c_string, Option, none,
  some, List, [], ◌∷◌, ◌≡◌, refl, sym, subst, arith,
}
use php_apm.World.{Env, sent, closed}
use php_apm.Globals.{EventArgs, Item, SocketState, Globals, success}
use php_apm.Globals.Runs.{Keeps, Keeps-pure, bind-Keeps, get-Keeps, then_value, else_value}
use php_apm.Globals.Owners.{
  of_socket, IsLocal, with_part, pure-IsLocal, bind-IsLocal, if-IsLocal, emit-IsLocal, get-IsLocal,
  Keeps-IsLocal, extract_data-IsLocal,
}
use php_apm.Socket
use php_apm.Socket.{collect_errors, has_events, clear_events}
use php_apm.Socket.Connect.{connect_all}
use php_apm.Socket.Descriptors.{connect_all-Connected}
use php_apm.Socket.Shutdown.{
  string_field, from_list, on_list, add_z_data, zval_of, request_details, above_threshold,
  detail_fields, errors_field, request_fields, send_all, close_all, report_to, rshutdown,
}
use php_apm.Socket.Shutdown

string_field-Keeps : (key : Bytes) (o : Option Bytes) → Keeps (string_field key o)
string_field-Keeps key none g a h e = cc
string_field-Keeps key (some s) g a h e = Keeps-pure _ g a h e

zval-Keeps : (key : Bytes) (i : Item) → Keeps (add_z_data key i)
zval-Keeps key i g a h e = ground arith

list-Keeps : {A : Type 0} (f : SocketState → Option A) → Keeps (from_list f)
list-Keeps f g a h e = ground arith

on_list-IsLocal : (f : SocketState → Option SocketState) → IsLocal of_socket (on_list f)
on_list-IsLocal f g a h e = ground arith

module _ (env : Env) where
  details-Keeps : (k : Globals) → Keeps (request_details env k)
  details-Keeps k = bind-Keeps _ _ (zval-Keeps (codes "ip") k.request_data.ip) λ ip.
      bind-Keeps _ _ (zval-Keeps (codes "referer") k.request_data.referer) λ referer.
        bind-Keeps _ _ (zval-Keeps (codes "method") k.request_data.method) λ method. Keeps-pure _

  detail_fields-Keeps : (events : Bool) → Keeps (detail_fields env events)
  unfolding detail_fields
  detail_fields-Keeps events g a h e = elim (Bool-cases (events || above_threshold env g)) [
    | inl shown ↦
        details-Keeps g g a h
          (then_value (events || above_threshold env g) _ (some ([], g)) e shown)
    | inr hidden ↦
        Keeps-pure [] g a h
          (else_value (events || above_threshold env g) (request_details env g g) _ e hidden)
  ]

  errors-Keeps : (events : Bool) → Keeps (errors_field env events)
  unfolding errors_field
  errors-Keeps true = bind-Keeps _ _ (list-Keeps collect_errors) λ rs. Keeps-pure _
  errors-Keeps false = Keeps-pure _

  request_fields-Keeps : Keeps (request_fields env)
  unfolding request_fields
  request_fields-Keeps = bind-Keeps _ _ get-Keeps λ g.
      bind-Keeps _ _ (string_field-Keeps (codes "application_id") g.settings.application_id) λ app.
        bind-Keeps _ _ (zval-Keeps (codes "ts") g.request_data.ts) λ ts.
          bind-Keeps _ _ (zval-Keeps (codes "script") g.request_data.script) λ script.
            bind-Keeps _ _ (zval-Keeps (codes "uri") g.request_data.uri) λ uri.
              bind-Keeps _ _ (zval-Keeps (codes "host") g.request_data.host) λ host.
                bind-Keeps _ _ (list-Keeps has_events) λ events.
                  bind-Keeps _ _ (detail_fields-Keeps events)
                    λ details. bind-Keeps _ _ (errors-Keeps events) λ errors. Keeps-pure _

send_all-IsLocal : (sds : List ℕ) (buf : Bytes) → IsLocal of_socket (send_all sds buf)
unfolding send_all
send_all-IsLocal [] buf = pure-IsLocal of_socket tt
send_all-IsLocal (sd ∷ sds) buf =
    bind-IsLocal of_socket _ _ (emit-IsLocal of_socket (sent sd buf)) λ _. send_all-IsLocal sds buf

close_all-IsLocal : (sds : List ℕ) → IsLocal of_socket (close_all sds)
unfolding close_all
close_all-IsLocal [] = pure-IsLocal of_socket tt
close_all-IsLocal (sd ∷ sds) =
    bind-IsLocal of_socket _ _ (emit-IsLocal of_socket (closed sd)) λ _. close_all-IsLocal sds

module _ (env : Env) where
  connect_all-IsLocal : (path : Bytes) → IsLocal of_socket (connect_all env path)
  connect_all-IsLocal path g sds h e =
      subst (λ x. x ≡ with_part of_socket g x) (sym (connect_all-Connected env path g sds h e).0.0)
        refl

  report_to-IsLocal : (sds : List ℕ) → IsLocal of_socket (report_to env sds)
  unfolding report_to
  report_to-IsLocal sds =
      bind-IsLocal of_socket _ _ (Keeps-IsLocal of_socket _ (request_fields-Keeps env)) λ fields.
        bind-IsLocal of_socket _ _ (send_all-IsLocal sds (env.php_json_encode fields)) λ _.
          bind-IsLocal of_socket _ _ (on_list-IsLocal clear_events) λ _.
            bind-IsLocal of_socket _ _ (close_all-IsLocal sds) λ _. pure-IsLocal of_socket success

  pub rshutdown-IsLocal : IsLocal of_socket (rshutdown env)
  unfolding rshutdown
  rshutdown-IsLocal = bind-IsLocal of_socket _ _ (get-IsLocal of_socket) λ g.
      if-IsLocal of_socket (not (g.settings.enabled && g.socket.settings.enabled)) _ _
        (pure-IsLocal of_socket success)
        (bind-IsLocal of_socket _ _ (extract_data-IsLocal of_socket env) λ _.
          bind-IsLocal of_socket _ _ (get-IsLocal of_socket) λ h.
            bind-IsLocal of_socket _ _ (connect_all-IsLocal (c_string h.socket.path))
              report_to-IsLocal)

pub process_event-IsLocal : (x : EventArgs) → IsLocal of_socket (Shutdown.process_event x)
unfolding Shutdown.process_event
process_event-IsLocal x g a h e =
    on_list-IsLocal (Socket.process_event g.settings.store_stacktrace x) g a h e

pub rinit-IsLocal : IsLocal of_socket Shutdown.rinit
unfolding Shutdown.rinit
rinit-IsLocal g a h e = ground arith
