-- ===== src/Socket/Session.antt =====
-- The parts of `apm_driver_socket_rshutdown` of driver_socket.c behind the connections.
use php_apm.Common.{
  ℕ, ◌+◌, Bool, true, false, ◌||◌, if◌then◌else◌, Bytes, codes, Option, none, some, List, [], ◌∷◌,
  ◌++◌, ◌≡◌, refl, ap, ◌∙◌, arith, Bool-cases, inl, inr, append_assoc,
}
use php_apm.World.{Env, Log, Var, sent, closed, scalar, json_string, json_long, array}
use php_apm.Globals.{Item, SocketState, Globals, success}
use php_apm.Globals.Runs.{continued, if_true, if_false}
use php_apm.Request.{is_string, is_long}
use php_apm.Request.Extract.{Holds, IsTyped}
use php_apm.Socket.{Report, collect_errors, has_events, clear_events}
use php_apm.Socket.Descriptors.{opens, closes, count, sends}
use php_apm.Socket.Shutdown.{
  Fields, string_field, from_list, on_list, add_z_data, all_error_fields, above_threshold,
  request_details, detail_fields, stats_fields, errors_field, request_fields, send_all, close_all,
  report_to,
}

-- A field of the request's data has a value where its flag is set.
zval-Returns :
    (key : Bytes) (is_type : Var → Bool) (v : Option Var) (found : Bool) (g : Globals)
    → Holds is_type (record { var = v; found = found })
    → (fs : Fields) × (add_z_data key (record { var = v; found = found }) g ≡ some (fs, g))
zval-Returns key is_type v false g h = ([], refl)
zval-Returns key is_type none true g h = absurd (cc (h refl))
zval-Returns key is_type (some v) true g h = (_, refl)

item-Returns :
    (key : Bytes) (is_type : Var → Bool) (i : Item) (g : Globals)
    → Holds is_type i
    → (fs : Fields) × (add_z_data key i g ≡ some (fs, g))
item-Returns key is_type i g h = zval-Returns key is_type i.var i.found g h

from_list_lem :
    {A : Type 0} (f : SocketState → Option A) (g : Globals) (a : A)
    → f g.socket ≡ some a
    → from_list f g ≡ some (a, g)
from_list_lem {A} f g a e = ap (λ (o : Option A). elim o [ none ↦ none | some b ↦ some (b, g) ]) e

on_list_lem :
    (f : SocketState → Option SocketState) (g : Globals) (s : SocketState)
    → f g.socket ≡ some s
    → on_list f g ≡ some (tt, record g { socket = s })
on_list_lem f g s e =
    ap {B = Option (Unit {0} × Globals)}
      (λ (o : Option SocketState). elim o [
        | none ↦ none
        | some b ↦ some (tt, record g { socket = b })
      ])
      e

string_field_lem :
    (key app : Bytes) (o : Option Bytes) (g : Globals)
    → o ≡ some app
    → string_field key o g ≡ some ((key, scalar (json_string app)) ∷ [], g)
string_field_lem key app none g e = cc
string_field_lem key app (some s) g e = cc

abbrev pub errors_of : Bool → List Report → Fields
errors_of events rs = if events then (codes "errors", array (all_error_fields rs)) ∷ [] else []

module _ (env : Env) (g : Globals) (t : IsTyped g.request_data) where
  details-Returns : (fs : Fields) × (request_details env g g ≡ some (fs, g))
  details-Returns =
      let (ip, e1) = item-Returns (codes "ip") is_string g.request_data.ip g t.ip in
      let (referer, e2) =
        item-Returns (codes "referer") is_string g.request_data.referer g t.referer in
      let (method, e3) = item-Returns (codes "method") is_string g.request_data.method g t.method in
      (_, continued _ e1 ∙ continued _ e2 ∙ continued _ e3)

  detail_fields-Returns :
      (events : Bool) → (fs : Fields) × (detail_fields env events g ≡ some (fs, g))
  unfolding detail_fields
  detail_fields-Returns events =
      let (fs, e) = details-Returns in
      elim (Bool-cases (events || above_threshold env g)) [
        | inl shown ↦ (fs, if_true _ _ _ shown ∙ e)
        | inr hidden ↦ ([], if_false _ _ _ hidden)
      ]

  errors_field-Returns :
      (events : Bool) (rs : List Report)
      → collect_errors g.socket ≡ some rs
      → errors_field env events g ≡ some (errors_of events rs, g)
  unfolding errors_field
  errors_field-Returns true rs e = continued _ (from_list_lem collect_errors g rs e)
  errors_field-Returns false rs e = refl

  -- Of the other fields nothing is said but that they are there, in front of the errors.
  pub request_fields-Returns :
      (app : Bytes) (events : Bool) (rs : List Report)
      → g.settings.application_id ≡ some app
      → has_events g.socket ≡ some events
      → collect_errors g.socket ≡ some rs
      → (front : Fields) × (request_fields env g ≡ some (front ++ errors_of events rs, g))
  unfolding request_fields
  request_fields-Returns app events rs named some_events listed =
      let (ts, e2) = item-Returns (codes "ts") is_long g.request_data.ts g t.ts in
      let (script, e3) = item-Returns (codes "script") is_string g.request_data.script g t.script in
      let (uri, e4) = item-Returns (codes "uri") is_string g.request_data.uri g t.uri in
      let (host, e5) = item-Returns (codes "host") is_string g.request_data.host g t.host in
      let (details, e7) = detail_fields-Returns events in
      let front =
        (codes "application_id", scalar (json_string app))
          ∷ (codes "response_code", scalar (json_long (env.http_response_code g.log)))
          ∷ ts
        ++ script
        ++ uri
        ++ host
        ++ details
        ++ stats_fields env g in
      (
        front,
        continued _
              (string_field_lem (codes "application_id") app g.settings.application_id g named)
            ∙ continued _ e2
            ∙ continued _ e3
            ∙ continued _ e4
            ∙ continued _ e5
            ∙ continued _ (from_list_lem has_events g events some_events)
            ∙ continued _ e7
            ∙ continued _ (errors_field-Returns events rs listed)
            ∙ ap (λ (fs : Fields). some (fs, g)) (simp append_assoc),
      )

-- The log after the loops over the connections.
abbrev pub sent_log : List ℕ → Bytes → Log → Log
sent_log [] buf l = l
sent_log (sd ∷ sds) buf l = sent_log sds buf (sent sd buf ∷ l)

abbrev pub closed_log : List ℕ → Log → Log
closed_log [] l = l
closed_log (sd ∷ sds) l = closed_log sds (closed sd ∷ l)

send_all_lem :
    (sds : List ℕ) (buf : Bytes) (g : Globals)
    → send_all sds buf g ≡ some (tt, record g { log = sent_log sds buf g.log })
unfolding send_all
send_all_lem [] buf g = refl
send_all_lem (sd ∷ sds) buf g = send_all_lem sds buf (record g { log = sent sd buf ∷ g.log })

close_all_lem :
    (sds : List ℕ) (g : Globals)
    → close_all sds g ≡ some (tt, record g { log = closed_log sds g.log })
unfolding close_all
close_all_lem [] g = refl
close_all_lem (sd ∷ sds) g = close_all_lem sds (record g { log = closed sd ∷ g.log })

-- One message for each connection, in their order, the latest first.
abbrev pub sent_to : List ℕ → Bytes → List (ℕ × Bytes) → List (ℕ × Bytes)
sent_to [] buf before_it = before_it
sent_to (sd ∷ sds) buf before_it = sent_to sds buf ((sd, buf) ∷ before_it)

pub sends-sent_log :
    (sds : List ℕ) (buf : Bytes) (l : Log) → sends (sent_log sds buf l) ≡ sent_to sds buf (sends l)
unfolding sends
sends-sent_log [] buf l = refl
sends-sent_log (sd ∷ sds) buf l = sends-sent_log sds buf (sent sd buf ∷ l)

pub sends-closed_log : (sds : List ℕ) (l : Log) → sends (closed_log sds l) ≡ sends l
unfolding sends
sends-closed_log [] l = refl
sends-closed_log (sd ∷ sds) l = sends-closed_log sds (closed sd ∷ l)

pub sent_log-balance :
    (fd : ℕ) (sds : List ℕ) (buf : Bytes) (l : Log)
    → (opens fd (sent_log sds buf l) ≡ opens fd l) × (closes fd (sent_log sds buf l) ≡ closes fd l)
unfolding opens closes
sent_log-balance fd [] buf l = (refl, refl)
sent_log-balance fd (sd ∷ sds) buf l = sent_log-balance fd sds buf (sent sd buf ∷ l)

pub closed_log-balance :
    (fd : ℕ) (sds : List ℕ) (l : Log)
    → (opens fd (closed_log sds l) ≡ opens fd l)
      × (closes fd (closed_log sds l) ≡ closes fd l + count fd sds)
unfolding opens closes count
closed_log-balance fd [] l = (refl, omega arith)
closed_log-balance fd (sd ∷ sds) l =
    let (o, c) = closed_log-balance fd sds (closed sd ∷ l) in ground arith

-- The report to the connections `sds`.
pub report_to_lem :
    (env : Env) (sds : List ℕ) (fields : Fields) (g : Globals) (u : SocketState)
    → request_fields env g ≡ some (fields, g)
    → clear_events g.socket ≡ some u
    → report_to env sds g
      ≡ some (
        success,
        record g {
          socket = u;
          log = closed_log sds (sent_log sds (env.php_json_encode fields) g.log);
        },
      )
unfolding report_to
report_to_lem env sds fields g u made cleared =
    continued _ made
    ∙ continued _ (send_all_lem sds (env.php_json_encode fields) g)
    ∙ continued _ (on_list_lem clear_events _ u cleared)
    ∙ continued _ (close_all_lem sds _)
