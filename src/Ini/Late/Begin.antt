-- ===== src/Ini/Late/Begin.antt =====
-- A request that begins while the socket driver is disabled.
use php_apm.Common.{
  true, false, if◌then◌else◌, none, some, List, [], ◌∷◌, ◌≡◌, refl, sym, subst, ap, arith,
  Bool-cases, ◌⊎◌, inl, inr,
}
use php_apm.World.{Env}
use php_apm.Globals.{SocketState, Globals, Run, Status, success, failure, pure}
use php_apm.Globals.Runs.{bound, some_inj, then_case, else_case, then_value, else_value}
use php_apm.Globals.Owners.{Owner, of_sqlite3, of_mysql, of_statsd, of_socket, with_part}
use php_apm.Apm.{until_failure, on_success, rinit, prepared, install}
use php_apm.Apm.Drivers.{Build, built, driver_of, all_drivers, drivers, elastic}
use php_apm.Apm.Composed.{driver_of-KeepsToItself}

-- There is no list of events, as before the first RINIT of the driver.
abbrev pub IsUnready : Globals → Type 0
IsUnready g = g.socket.last_event ≡ none

abbrev pub IsPassedOver : Globals → Type 0
IsPassedOver g = IsUnready g × (g.socket.settings.enabled ≡ false)

-- The part of another driver is nothing to the socket driver.
pub others-keep_socket :
    (o : Owner) (g h : Globals) → h ≡ with_part o g h → (o ≡ of_socket) ⊎ (h.socket ≡ g.socket)
others-keep_socket of_sqlite3 g h e = inr (ap (λ (k : Globals). k.socket) e)
others-keep_socket of_mysql g h e = inr (ap (λ (k : Globals). k.socket) e)
others-keep_socket of_statsd g h e = inr (ap (λ (k : Globals). k.socket) e)
others-keep_socket of_socket g h e = inl refl

module _ (env : Env) where
  rinit_of-IsPassedOver :
      (o : Owner) (g k : Globals) (s : Status)
      → (driver_of env o).is_enabled g ≡ true
      → (driver_of env o).rinit g ≡ some (s, k)
      → IsPassedOver g
      → (o ≡ of_socket) ⊎ (k.socket ≡ g.socket)
      → IsPassedOver k
  unfolding driver_of
  rinit_of-IsPassedOver o g k s on e (p, off) (inl here) =
      let enabled : g.socket.settings.enabled ≡ true =
        subst (λ o. (driver_of env o).is_enabled g ≡ true) here on in
      absurd (ground arith)
  rinit_of-IsPassedOver o g k s on e p (inr same) =
      subst (λ (t : SocketState). (t.last_event ≡ none) × (t.settings.enabled ≡ false)) (sym same) p

  begin-IsPassedOver :
      (o : Owner) (g k : Globals) (s : Status)
      → (if (driver_of env o).is_enabled g then (driver_of env o).rinit else pure success) g
        ≡ some (s, k)
      → IsPassedOver g
      → IsPassedOver k
  begin-IsPassedOver o g k s e p = elim (Bool-cases ((driver_of env o).is_enabled g)) [
    | inl on ↦
        let ran = then_case _ (pure success) g e on in
        rinit_of-IsPassedOver o g k s on ran p
          (others-keep_socket o g k ((driver_of-KeepsToItself env o).rinit g s k ran))
    | inr off ↦
        subst IsPassedOver
          (sym (some_inj success s g k (else_case (driver_of env o).rinit _ g e off))) p
  ]

  behind_begin :
      (m : Run Status) (s s' : Status) (h k : Globals)
      → ((a : Status) → m h ≡ some (a, k) → IsPassedOver h → IsPassedOver k)
      → on_success m s' h ≡ some (s, k)
      → IsPassedOver h
      → IsPassedOver k
  behind_begin m s success h k rest e q = rest s e q
  behind_begin m s failure h k rest e q = subst IsPassedOver (sym (some_inj failure s h k e)) q

  -- Where it is disabled, the loop of RINIT leaves the driver as it is.
  all_begin-IsPassedOver :
      (os : List Owner) (g k : Globals) (s : Status)
      → until_failure (λ d. d.is_enabled) (λ d. d.rinit) (all_drivers env os) g ≡ some (s, k)
      → IsPassedOver g
      → IsPassedOver k
  unfolding until_failure
  all_begin-IsPassedOver [] g k s e p = subst IsPassedOver (sym (some_inj success s g k e)) p
  all_begin-IsPassedOver (o ∷ os) g k s e p =
      let (s', h, e1, e2) = bound e in
      behind_begin (until_failure (λ d. d.is_enabled) (λ d. d.rinit) (all_drivers env os)) s s' h k
        (λ a. all_begin-IsPassedOver os h k a) e2 (begin-IsPassedOver o g h s' e1 p)

  prepared-IsPassedOver :
      (b : Build) (g : Globals)
      → IsPassedOver g
      → IsPassedOver (prepared (drivers env b) (elastic env b) env g)
  unfolding prepared
  prepared-IsPassedOver b g p = ground arith

  pub rinit-IsPassedOver :
      (b : Build) (g h : Globals) (s : Status)
      → rinit (drivers env b) (elastic env b) env g ≡ some (s, h)
      → IsPassedOver g
      → IsPassedOver h
  unfolding rinit drivers
  rinit-IsPassedOver b g h s e p = elim (Bool-cases g.settings.enabled) [
    | inl on ↦
        let (s', k, e1, e2) = bound (then_value _ _ (pure success g) e on) in
        behind_begin (λ k. pure success (install (drivers env b) (elastic env b) k)) s s' k h
          (λ a e' q. subst IsPassedOver (sym (some_inj success a _ h e')) q) e2
          (all_begin-IsPassedOver (built b) _ k s' e1 (prepared-IsPassedOver b g p))
    | inr off ↦ subst IsPassedOver (sym (some_inj success s g h (else_value _ _ _ e off))) p
  ]
