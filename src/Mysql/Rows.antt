-- ===== src/Mysql/Rows.antt =====
-- driver_mysql.c over a whole request.
use php_apm.Common.{
  ℕ, ◌+◌, Bool, false, not, if◌then◌else◌, Bytes, some, List, [], ◌∷◌, ◌≡◌, ap, Bool-cases, inl,
  inr, ◌∙◌, arith,
}
use php_apm.Globals.Runs.{sprintf_lem, Keeps-pure, bound, else_case, then_case}
use php_apm.World.{mysql_query, Log, Env}
use php_apm.Globals.{sprintf, EventArgs, Globals, Run, pure, emit, ◌>>◌, ◌>>=◌}
use php_apm.Mysql.{rinit, mysql_get_instance, insert_request, process_event, process_stats}
use php_apm.Mysql.Account.{
  IsAccounted, request_rows, count_of, insert_request-IsAccounted, same-IsAccounted, event_row,
  stats_row, get_instance_rows,
}

IsAccounted-trans : (g k h : Globals) → IsAccounted g k → IsAccounted k h → IsAccounted g h
IsAccounted-trans g k h p q = omega (arith, p, q)

abbrev Accounts : Run (Unit {0}) → Type 0
Accounts m = (g h : Globals) → m g ≡ some (tt, h) → IsAccounted g h

connected-Accounts :
    (env : Env) (m : Run (Unit {0}))
    → Accounts m
    → Accounts (do connection ← mysql_get_instance env; if not connection then pure tt else m)
connected-Accounts env m accounts g h e =
    let (connection, g1, e1, r1) = bound e in
    let (rows, flag) = get_instance_rows env g connection g1 e1 in
    let before = same-IsAccounted g g1 rows flag in
    elim (Bool-cases (not connection)) [
      | inl fails ↦
          let kept = Keeps-pure tt g1 tt h (then_case _ _ g1 r1 fails) in
          same-IsAccounted g h (ap (λ k. request_rows k.log) kept ∙ rows)
            (ap (λ k. k.mysql.is_request_created) kept ∙ flag)
      | inr opens ↦ IsAccounted-trans g g1 h before (accounts g1 h (else_case _ _ g1 r1 opens))
    ]

query-Accounts :
    (size : ℕ) (q : Bytes)
    → ((l : Log) → request_rows (mysql_query q ∷ l) ≡ request_rows l)
    → Accounts (do s ← sprintf size q; emit (mysql_query s))
query-Accounts size q no_row g h e =
    let (s, g1, e1, r1) = bound e in
    let (text_of, kept) = sprintf_lem size q s g g1 e1 in
    let end = Keeps-pure tt _ tt h r1 in
    same-IsAccounted g h
      (ap (λ k. request_rows k.log) end
        ∙ ap (λ t. request_rows (mysql_query t ∷ g1.log)) text_of
        ∙ no_row g1.log
        ∙ ap (λ k. request_rows k.log) kept)
      (ap (λ k. k.mysql.is_request_created) end ∙ ap (λ k. k.mysql.is_request_created) kept)

process_event-Accounts : (env : Env) (x : EventArgs) → Accounts (process_event env x)
unfolding process_event
process_event-Accounts env x g h e =
    let (done, g1, e1, r1) = bound {r = insert_request env g} e in
    IsAccounted-trans g g1 h (insert_request-IsAccounted env g g1 e1)
      (connected-Accounts env _ (query-Accounts _ _ (event_row _ _ _ _ _)) g1 h r1)

process_stats-Accounts : (env : Env) → Accounts (process_stats env)
unfolding process_stats
process_stats-Accounts env g h e =
    let (done, g1, e1, r1) = bound {r = insert_request env g} e in
    IsAccounted-trans g g1 h (insert_request-IsAccounted env g g1 e1)
      (connected-Accounts env _ (λ k h' e'. query-Accounts _ _ (stats_row _ _ _ _) k h' e') g1 h r1)

-- The calls of one request: `rinit`, the events, and the statistics if there are any.
unfoldable pub events : Env → List EventArgs → Run (Unit {0})
events env [] = pure tt
events env (x ∷ xs) = process_event env x >> events env xs

unfoldable pub request : Env → List EventArgs → Bool → Run (Unit {0})
unfolding rinit events
request env xs stats = do s ← rinit; events env xs; if stats then process_stats env else pure tt

events-Accounts : (env : Env) (xs : List EventArgs) → Accounts (events env xs)
unfolding events
events-Accounts env [] g h e =
    let kept = Keeps-pure tt g tt h e in
    same-IsAccounted g h (ap (λ k. request_rows k.log) kept)
      (ap (λ k. k.mysql.is_request_created) kept)
events-Accounts env (x ∷ xs) g h e =
    let (done, g1, e1, r1) = bound {r = process_event env x g} e in
    IsAccounted-trans g g1 h (process_event-Accounts env x g g1 e1) (events-Accounts env xs g1 h r1)

-- Whatever the connection does and however many events and statistics a request reports: when its
-- calls return, the request has one row at most.
pub one_request_row :
    (env : Env) (xs : List EventArgs) (stats : Bool) (g h : Globals)
    → request env xs stats g ≡ some (tt, h)
    → request_rows h.log ≡ request_rows g.log + count_of h.mysql.is_request_created
unfolding request
one_request_row env xs stats g h e =
    let start = record g { mysql = record g.mysql { is_request_created = false } } in
    let (done, g1, e1, r1) = bound {r = events env xs start} e in
    let reported = events-Accounts env xs start g1 e1 in
    elim (Bool-cases stats) [
      | inl wanted ↦
          let more = process_stats-Accounts env g1 h (then_case _ _ g1 r1 wanted) in
          omega (arith, reported, more)
      | inr unwanted ↦
          let kept = Keeps-pure tt g1 tt h (else_case _ _ g1 r1 unwanted) in
          let more =
            same-IsAccounted g1 h (ap (λ k. request_rows k.log) kept)
              (ap (λ k. k.mysql.is_request_created) kept) in
          omega (arith, reported, more)
    ]
