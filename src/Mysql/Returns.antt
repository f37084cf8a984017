-- ===== src/Mysql/Returns.antt =====
-- The calls of driver_mysql.c to their end: no variable is read as what it is not, and no buffer is
-- overrun.
use php_apm.Common.{
  ℕ, ◌^◌, ◌<◌, Bool, true, false, not, if◌then◌else◌, Bytes, some, List, [], ◌∷◌, ◌≡◌, ap, ◌∙◌, All,
  arith, Bool-cases, inl, inr, or_else,
}
use php_apm.World.{mysql_library_init, Env}
use php_apm.Globals.{EventArgs, Item, Globals, Run, pure, ◌>>=◌}
use php_apm.Globals.Runs.{if_true, if_false, continued, sprintf-fits}
use php_apm.Request.{is_string, extracted}
use php_apm.Request.Extract.{Holds, IsSound, extracted-IsSound}
use php_apm.Mysql.{
  connect_call, mysql_get_instance, Fields, fields, escaped_item, ip_int, query_request,
  request_sql, request_size, insert_request, process_event,
}
use php_apm.Request.Returns.{Returns, pure-Returns, bind-Returns, Any, string_of_item}
use php_apm.Mysql.Buffers.{request_sql_fits, event_sql_fits}
use php_apm.Mysql.Rows.{events}

pub get_instance-Returns : (env : Env) → Returns Any (mysql_get_instance env)
unfolding mysql_get_instance
get_instance-Returns env g p = elim (Bool-cases g.mysql.event_db) [
  | inl up ↦ (true, g, if_true _ _ _ up, tt, p)
  | inr down ↦
      elim (Bool-cases (env.mysql_connect_ok (connect_call g.mysql ∷ mysql_library_init ∷ g.log))) [
        | inl connects ↦ (true, _, if_false _ _ _ down ∙ if_true _ _ _ connects, tt, p)
        | inr fails ↦ (false, _, if_false _ _ _ down ∙ if_false _ _ _ fails, tt, p)
      ]
]

item-Returns : (env : Env) (i : Item) → Holds is_string i → Returns Any (escaped_item env i)
item-Returns env i h g p =
    let (s, e) = string_of_item i.var i.found g h in
    elim (Bool-cases i.found) [
      | inl found ↦ (_, g, ap (λ (r : Run Bytes). r g) (if_true _ _ _ found) ∙ continued _ e, tt, p)
      | inr absent ↦ ([], g, ap (λ (r : Run Bytes). r g) (if_false _ _ _ absent), tt, p)
    ]

ip-Returns :
    (env : Env) (i : Item)
    → Holds is_string i
    → ((s : Bytes) → or_else (env.inet_pton s) 0 < 2 ^ 32)
    → Returns (λ n. n < 2 ^ 32) (ip_int env i)
ip-Returns env i h addr g p =
    let (s, e) = string_of_item i.var i.found g h in
    elim (Bool-cases i.found) [
      | inl found ↦ (_, g, ap (λ (r : Run ℕ). r g) (if_true _ _ _ found) ∙ continued _ e, addr s, p)
      | inr absent ↦ (0, g, ap (λ (r : Run ℕ). r g) (if_false _ _ _ absent), omega arith, p)
    ]

fields-Returns :
    (env : Env)
    → ((s : Bytes) → or_else (env.inet_pton s) 0 < 2 ^ 32)
    → Returns (λ f. f.ip < 2 ^ 32) (fields env)
unfolding fields
fields-Returns env addr g p =
    let t = p.typed in
    bind-Returns Any _ _ _ (item-Returns env g.request_data.script t.script)
      (λ script u. bind-Returns Any _ _ _ (item-Returns env g.request_data.uri t.uri) λ uri u.
        bind-Returns Any _ _ _ (item-Returns env g.request_data.host t.host) λ host u.
          bind-Returns Any _ _ _ (item-Returns env g.request_data.referer t.referer) λ referer u.
            bind-Returns Any _ _ _ (item-Returns env g.request_data.method t.method) λ method u.
              bind-Returns (λ n. n < 2 ^ 32) _ _ _ (ip-Returns env g.request_data.ip t.ip addr)
                λ ip small. pure-Returns _ _ small)
      g p

query-Returns : (env : Env) (f : Fields) → f.ip < 2 ^ 32 → Returns Any (query_request env f)
unfolding query_request
query-Returns env f small g p = (
  tt,
  _,
  continued _ (sprintf-fits (request_size f) (request_sql f) g (request_sql_fits f small)),
  tt,
  p,
)

connected-Returns :
    (env : Env) (m : Run (Unit {0}))
    → Returns Any m
    → Returns Any (do connection ← mysql_get_instance env; if not connection then pure tt else m)
connected-Returns env m rest =
    bind-Returns Any Any (mysql_get_instance env) _ (get_instance-Returns env) go
  where
    go : (connection : Bool) → Any connection → Returns Any (if not connection then pure tt else m)
    go true u = rest
    go false u = pure-Returns Any tt tt

pub insert-Returns :
    (env : Env)
    → ((s : Bytes) → or_else (env.inet_pton s) 0 < 2 ^ 32)
    → Returns Any (insert_request env)
unfolding insert_request
insert-Returns env addr g p =
    let q = (extracted-IsSound env g p).0 in
    elim (Bool-cases (extracted env g).mysql.is_request_created) [
      | inl old ↦ (
        tt,
        extracted env g,
        ap (λ (r : Run (Unit {0})). r (extracted env g)) (if_true _ _ _ old),
        tt,
        q,
      )
      | inr new ↦
          let (a, h, e, u, r) = connected-Returns env _ inserting (extracted env g) q in
          (a, h, ap (λ (r : Run (Unit {0})). r (extracted env g)) (if_false _ _ _ new) ∙ e, u, r)
    ]
  where
    inserting : Returns Any (do f ← fields env; query_request env f)
    inserting =
        bind-Returns (λ f. f.ip < 2 ^ 32) Any (fields env) (query_request env)
          (fields-Returns env addr) (query-Returns env)

-- An event's type and line, as the engine gives them.
abbrev pub IsEvent : EventArgs → Type 0
IsEvent x = (x.type < 2 ^ 31) × (x.error_lineno < 2 ^ 32)

pub process_event-Returns :
    (env : Env) (x : EventArgs)
    → ((s : Bytes) → or_else (env.inet_pton s) 0 < 2 ^ 32)
    → IsEvent x
    → Returns Any (process_event env x)
unfolding process_event
process_event-Returns env x addr (type, line) =
    bind-Returns Any Any (insert_request env) _ (insert-Returns env addr) λ a u.
      connected-Returns env _ λ g p. (
        tt,
        _,
        continued _ (sprintf-fits _ _ g (event_sql_fits x.type x.error_lineno _ _ _ type line)),
        tt,
        p,
      )

events-Returns :
    (env : Env) (xs : List EventArgs)
    → ((s : Bytes) → or_else (env.inet_pton s) 0 < 2 ^ 32)
    → All IsEvent xs
    → Returns Any (events env xs)
unfolding events
events-Returns env [] addr h = pure-Returns Any tt tt
events-Returns env (x ∷ xs) addr (one, h) =
    bind-Returns Any Any (process_event env x) _ (process_event-Returns env x addr one)
      λ a u. events-Returns env xs addr h

-- Whatever the server says and the connection does: from sound request data, and with an address
-- reader that gives 32 bits, any list of events whose types and lines are the engine's is handled to
-- its end, with no fault, and the request data is sound then.
pub events_return :
    (env : Env) (xs : List EventArgs) (g : Globals)
    → ((s : Bytes) → or_else (env.inet_pton s) 0 < 2 ^ 32)
    → All IsEvent xs
    → IsSound g.request_data
    → (h : Globals) × (events env xs g ≡ some (tt, h)) × IsSound h.request_data
events_return env xs g addr h p =
    let (a, k, e, u, q) = events-Returns env xs addr h g p in (k, e, q)
