-- ===== src/Sqlite3/Connection.antt =====
-- The connection of driver_sqlite3.c over a request.
use php_apm.Common.{
  ℕ, suc, ◌+◌, Bool, true, false, not, if◌then◌else◌, Bytes, some, List, [], ◌∷◌, ◌≡◌, arith,
}
use php_apm.World.{sqlite3_open, sqlite3_close, sqlite3_exec, Log, Env}
use php_apm.Globals.{EventArgs, Item, Globals, Run, Status, pure, emit, ◌>>=◌, ◌>>◌}
use php_apm.Globals.Runs.{bound}
use php_apm.Request.{extracted, item_string}
use php_apm.Sqlite3.{
  disconnect, sqlite_get_instance, ip_int, request_sql, created, insert_request, event_sql,
  process_event, stats_sql, process_stats, rinit, rshutdown,
}

-- How many connections were opened, and how many closed.
unfoldable pub opens : Log → ℕ
opens [] = 0
opens (sqlite3_open f ∷ l) = suc (opens l)
opens (_ ∷ l) = opens l

unfoldable pub closes : Log → ℕ
closes [] = 0
closes (sqlite3_close ∷ l) = suc (closes l)
closes (_ ∷ l) = closes l

abbrev pub count_of : Bool → ℕ
count_of true = 1
count_of false = 0

-- What is open is what the handle stands for.
abbrev pub IsBalanced : Globals → Type 0
IsBalanced g = opens g.log ≡ closes g.log + count_of g.sqlite3.event_db

abbrev Balances : {A : Type 0} → Run A → Type 0
Balances {A} m =
    (g : Globals) (a : A) (h : Globals) → m g ≡ some (a, h) → IsBalanced g → IsBalanced h

disconnect-closes :
    (g h : Globals) → disconnect g ≡ some (tt, h) → IsBalanced g → opens h.log ≡ closes h.log
unfolding disconnect opens closes
disconnect-closes g h e p = ground arith

get_instance-Balances : (env : Env) → Balances (sqlite_get_instance env)
unfolding sqlite_get_instance disconnect opens closes
get_instance-Balances env g b h e p = ground arith

pure-Balances : {A : Type 0} (a : A) → Balances (pure a)
pure-Balances a g b h e p = ground arith

bind-Balances :
    {A B : Type 0} (m : Run A) (f : A → Run B)
    → Balances m
    → ((a : A) → Balances (f a))
    → Balances (m >>= f)
bind-Balances m f first rest g b h e p =
    let (a, k, e1, e2) = bound {r = m g} {f = f} e in rest a k b h e2 (first g a k e1 p)

if-Balances :
    {A : Type 0} (b : Bool) (m n : Run A) → Balances m → Balances n → Balances (if b then m else n)
if-Balances true m n p q = p
if-Balances false m n p q = q

exec-Balances : (q : Bytes) → Balances (emit (sqlite3_exec q))
unfolding opens closes
exec-Balances q g a h e p = ground arith

item-Balances : (i : Item) → Balances (item_string i)
item-Balances i g a h e p = ground arith

ip-Balances : (env : Env) (i : Item) → Balances (ip_int env i)
ip-Balances env i g a h e p = ground arith

created-Balances : (env : Env) → Balances (created env)
created-Balances env g a h e p = ground arith

request_sql-Balances : (env : Env) → Balances (request_sql env)
unfolding request_sql
request_sql-Balances env g a h e p =
    bind-Balances _ _ (ip-Balances env g.request_data.ip)
      (λ ip. bind-Balances _ _ (item-Balances g.request_data.script) λ script.
        bind-Balances _ _ (item-Balances g.request_data.uri) λ uri.
          bind-Balances _ _ (item-Balances g.request_data.host) λ host.
            bind-Balances _ _ (item-Balances g.request_data.referer) λ referer.
              bind-Balances _ _ (item-Balances g.request_data.method) λ method. pure-Balances _)
      g a h e p

connected-Balances :
    (env : Env) (m : Run (Unit {0}))
    → Balances m
    → Balances (do connection ← sqlite_get_instance env; if not connection then pure tt else m)
connected-Balances env m rest =
    bind-Balances (sqlite_get_instance env) _ (get_instance-Balances env)
      λ connection. if-Balances (not connection) (pure tt) m (pure-Balances tt) rest

extracted-IsBalanced : (env : Env) (g : Globals) → IsBalanced g → IsBalanced (extracted env g)
unfolding extracted
extracted-IsBalanced env g p = ground arith

insert_request-Balances : (env : Env) → Balances (insert_request env)
unfolding insert_request
insert_request-Balances env g a h e p =
    if-Balances (extracted env g).sqlite3.is_request_created (pure tt) _ (pure-Balances tt)
      (connected-Balances env _ (
        bind-Balances (request_sql env) _ (request_sql-Balances env) λ sql.
          bind-Balances (emit (sqlite3_exec sql)) _ (exec-Balances sql) λ u. created-Balances env))
      (extracted env g) a h e (extracted-IsBalanced env g p)

process_event-Balances : (env : Env) (x : EventArgs) → Balances (process_event env x)
unfolding process_event
process_event-Balances env x =
    bind-Balances (insert_request env) _ (insert_request-Balances env)
      λ u. connected-Balances env _ λ g. exec-Balances (event_sql env x g) g

process_stats-Balances : (env : Env) → Balances (process_stats env)
unfolding process_stats
process_stats-Balances env =
    bind-Balances (insert_request env) _ (insert_request-Balances env)
      λ u. connected-Balances env _ λ g. exec-Balances (stats_sql env g) g

-- The calls of one request, to its end.
unfoldable pub events : Env → List EventArgs → Run (Unit {0})
events env [] = pure tt
events env (x ∷ xs) = process_event env x >> events env xs

unfoldable pub request : Env → List EventArgs → Bool → Run Status
unfolding rinit events
request env xs stats = do
  s ← rinit
  events env xs
  if stats then process_stats env else pure tt
  rshutdown

events-Balances : (env : Env) (xs : List EventArgs) → Balances (events env xs)
unfolding events
events-Balances env [] = pure-Balances tt
events-Balances env (x ∷ xs) =
    bind-Balances (process_event env x) _ (process_event-Balances env x) λ u. events-Balances env xs

rshutdown-closes :
    (g h : Globals) (s : Status)
    → rshutdown g ≡ some (s, h)
    → IsBalanced g
    → opens h.log ≡ closes h.log
unfolding rshutdown disconnect opens closes
rshutdown-closes g h s e p = ground arith

-- Where as many connections are open as the handle says: a request that returns, whatever it reports,
-- has closed every connection that was opened, also one that failed to open.
pub request-closes :
    (env : Env) (xs : List EventArgs) (stats : Bool) (g h : Globals) (s : Status)
    → IsBalanced g
    → request env xs stats g ≡ some (s, h)
    → opens h.log ≡ closes h.log
unfolding request
request-closes env xs stats g h s p e =
    let start = record g { sqlite3 = record g.sqlite3 { is_request_created = false } } in
    let (a, g1, e1, r1) = bound {r = events env xs start} e in
    let reported = events-Balances env xs start a g1 e1 p in
    let (b, g2, e2, r2) = bound {r = (if stats then process_stats env else pure tt) g1} r1 in
    rshutdown-closes g2 h s r2 (
      if-Balances stats (process_stats env) (pure tt) (process_stats-Balances env)
        (pure-Balances tt) g1 b g2 e2 reported)
