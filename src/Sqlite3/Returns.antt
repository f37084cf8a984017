-- ===== src/Sqlite3/Returns.antt =====
-- The calls of driver_sqlite3.c to their end: no variable is read as what it is not.
use php_apm.Common.{Bool, not, if◌then◌else◌, none, some, ◌∷◌, ◌≡◌, ◌≢◌, refl, arith}
use php_apm.World.{Env, sqlite3_exec}
use php_apm.Globals.{EventArgs, Item, Globals, Run, pure, emit, ◌>>=◌, ◌>>◌}
use php_apm.Request.{extracted, item_string, is_string}
use php_apm.Request.Extract.{Holds, extracted-IsSound}
use php_apm.Request.Returns.{
  Returns, Any, pure-Returns, bind-Returns, if-Returns, known-Returns, sure-Returns,
  item_string-Returns,
}
use php_apm.Sqlite3.{
  sqlite_get_instance, ip_int, request_sql, created, insert_request, process_event, event_sql,
  process_stats, stats_sql,
}

module _ (env : Env) where
  get_instance_sure : (g : Globals) → sqlite_get_instance env g ≢ none
  unfolding sqlite_get_instance
  get_instance_sure g e = ground arith

  get_instance-same :
      (g : Globals) (a : Bool) (h : Globals)
      → sqlite_get_instance env g ≡ some (a, h)
      → h.request_data ≡ g.request_data
  unfolding sqlite_get_instance
  get_instance-same g a h e = ground arith

  get_instance-Returns : Returns Any (sqlite_get_instance env)
  get_instance-Returns = sure-Returns _ get_instance_sure get_instance-same

  ip_int-Returns : (i : Item) → Holds is_string i → Returns Any (ip_int env i)
  ip_int-Returns i h =
      if-Returns Any i.found _ (pure 0)
        (bind-Returns Any Any (item_string i) _ (item_string-Returns i h)
          λ s u. pure-Returns Any _ tt)
        (pure-Returns Any 0 tt)

  request_sql-Returns : Returns Any (request_sql env)
  unfolding request_sql
  request_sql-Returns g p =
      let t = p.typed in
      let rd = g.request_data in
      bind-Returns Any Any _ _ (ip_int-Returns rd.ip t.ip)
        (λ ip u. bind-Returns Any Any _ _ (item_string-Returns rd.script t.script) λ script u.
          bind-Returns Any Any _ _ (item_string-Returns rd.uri t.uri) λ uri u.
            bind-Returns Any Any _ _ (item_string-Returns rd.host t.host) λ host u.
              bind-Returns Any Any _ _ (item_string-Returns rd.referer t.referer) λ referer u.
                bind-Returns Any Any _ _ (item_string-Returns rd.method t.method)
                  λ method u. pure-Returns Any _ tt)
        g p

  abbrev inserting : Run (Unit {0})
  inserting = do
    connection ← sqlite_get_instance env
    if not connection
        then pure tt
        else do sql ← request_sql env; emit (sqlite3_exec sql); created env

  inserting-Returns : Returns Any inserting
  inserting-Returns = bind-Returns Any Any (sqlite_get_instance env) _ get_instance-Returns λ c u.
      if-Returns Any (not c) (pure tt) _ (pure-Returns Any tt tt) (
        bind-Returns Any Any (request_sql env) _ request_sql-Returns
          λ sql u. sure-Returns _ (λ g e. cc) λ g a h e. ground arith)

  insert-Returns : Returns Any (insert_request env)
  unfolding insert_request
  insert-Returns g p =
      if-Returns Any (extracted env g).sqlite3.is_request_created (pure tt) inserting
        (pure-Returns Any tt tt) inserting-Returns (extracted env g) (extracted-IsSound env g p).0

  -- An event, from sound request data: it is handled to its end, which leaves sound request data.
  pub process_event-Returns : (x : EventArgs) → Returns Any (process_event env x)
  unfolding process_event
  process_event-Returns x = bind-Returns Any Any (insert_request env) _ insert-Returns λ a u.
      bind-Returns Any Any (sqlite_get_instance env) _ get_instance-Returns λ c u.
        if-Returns Any (not c) (pure tt) _ (pure-Returns Any tt tt) (
          known-Returns _ tt (λ g. record g { log = sqlite3_exec (event_sql env x g) ∷ g.log })
            (λ g. refl) (λ g. refl))

  -- The statistics likewise.
  pub process_stats-Returns : Returns Any (process_stats env)
  unfolding process_stats
  process_stats-Returns = bind-Returns Any Any (insert_request env) _ insert-Returns λ a u.
      bind-Returns Any Any (sqlite_get_instance env) _ get_instance-Returns λ c u.
        if-Returns Any (not c) (pure tt) _ (pure-Returns Any tt tt) (
          known-Returns _ tt (λ g. record g { log = sqlite3_exec (stats_sql env g) ∷ g.log })
            (λ g. refl) (λ g. refl))
