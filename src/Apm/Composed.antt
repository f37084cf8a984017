-- ===== src/Apm/Composed.antt =====
-- The module with the drivers that a build has.
use php_apm.Common.{
  Bool, true, false, if◌then◌else◌, Bytes, Option, none, some, List, ◌≡◌, refl, ap, ◌∙◌, not, ◌&&◌,
  ltb, Bool-cases, inl, inr,
}
use php_apm.World.{Env, Log}
use php_apm.Request.{extracted, item_string}
use php_apm.Request.Extract.{extracted-keeps}
use php_apm.Mysql.Account.{item-Keeps}
use php_apm.Elasticsearch.{with_batch}
use php_apm.Globals.Runs.{bound, some_inj, then_value, else_value, if_true, if_false}
use php_apm.Globals.{ElasticsearchState, EventArgs, Globals, Run, success, pure}
use php_apm.Globals.Owners.{
  Owner, of_sqlite3, of_mysql, of_statsd, of_socket, IsLocal, pure-IsLocal, bind-IsLocal,
}
use php_apm.Driver.{Driver}
use php_apm.Apm.{Elastic, elastic_end}
use php_apm.Apm.Drivers.{Build, driver_of, drivers, elastic}
use php_apm.Apm.Locality.{
  mysql_event-IsLocal, mysql_stats-IsLocal, mysql_rinit-IsLocal, mysql_mshutdown-IsLocal,
  sqlite3_row-IsLocal, sqlite3_disconnect-IsLocal, sqlite3_rinit-IsLocal, statsd_event-IsLocal,
  statsd_stats-IsLocal, statsd_minit-IsLocal, statsd_mshutdown-IsLocal,
}
use php_apm.Apm.Hooks.{IsQuiet, pure-IsQuiet, bind-IsQuiet, if-IsQuiet, handlers}
use php_apm.Socket.Locality.{rshutdown-IsLocal, process_event-IsLocal, rinit-IsLocal}
use php_apm.Sqlite3
use php_apm.Mysql
use php_apm.Statsd
use php_apm.Socket.Shutdown
use php_apm.Elasticsearch

-- Whatever a driver does, it changes its own part of the globals, the request's data and the log, and
-- nothing else.
pub record KeepsToItself (o : Owner) (d : Driver) : Type 0 where
  pub process_event : (x : EventArgs) → IsLocal o (d.process_event x)
  pub process_stats : IsLocal o d.process_stats
  pub minit : IsLocal o d.minit
  pub rinit : IsLocal o d.rinit
  pub mshutdown : IsLocal o d.mshutdown
  pub rshutdown : IsLocal o d.rshutdown

pub driver_of-KeepsToItself : (env : Env) (o : Owner) → KeepsToItself o (driver_of env o)
unfolding driver_of Sqlite3.process_event Sqlite3.process_stats Sqlite3.minit Sqlite3.mshutdown
    Sqlite3.rshutdown Mysql.minit Mysql.rshutdown Statsd.rinit Statsd.rshutdown Shutdown.minit
    Shutdown.mshutdown Shutdown.process_stats
driver_of-KeepsToItself env of_sqlite3 = record {
  process_event = λ x. sqlite3_row-IsLocal env (Sqlite3.event_sql env x);
  process_stats = sqlite3_row-IsLocal env (Sqlite3.stats_sql env);
  minit = pure-IsLocal of_sqlite3 success;
  rinit = sqlite3_rinit-IsLocal;
  mshutdown = pure-IsLocal of_sqlite3 success;
  rshutdown =
      bind-IsLocal of_sqlite3 _ _ (sqlite3_disconnect-IsLocal env)
        λ _. pure-IsLocal of_sqlite3 success;
}
driver_of-KeepsToItself env of_mysql = record {
  process_event = mysql_event-IsLocal env;
  process_stats = mysql_stats-IsLocal env;
  minit = pure-IsLocal of_mysql success;
  rinit = mysql_rinit-IsLocal;
  mshutdown = mysql_mshutdown-IsLocal;
  rshutdown = pure-IsLocal of_mysql success;
}
driver_of-KeepsToItself env of_statsd = record {
  process_event = statsd_event-IsLocal env;
  process_stats = statsd_stats-IsLocal env;
  minit = statsd_minit-IsLocal env;
  rinit = pure-IsLocal of_statsd success;
  mshutdown = statsd_mshutdown-IsLocal;
  rshutdown = pure-IsLocal of_statsd success;
}
driver_of-KeepsToItself env of_socket = record {
  process_event = process_event-IsLocal;
  process_stats = pure-IsLocal of_socket tt;
  minit = pure-IsLocal of_socket success;
  rinit = rinit-IsLocal;
  mshutdown = pure-IsLocal of_socket success;
  rshutdown = rshutdown-IsLocal env;
}

pub IsLocal-IsQuiet : {A : Type 0} (o : Owner) (m : Run A) → IsLocal o m → IsQuiet m
IsLocal-IsQuiet of_sqlite3 m local g a h e = ap handlers (local g a h e)
IsLocal-IsQuiet of_mysql m local g a h e = ap handlers (local g a h e)
IsLocal-IsQuiet of_statsd m local g a h e = ap handlers (local g a h e)
IsLocal-IsQuiet of_socket m local g a h e = ap handlers (local g a h e)

with_batch-handlers :
    (b : ElasticsearchState × Log) (g : Globals) → handlers (with_batch b g) ≡ handlers g
with_batch-handlers (s, l) g = refl

extracted-handlers : (env : Env) (g : Globals) → handlers (extracted env g) ≡ handlers g
extracted-handlers env g = ap handlers (extracted-keeps env g)

quiet_step :
    {A : Type 0} (a b : A) (g k h : Globals)
    → handlers k ≡ handlers g
    → ◌≡◌ {A = Option (A × Globals)} (some (a, k)) (some (b, h))
    → handlers h ≡ handlers g
quiet_step a b g k h same e = ap handlers (some_inj a b k h e) ∙ same

end_if-IsQuiet :
    (ds : List Driver) (c : Bool) (e : Elastic)
    → IsQuiet e.process_stats
    → IsQuiet e.rshutdown
    → IsQuiet (elastic_end ds (if c then some e else none))
end_if-IsQuiet ds true e stats ends g a h eq =
    if-IsQuiet g.elasticsearch.settings.enabled _ (pure tt)
      (bind-IsQuiet e.process_stats (λ _. e.rshutdown) stats λ _. ends) (pure-IsQuiet tt) g a h eq
end_if-IsQuiet ds false e stats ends g a h eq = pure-IsQuiet tt g a h eq

module _ (env : Env) where
  batched-IsQuiet :
      (json : Bytes)
      → IsQuiet (λ h.
        pure tt (with_batch (Elasticsearch.append_to_batch env json h.elasticsearch h.log) h))
  batched-IsQuiet json k a h e =
      let batch = Elasticsearch.append_to_batch env json k.elasticsearch k.log in
      quiet_step tt a k (with_batch batch k) h (with_batch-handlers batch k) e

  elastic_stats-IsQuiet : IsQuiet (Elasticsearch.process_stats env)
  unfolding Elasticsearch.process_stats
  elastic_stats-IsQuiet g a h e =
      elim (Bool-cases
        (not (g.elasticsearch.settings.enabled && g.elasticsearch.settings.stats_enabled))) [
          | inl off ↦ pure-IsQuiet tt g a h (then_value _ _ _ e off)
          | inr on ↦
              let (b, k, e1, e2) =
                bound {r = item_string (extracted env g).request_data.uri (extracted env g)}
                  (else_value _ _ _ e on) in
              let (c, k', e3, e4) =
                bound {r = item_string (extracted env g).request_data.method k} e2 in
              batched-IsQuiet _ k' a h e4
              ∙ ap handlers (item-Keeps (extracted env g).request_data.method k c k' e3)
              ∙ ap handlers (item-Keeps (extracted env g).request_data.uri _ b k e1)
              ∙ extracted-handlers env g
        ]

  elastic_shutdown-handlers : (g : Globals) → handlers (Elasticsearch.rshutdown env g) ≡ handlers g
  unfolding Elasticsearch.rshutdown
  elastic_shutdown-handlers g = elim (Bool-cases (ltb 0 g.elasticsearch.batch_count)) [
    | inl full ↦
        ap handlers (if_true _ _ _ full)
        ∙ with_batch-handlers (Elasticsearch.send_to_elasticsearch env g.elasticsearch g.log) g
    | inr empty ↦ ap handlers (if_false _ _ _ empty)
  ]

  pub elastic_end-IsQuiet : (b : Build) → IsQuiet (elastic_end (drivers env b) (elastic env b))
  unfolding elastic
  elastic_end-IsQuiet b =
      end_if-IsQuiet (drivers env b) b.have_curl _ elastic_stats-IsQuiet
        λ g a h e. quiet_step tt a g _ h (elastic_shutdown-handlers g) e
