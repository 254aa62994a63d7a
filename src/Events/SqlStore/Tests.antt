-- ===== src/Events/SqlStore/Tests.antt =====
-- The store in a Unit of Work with the session 7.
use krossdb.Common.{◌≡◌, Exec, true, none, some, [], ◌∷◌, ok, refl, pure}
use krossdb.Config.Defaults.{connection_config}
use krossdb.Config.{ConnectionConfig, sqlite}
use krossdb.Resilience.Breaker.{init}
use krossdb.Adapter.Relational.{State}
use krossdb.Adapter.Relational.Bound.{Stays-pure}
use krossdb.Errors.{Exn}
use krossdb.Events.{OutboxRecord}
use krossdb.Events.SqlStore.{SqlAlchemyOutboxStore, save, sql_store}
use krossdb.Events.Relay.InClaim.{run_once_one_transaction}
use krossdb.Events.Relay.{RelayConfig, run_once}
use krossdb.Events.SqlStore.InUnit.{OnlyStatements, calls_in_unit}

abbrev config : ConnectionConfig
config = connection_config "db" sqlite []

abbrev bound_state : State
bound_state = record {
  config = config;
  engines = "m" ∷ [];
  breakers = ("m", init) ∷ [];
  replica_balancer = none;
  master_key = some "m";
  connected = true;
  active_session = some 7;
  clock = 0;
  history = [];
}

abbrev outbox : SqlAlchemyOutboxStore
outbox = record {
  registry = [];
  respond = λ h c. ok tt;
  database = record {
    compiled = λ stmt. "SQL";
    rows = λ h stmt. ok [];
    done = λ h stmt. ok tt;
    decoded = λ r. ok r;
  };
  context = [];
  table_name = "outbox";
}

abbrev placed : OutboxRecord
placed = record {
  id = "1";
  event_type = "OrderPlaced";
  payload = "{}";
  created_at = 0;
  published_at = none;
  attempts = 0;
}

calls_in_unit_example : OnlyStatements 7 [] (save outbox (placed ∷ []) bound_state).1.history
calls_in_unit_example = (calls_in_unit outbox 7 bound_state refl).0 (placed ∷ [])

abbrev one_event : SqlAlchemyOutboxStore
one_event = record outbox {
  database = record outbox.database { rows = λ h stmt. ok (placed ∷ []) };
}

abbrev free_state : State
free_state = record bound_state { active_session = none }

abbrev relay_config : RelayConfig
relay_config = record { batch_size = 10; max_attempts = none }

abbrev silent : OutboxRecord → Exec State Exn Unit
silent r = pure tt

run_once_one_transaction_example :
    (run_once (sql_store one_event) silent relay_config free_state).1.active_session ≡ none
run_once_one_transaction_example =
    (run_once_one_transaction one_event silent relay_config "m" free_state (λ r. Stays-pure 0) refl
      refl).3
