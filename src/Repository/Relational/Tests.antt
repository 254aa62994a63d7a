-- ===== src/Repository/Relational/Tests.antt =====
-- The relational repository on a database that refuses one of two rows.
use krossdb.Common.{ℕ, true, none, some, List, [], ◌∷◌, if◌then◌else◌, Result, ok, raise, refl}
use krossdb.Config.Defaults.{connection_config, node_config}
use krossdb.Config.{ConnectionConfig, sqlite, master}
use krossdb.Errors.{Exn, error, duplicate_record_error}
use krossdb.Resilience.Breaker.{init}
use krossdb.Resilience.Retry.Bounded.{bounded}
use krossdb.Adapter.Relational.{State, Respond, Call, open_session}
use krossdb.Repository.Criteria.{Entity, text, attribute, value_eq}
use krossdb.Repository.Table.{SqlAlchemyRepository, Statement, insert_values}
use krossdb.Adapter.Relational.Bound.{Within}
use krossdb.Repository.Relational.InUnit.Operations.{operations_in_unit}
use krossdb.Repository.Relational.{create, bulk_create}
use krossdb.Repository.Relational.Transactions.{Transacts, writes_one_transaction}
use krossdb.Repository.Relational.Savepoints.{Batches, bulk_create-savepoints}

abbrev config : ConnectionConfig
config = connection_config "db" sqlite (node_config "sqlite+aiosqlite://" ∷ [])

abbrev connected_state : State
connected_state = record {
  config = config;
  engines = "m" ∷ [];
  breakers = ("m", init) ∷ [];
  replica_balancer = none;
  master_key = some "m";
  connected = true;
  active_session = none;
  clock = 0;
  history = [];
}

abbrev ann : Entity
ann = ("id", text "ann") ∷ []

abbrev bob : Entity
bob = ("id", text "bob") ∷ []

-- Each statement matches a row, but for the insert of an id that is in use.
abbrev matched : List Call → Statement → Result Exn ℕ
matched h (insert_values e) =
    if value_eq (attribute e "id") (text "bob") then raise (error duplicate_record_error) else ok 1
matched h _ = ok 1

abbrev fine : Respond
fine h c = ok tt

abbrev users : SqlAlchemyRepository
users = record {
  registry = [];
  respond = fine;
  database = record {
    compiled = λ stmt. "SQL";
    rows = λ h stmt. ok [];
    scalar_one = λ h stmt. ok 0;
    rowcount = matched;
  };
  context = [];
  table_name = "users";
  columns = "id" ∷ [];
  id_column = "id";
  validate = λ row. ok tt;
  tenacity = λ A. bounded;
}

writes_one_transaction_example :
    Transacts users master users.database.rowcount
      (insert_values ann)
      connected_state
      (create users ann connected_state).1.history
writes_one_transaction_example = (writes_one_transaction users connected_state refl).0 ann

bulk_create-savepoints_example :
    Batches users
      (ann ∷ bob ∷ [])
      connected_state
      (bulk_create users (ann ∷ bob ∷ []) connected_state)
bulk_create-savepoints_example =
    bulk_create-savepoints users (λ h n. (refl, refl, refl)) (ann ∷ bob ∷ []) connected_state refl

-- In a Unit of Work.
abbrev bound_state : State
bound_state = record connected_state { active_session = some 0; history = open_session "m" ∷ [] }

operations_in_unit_example : Within 0 bound_state (bulk_create users (ann ∷ bob ∷ []) bound_state).1
operations_in_unit_example = (operations_in_unit users 0 bound_state refl).6 (ann ∷ bob ∷ [])
