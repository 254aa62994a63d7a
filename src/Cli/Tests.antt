-- ===== src/Cli/Tests.antt =====
-- A project with an alembic.ini, and a health run over a healthy and an unhealthy connection.
use krossdb.Common.{
  String, Bool, true, false, some, List, [], ◌∷◌, ◌++◌, ◌≡◌, refl, All, Result, ok, raise, ◌==◌,
  if◌then◌else◌, arith,
}
use krossdb.Config.Defaults.{connection_config, node_config}
use krossdb.Config.{ConnectionConfig, sqlite}
use krossdb.Config.Files.{ConfigFiles, no_mapping}
use krossdb.Errors.{Exn, runtime_error}
use krossdb.Factory.{Respond}
use krossdb.Schema.Config.{Files}
use krossdb.Schema.Builder.{Table, MetaData}
use krossdb.Adapter.Relational.Lifecycle.{HealthCheckResult, healthy, unhealthy}
use krossdb.Cli.{Disk, Command, Write, exit}
use krossdb.Cli.Connected.{Connected}
use krossdb.Cli.InitMigrations
use krossdb.Cli.InitMigrations.{init_migrations, existing, targets}
use krossdb.Cli.InitMigrations.Spares.{Spares, init_migrations-Spares}
use krossdb.Cli.Health.{run_health_checks}
use krossdb.Cli.Health.Report.{Outcome, run_health_checks-Outcome}
use krossdb.Cli.Schema
use krossdb.Cli.Schema.{Adapters, create}

abbrev quoted : String → String
quoted s = s

-- One file is there, and every write is answered.
abbrev project_disk : Disk
project_disk = record {
  exists = λ path. path == "alembic.ini";
  respond = λ ws w. ok tt;
  join = λ directory name. name;
}

abbrev options : Bool → InitMigrations.Options
options force = record {
  connection = "primary";
  metadata_path = "app.db:metadata";
  config = "krossdb.yaml";
  directory = ".";
  force = force;
}

abbrev fresh : {W : Type 0} → W → Command W
fresh w = record { lines = []; writes = []; own = w }

in_the_way : (init_migrations quoted project_disk (options false) (fresh true)).0 ≡ raise (exit 1)
unfolding init_migrations
in_the_way = refl

init_migrations-Spares_example :
    (ws : List Write) × ((init_migrations quoted project_disk (options false) (fresh true)).1.writes
      ≡ [] ++ ws)
    × All (Spares project_disk) ws
init_migrations-Spares_example =
    init_migrations-Spares quoted project_disk (options false) (fresh true) refl

abbrev connection : String → ConnectionConfig
connection name = connection_config name sqlite (node_config "sqlite+aiosqlite://" ∷ [])

abbrev all_up : Respond
all_up history action = ok tt

abbrev status : String → HealthCheckResult
status name =
    if name == "b"
    then record { status = unhealthy; checked_nodes = 1 }
    else record { status = healthy; checked_nodes = 1 }

abbrev command : Command (Connected Bool)
command =
    fresh (record { factory = record { configs = []; adapters = []; history = [] }; world = true })

run_health_checks-Outcome_example :
    Outcome
      (λ r. "")
      all_up
      (λ k. ok tt)
      status
      (connection "a" ∷ connection "b" ∷ [])
      command
      (run_health_checks
        (λ r. "")
        all_up
        (λ k. ok tt)
        (λ n. ok (status n))
        (connection "a" ∷ connection "b" ∷ [])
        command)
run_health_checks-Outcome_example =
    run_health_checks-Outcome (λ r. "") all_up (λ k. ok tt) (λ n. ok (status n)) status (λ n. refl)
      (λ h n e. ground arith) (connection "a") (connection "b" ∷ []) command refl

abbrev adapters : Adapters Bool
adapters = record {
  acquire = λ n body. body;
  create_all = λ b m w. (ok tt, w);
  commit = λ w. (ok tt, w);
}

abbrev config_files : ConfigFiles Bool
config_files = record {
  exists = λ path. true;
  read_text = λ path. ok "";
  safe_load = λ source. ok no_mapping;
  model_validate = λ item. raise runtime_error;
}

abbrev schema_files : Files Bool
schema_files = record {
  exists = λ path. true;
  read_text = λ path. ok "";
  suffix = λ path. ".yaml";
  safe_load = λ source. ok true;
  loads = λ source. ok true;
  validated = λ raw. raise runtime_error;
}

abbrev no_import : String → String → Result Exn MetaData
no_import module_path attr = raise runtime_error

abbrev add_table : Table → MetaData → Result Exn MetaData
add_table t m = ok m

-- Both a schema and a module are given.
abbrev both : Schema.Options
both = record {
  connection_name = "primary";
  metadata_path = some "app.db:metadata";
  schema_path = some "schema.yaml";
  config = "krossdb.yaml";
}

both_refused :
    (create all_up
      (λ k. ok tt)
      adapters
      config_files
      schema_files
      quoted
      no_import
      add_table
      both
      command).0
    ≡ raise (exit 1)
unfolding create
both_refused = refl
