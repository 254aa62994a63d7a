-- ===== src/Migrations/Tests.antt =====
-- A connection string as an adapter has it, and migrations that fail.
use krossdb.Common.{
  String, true, false, none, List, [], ◌∷◌, ◌≡◌, refl, ok, raise, Result, if◌then◌else◌,
}
use krossdb.Common.Dict.{lookup}
use krossdb.Config.Defaults.{connection_config, node_config}
use krossdb.Config.{ConnectionConfig, sqlite}
use krossdb.Errors.{Exn, error, configuration_error, runtime_error}
use krossdb.Migrations.{partition, take_text, drop_text, sync_driver_map, sync_dsn_from_async}
use krossdb.Migrations.Dsn.{sync_dsn_from_async-join}
use krossdb.Migrations.Environment.{Alembic, sync_url_of, configure}
use krossdb.Migrations.Environment.Brackets.{is_run, outcome, configure_calls}

rewritten_dsn :
    sync_dsn_from_async "mysql+asyncmy://u:p@db/app?a=://b" ≡ ok "mysql+pymysql://u:p@db/app?a=://b"
unfolding sync_dsn_from_async partition take_text drop_text lookup sync_driver_map
rewritten_dsn = refl

sync_dsn_from_async-join_example :
    sync_dsn_from_async "mysql+pymysql://u:p@db/app?a=://b" ≡ raise (error configuration_error)
sync_dsn_from_async-join_example =
    (sync_dsn_from_async-join "mysql+asyncmy://u:p@db/app?a=://b"
      "mysql+pymysql://u:p@db/app?a=://b" rewritten_dsn).1

abbrev primary : ConnectionConfig
primary = connection_config "primary" sqlite (node_config "sqlite+aiosqlite://" ∷ [])

abbrev connections : String → Result Exn (List ConnectionConfig)
connections path = ok (primary ∷ [])

-- The migrations of this installation raise.
abbrev alembic : Alembic
alembic = record {
  installed = true;
  is_offline_mode = false;
  get_section = λ h. none;
  respond = λ h c. if is_run c then raise runtime_error else ok tt;
}

configure_calls_example :
    configure alembic (λ path. true) connections "primary" "krossdb.yaml" []
    ≡ outcome alembic
        (λ path. true)
        connections
        (raise runtime_error)
        (sync_url_of alembic (λ path. true) connections "krossdb.yaml" "primary")
configure_calls_example =
    configure_calls alembic (λ path. true) connections "krossdb.yaml" "primary"
      (raise runtime_error) refl (λ h c. refl)
