-- ===== src/Migrations/Environment.antt =====
-- migrations/support.py: `configure`, what an application's env.py runs. The calls of Alembic and
-- of SQLAlchemy's sync engine are answered by a parameter, given the calls before.
pub mod Brackets
use krossdb.Common.{
  ℕ, String, Bool, true, false, not, Option, none, some, List, [], ◌∷◌, ◌++◌, Result, ok, raise,
  Exec, ◌>>=◌, ◌>>◌, lift, throw_if, if◌then◌else◌,
}
use krossdb.Common.Dict.{Dict}
use krossdb.Config.{ConnectionConfig}
use krossdb.Errors.{Exn, error, configuration_error}
use krossdb.Migrations.{sync_dsn_from_async, load_master_dsn}

pub data Call : Type 0 where
  set_main_option : String → String → Call
  configure_offline : String → Call
  engine_from_config : Dict String → Call
  connect close configure_online : Call
  begin_transaction run_migrations : Call
  -- `begin_transaction`'s context manager is left, without an exception or with one.
  exit_transaction : Option Exn → Call

-- What the installation and the configuration of Alembic answer.
pub record Alembic : Type 0 where
  pub installed : Bool
  pub is_offline_mode : Bool
  pub get_section : List Call → Option (Dict String)
  pub respond : List Call → Call → Result Exn Unit

abbrev pub or_empty : Option (Dict String) → Dict String
or_empty none = []
or_empty (some section) = section

module _ (alembic : Alembic) where
  abbrev pub request : Call → Exec (List Call) Exn Unit
  request c h = (alembic.respond h c, h ++ c ∷ [])

  -- What the end of a block raises replaces what the block raised.
  abbrev pub ended_by : Result Exn Unit → Result Exn Unit → Result Exn Unit
  ended_by (ok _) r = r
  ended_by (raise e) r = raise e

  abbrev pub raised : Result Exn Unit → Option Exn
  raised (ok _) = none
  raised (raise e) = some e

  -- `with context.begin_transaction(): context.run_migrations()`. What Alembic asks of the
  -- database as the block is entered and left is its own. Its manager does not swallow exceptions.
  unfoldable pub migrate : Exec (List Call) Exn Unit
  migrate = request begin_transaction >> λ h.
      let (r, h1) = request run_migrations h in
      let (x, h2) = request (exit_transaction (raised r)) h1 in (ended_by x r, h2)

  -- `with connectable.connect() as connection: body`
  unfoldable pub connected : Exec (List Call) Exn Unit → Exec (List Call) Exn Unit
  connected body = request connect >> λ h.
      let (r, h1) = body h in let (x, h2) = request close h1 in (ended_by x r, h2)

  unfoldable pub run_offline : String → Exec (List Call) Exn Unit
  unfolding migrate
  run_offline sync_url = request (configure_offline sync_url) >> migrate

  unfoldable pub run_online : Exec (List Call) Exn Unit
  unfolding migrate connected
  run_online =
      (λ h. request (engine_from_config (or_empty (alembic.get_section h))) h)
      >> connected (request configure_online >> migrate)

  module _ (exists : String → Bool)
      (connections : String → Result Exn (List ConnectionConfig)) where
    -- The DSN that Alembic is to connect with.
    unfoldable pub sync_url_of : String → String → Result Exn String
    unfolding load_master_dsn sync_dsn_from_async
    sync_url_of config_path connection_name =
        elim (load_master_dsn exists connections config_path connection_name) [
          | ok dsn ↦ sync_dsn_from_async dsn
          | raise e ↦ raise e
        ]

    -- `configure(metadata, connection_name, config_path)`
    unfoldable pub configure : String → String → Exec (List Call) Exn Unit
    unfolding sync_url_of run_offline run_online
    configure connection_name config_path = do
      throw_if (not alembic.installed) (error configuration_error)
      sync_url ← lift (sync_url_of config_path connection_name)
      request (set_main_option "sqlalchemy.url" sync_url)
      if alembic.is_offline_mode then run_offline sync_url else run_online
