-- ===== src/Cli/Schema.antt =====
-- cli/commands/schema.py: `create`. An import, and what an adapter and its session do, are
-- parameters; the files of a schema are read by schema/config.py.
pub mod Refusals
use krossdb.Common.{
  String, Bool, true, false, not, Option, none, some, [], length, Result, ok, raise, Exec, ◌>>=◌,
  ◌>>◌, pure, lift, gets, and_then, ◌==◌, if◌then◌else◌, is_some,
}
use krossdb.Common.Text.{◌+++◌, decimal}
use krossdb.Config.{DatabaseKind, ConnectionConfig}
use krossdb.Config.Files.{ConfigFiles, load_connections}
use krossdb.Errors.{Exn, assertion_error}
use krossdb.Factory.{Respond, get}
use krossdb.Schema.Config.{Files, load_schema_config}
use krossdb.Schema.Builder.{Table, MetaData, build_metadata}
use krossdb.Cli.{Command, Stop, green, red, secho, quit, or_crash}
use krossdb.Cli.Connected.{Connected, inside, in_factory}
use krossdb.Cli.Health.{crashing}
use krossdb.Cli.MetadataPath.{partition}

-- What `create_all` is bound to: `run_sync` hands its function the session.
pub data Bind : Type 0 where
  session connection : Bind

pub record Adapters (S : Type 0) : Type 0 where
  pub acquire : String → Exec S Exn Unit → Exec S Exn Unit
  pub create_all : Bind → MetaData → Exec S Exn Unit
  pub commit : Exec S Exn Unit

pub record Options : Type 0 where
  pub connection_name : String
  pub metadata_path : Option String
  pub schema_path : Option String
  pub config : String

-- The truth value of an optional text, and of an optional path, which is never empty.
abbrev pub text_given : Option String → Bool
text_given none = false
text_given (some t) = not (t == "")

abbrev pub bool_eq : Bool → Bool → Bool
bool_eq true b = b
bool_eq false b = not b

module _ {S Item Raw : Type 0} (respond : Respond) (resolve : DatabaseKind → Result Exn Unit)
    (adapters : Adapters S) (files : ConfigFiles Item) (schemas : Files Raw)
    (repr : String → String) (imported : String → String → Result Exn MetaData)
    (table : Table → MetaData → Result Exn MetaData) where
  -- A call of an adapter changes what is behind it.
  abbrev pub behind : Exec S Exn Unit → Exec (Command (Connected S)) Exn Unit
  behind m s =
      let (r, w) = m s.own.world in
      (r, record s { own = record { factory = s.own.factory; world = w } })

  unfoldable pub create_tables : String → MetaData → Exec (Command (Connected S)) Exn Unit
  unfolding get
  create_tables connection_name metadata =
      gets (λ s. get connection_name s.own.factory) >>= λ found. lift found >>= λ adapter.
      behind (adapters.acquire adapter (adapters.create_all session metadata >> adapters.commit))

  -- `_create_all`
  unfoldable pub create_all : Options → MetaData → Exec (Command (Connected S)) Stop Unit
  unfolding in_factory create_tables decimal
  create_all o metadata = lift (or_crash (load_connections files o.config)) >>= λ configs.
      crashing (in_factory respond resolve configs (create_tables o.connection_name metadata))
      >> secho green
          ("Created " +++ decimal (length metadata) +++ " table(s) on " +++ repr o.connection_name)

  abbrev pub import_metadata : Options → String × String → Exec (Command (Connected S)) Stop Unit
  import_metadata o (module_path, attr) =
      if attr == ""
      then secho red "--metadata must be in the form 'module.path:attribute_name'" >> quit 1
      else lift (or_crash (imported module_path attr)) >>= create_all o

  -- From a schema file, or from a module.
  abbrev pub create_from :
      Options → Option String → Option String → Exec (Command (Connected S)) Stop Unit
  create_from o (some schema_path) metadata_path =
      lift (
        or_crash (
          and_then (load_schema_config schemas schema_path)
            (λ schema. build_metadata table schema [])))
      >>= create_all o
  create_from o none none = lift (or_crash (raise assertion_error))
  create_from o none (some metadata_path) = import_metadata o (partition metadata_path)

  -- `krossdb schema create`
  unfoldable pub create : Options → Exec (Command (Connected S)) Stop Unit
  unfolding create_all partition
  create o =
      if not (files.exists o.config)
      then secho red ("Config file not found: " +++ o.config) >> quit 1
      else if bool_eq (text_given o.metadata_path) (is_some o.schema_path)
      then secho red "Pass exactly one of --metadata or --schema" >> quit 1
      else create_from o o.schema_path o.metadata_path
