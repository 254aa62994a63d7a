-- ===== src/Migrations.antt =====
-- migrations/support.py: the connection string that Alembic gets. The file's existence, and its
-- reading, parsing and validation, are parameters.
pub mod Dsn
pub mod Environment
mod Tests
use Prim.Native.Char.{Char}
use Prim.Native.String
use krossdb.Common.{
  ℕ, zero, suc, String, Bool, true, false, not, Option, none, some, List, [], ◌∷◌, ◌==◌,
  if◌then◌else◌, Result, ok, raise,
}
use krossdb.Common.Dict.{Dict, lookup, put}
use krossdb.Common.Text.{◌+++◌}
use krossdb.Config.{ConnectionConfig, NodeConfig, master_nodes}
use krossdb.Errors.{Exn, error, configuration_error}

unfoldable pub sync_driver_map : Dict String
sync_driver_map =
    ("postgresql+asyncpg", "postgresql+psycopg")
    ∷ ("postgresql", "postgresql+psycopg")
    ∷ ("mysql+asyncmy", "mysql+pymysql")
    ∷ ("mysql", "mysql+pymysql")
    ∷ ("sqlite+aiosqlite", "sqlite")
    ∷ []

-- The first characters of a text, and the others.
unfoldable pub take_text : ℕ → String → String
take_text zero s = ""
take_text (suc n) String.[] = ""
take_text (suc n) (String.◌∷◌ c s) = String.◌∷◌ c (take_text n s)

unfoldable pub drop_text : ℕ → String → String
drop_text zero s = s
drop_text (suc n) String.[] = ""
drop_text (suc n) (String.◌∷◌ c s) = drop_text n s

-- One more character before the separator.
abbrev pub before : Char → Option (String × String) → Option (String × String)
before c none = none
before c (some (scheme, rest)) = some (String.◌∷◌ c scheme, rest)

-- `dsn.partition("://")`, or nothing if the separator is not in it.
unfoldable pub partition : String → Option (String × String)
unfolding take_text drop_text
partition String.[] = none
partition (String.◌∷◌ c s) =
    let later = partition s in
    if take_text 3 (String.◌∷◌ c s) == "://"
    then some ("", drop_text 3 (String.◌∷◌ c s))
    else before c later

abbrev pub with_scheme : String → Option String → Result Exn String
with_scheme rest none = raise (error configuration_error)
with_scheme rest (some sync_scheme) =
    if sync_scheme == "sqlite"
    then ok ("sqlite://" +++ rest)
    else ok (sync_scheme +++ "://" +++ rest)

abbrev pub rewritten : Option (String × String) → Result Exn String
rewritten none = raise (error configuration_error)
rewritten (some (scheme, rest)) = with_scheme rest (lookup scheme sync_driver_map)

unfoldable pub sync_dsn_from_async : String → Result Exn String
unfolding partition lookup sync_driver_map
sync_dsn_from_async dsn = rewritten (partition dsn)

-- `{c.name: c for c in configs}`
abbrev pub by_name : List ConnectionConfig → Dict ConnectionConfig → Dict ConnectionConfig
by_name [] d = d
by_name (c ∷ cs) d = by_name cs (put c.name c d)

abbrev pub first_dsn : List NodeConfig → Result Exn String
first_dsn [] = raise (error configuration_error)
first_dsn (n ∷ _) = ok n.dsn

abbrev pub master_dsn : Option ConnectionConfig → Result Exn String
master_dsn none = raise (error configuration_error)
master_dsn (some c) = first_dsn (master_nodes c)

abbrev pub dsn_of : String → Result Exn (List ConnectionConfig) → Result Exn String
dsn_of connection_name (raise e) = raise e
dsn_of connection_name (ok configs) = master_dsn (lookup connection_name (by_name configs []))

module _ (exists : String → Bool) (connections : String → Result Exn (List ConnectionConfig)) where
  unfoldable pub load_master_dsn : String → String → Result Exn String
  unfolding lookup put master_nodes
  load_master_dsn config_path connection_name =
      if not (exists config_path)
      then raise (error configuration_error)
      else dsn_of connection_name (connections config_path)
