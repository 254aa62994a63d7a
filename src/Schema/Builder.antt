-- ===== src/Schema/Builder.antt =====
-- schema/builder.py: what is handed to SQLAlchemy for a schema. `Table`, which adds itself to the
-- metadata or raises, is a parameter.
use krossdb.Common.{
  and_then, ℕ, String, Bool, true, false, not, ◌&&◌, Option, none, some, List, [], ◌∷◌, map, nat_eq,
  ◌==◌, Result, ok, if◌then◌else◌,
}
use krossdb.Common.Dict.{Dict}
use krossdb.Common.Text.{◌+++◌}
use krossdb.Errors.{Exn}
use krossdb.Schema.Config.{
  ColumnType, string, text, integer, bigint, float, numeric, boolean, date, datetime, uuid, json,
  Default, str, number, bool, ColumnSpec, ForeignKeySpec, IndexSpec, TableSpec, SchemaConfig,
}

-- SQLAlchemy's types, and their arguments.
pub data SqlType : Type 0 where
  sql_string : ℕ → SqlType
  sql_text sql_integer sql_big_integer sql_float : SqlType
  sql_numeric : Option ℕ → Option ℕ → SqlType
  sql_boolean sql_date : SqlType
  -- `timezone`
  sql_date_time : Bool → SqlType
  sql_uuid sql_json : SqlType

pub data ServerDefault : Type 0 where
  now : ServerDefault
  literal : String → ServerDefault

pub record Column : Type 0 where
  pub name : String
  pub sql_type : SqlType
  pub primary_key : Bool
  pub nullable : Bool
  pub unique : Option Bool
  pub server_default : Option ServerDefault

pub record ForeignKeyConstraint : Type 0 where
  pub columns : List String
  -- `table.column`, each
  pub refcolumns : List String
  pub ondelete : Option String

pub record Index : Type 0 where
  pub name : String
  pub columns : List String
  pub unique : Bool

pub record Table : Type 0 where
  pub name : String
  pub columns : List Column
  pub constraints : List ForeignKeyConstraint
  pub indexes : List Index

abbrev pub default_string_length : ℕ
default_string_length = 255

-- `length or default`
abbrev pub length_or : Option ℕ → ℕ → ℕ
length_or none d = d
length_or (some n) d = if nat_eq n 0 then d else n

unfoldable pub sqlalchemy_type : ColumnSpec → SqlType
sqlalchemy_type spec = elim spec.type [
  | string ↦ sql_string (length_or spec.length default_string_length)
  | text ↦ sql_text
  | integer ↦ sql_integer
  | bigint ↦ sql_big_integer
  | float ↦ sql_float
  | numeric ↦ sql_numeric spec.precision spec.scale
  | boolean ↦ sql_boolean
  | date ↦ sql_date
  | datetime ↦ sql_date_time true
  | uuid ↦ sql_uuid
  | json ↦ sql_json
]

-- `str(default)`
abbrev pub default_text : Default → String
default_text (str s) = s
default_text (number s) = s
default_text (bool b) = if b then "True" else "False"

-- `spec.default == "now"`
abbrev pub is_now : Default → Bool
is_now (str s) = s == "now"
is_now (number s) = false
is_now (bool b) = false

abbrev pub is_datetime : ColumnType → Bool
is_datetime datetime = true
is_datetime _ = false

abbrev default_of : ColumnType → Option Default → Option ServerDefault
default_of t none = none
default_of t (some d) =
    if is_datetime t && is_now d then some now else some (literal (default_text d))

unfoldable pub server_default : ColumnSpec → Option ServerDefault
server_default spec = default_of spec.type spec.default

unfoldable pub build_column : ColumnSpec → Column
unfolding sqlalchemy_type server_default
build_column spec = record {
  name = spec.name;
  sql_type = sqlalchemy_type spec;
  primary_key = spec.primary_key;
  nullable = not spec.required && not spec.primary_key;
  unique = if spec.unique then some true else none;
  server_default = server_default spec;
}

abbrev pub build_constraint : ForeignKeySpec → ForeignKeyConstraint
build_constraint fk = record {
  columns = fk.columns;
  refcolumns = map (λ c. fk.ref_table +++ "." +++ c) fk.ref_columns;
  ondelete = fk.on_delete;
}

-- `'_'.join(columns)`
abbrev pub underscored : List String → String
underscored [] = ""
underscored (c ∷ []) = c
underscored (c ∷ d ∷ cs) = c +++ "_" +++ underscored (d ∷ cs)

-- `name or f"ix_..."`
abbrev pub index_name : String → Option String → List String → String
index_name table none cs = "ix_" +++ table +++ "_" +++ underscored cs
index_name table (some n) cs = if n == "" then "ix_" +++ table +++ "_" +++ underscored cs else n

abbrev pub build_index : String → IndexSpec → Index
build_index table idx = record {
  name = index_name table idx.name idx.columns;
  columns = idx.columns;
  unique = idx.unique;
}

-- What `_build_table` hands to `Table`.
unfoldable pub described : TableSpec → Table
unfolding build_column
described spec = record {
  name = spec.name;
  columns = map build_column spec.columns;
  constraints = map build_constraint spec.foreign_keys;
  indexes = map (build_index spec.name) spec.indexes;
}

abbrev pub MetaData : Type 0
MetaData = Dict Table

module _ (table : Table → MetaData → Result Exn MetaData) where
  abbrev pub build_table : TableSpec → MetaData → Result Exn MetaData
  build_table spec metadata = table (described spec) metadata

  unfoldable pub build_tables : List TableSpec → MetaData → Result Exn MetaData
  build_tables [] metadata = ok metadata
  build_tables (t ∷ ts) metadata = and_then (build_table t metadata) (build_tables ts)

  unfoldable pub build_metadata : SchemaConfig → MetaData → Result Exn MetaData
  unfolding build_tables
  build_metadata schema metadata = build_tables schema.tables metadata
