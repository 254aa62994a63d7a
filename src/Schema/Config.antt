-- ===== src/Schema/Config.antt =====
-- schema/config.py: the models of a declarative schema, what their validators accept, and
-- `load_schema_config`. Lengths and precisions are natural numbers, and a numeric default is the
-- text that `str` gives it.
use krossdb.Common.{
  ℕ, String, Bool, not, ◌&&◌, ◌||◌, Option, List, map, all, any, length, leb, nat_eq, ◌==◌, Result,
  ok, raise, and_then, if◌then◌else◌,
}
use krossdb.Errors.{Exn, cancelled, error, configuration_error}

pub data ColumnType : Type 0 where
  string text integer bigint float numeric boolean date datetime uuid json : ColumnType

pub data Default : Type 0 where
  str : String → Default
  number : String → Default
  bool : Bool → Default

pub record ColumnSpec : Type 0 where
  pub name : String
  pub type : ColumnType
  pub length : Option ℕ
  pub precision : Option ℕ
  pub scale : Option ℕ
  pub required : Bool
  pub primary_key : Bool
  pub unique : Bool
  pub default : Option Default

pub record ForeignKeySpec : Type 0 where
  pub columns : List String
  pub ref_table : String
  pub ref_columns : List String
  pub on_delete : Option String

pub record IndexSpec : Type 0 where
  pub name : Option String
  pub columns : List String
  pub unique : Bool

pub record TableSpec : Type 0 where
  pub name : String
  pub columns : List ColumnSpec
  pub foreign_keys : List ForeignKeySpec
  pub indexes : List IndexSpec

pub record SchemaConfig : Type 0 where
  pub tables : List TableSpec

-- `x in xs` on texts.
unfoldable pub is_in : List String → String → Bool
is_in xs x = any (λ y. y == x) xs

-- `min_length=1` twice, and `_matching_column_counts`.
unfoldable pub accepts_foreign_key : ForeignKeySpec → Bool
accepts_foreign_key fk =
    leb 1 (length fk.columns)
    && leb 1 (length fk.ref_columns)
    && nat_eq (length fk.columns) (length fk.ref_columns)

unfoldable pub accepts_index : IndexSpec → Bool
accepts_index idx = leb 1 (length idx.columns)

abbrev pub column_names : TableSpec → List String
column_names t = map (λ c. c.name) t.columns

-- `_validate_references`
unfoldable pub validate_references : TableSpec → Bool
unfolding is_in
validate_references t =
    any (λ c. c.primary_key) t.columns
    && all (λ fk. all (is_in (column_names t)) fk.columns) t.foreign_keys
    && all (λ idx. all (is_in (column_names t)) idx.columns) t.indexes

unfoldable pub accepts_table : TableSpec → Bool
unfolding accepts_foreign_key accepts_index validate_references
accepts_table t =
    leb 1 (length t.columns)
    && all accepts_foreign_key t.foreign_keys
    && all accepts_index t.indexes
    && validate_references t

abbrev pub table_names : SchemaConfig → List String
table_names s = map (λ t. t.name) s.tables

-- `_validate_fk_targets_exist`
unfoldable pub validate_fk_targets_exist : SchemaConfig → Bool
unfolding is_in
validate_fk_targets_exist s =
    all (λ t. all (λ fk. is_in (table_names s) fk.ref_table) t.foreign_keys) s.tables

unfoldable pub accepts_schema : SchemaConfig → Bool
unfolding accepts_table validate_fk_targets_exist
accepts_schema s =
    leb 1 (length s.tables) && all accepts_table s.tables && validate_fk_targets_exist s

-- The files, pydantic, and the two parsers are parameters.
pub record Files (Raw : Type 0) : Type 0 where
  pub exists : String → Bool
  pub read_text : String → Result Exn String
  -- `suffix.lower()`
  pub suffix : String → String
  pub safe_load : String → Result Exn Raw
  pub loads : String → Result Exn Raw
  pub validated : Raw → Result Exn SchemaConfig

-- `except Exception as exc: raise ConfigurationError(...) from exc`
abbrev pub or_configuration_error : {A : Type 0} → Result Exn A → Result Exn A
or_configuration_error (ok a) = ok a
or_configuration_error (raise cancelled) = raise cancelled
or_configuration_error (raise e) = raise (error configuration_error)

unfoldable pub load_schema_config : {Raw : Type 0} → Files Raw → String → Result Exn SchemaConfig
load_schema_config files path =
    if not (files.exists path)
    then raise (error configuration_error)
    else and_then (files.read_text path) (λ source.
      let yaml = files.suffix path == ".yaml" || files.suffix path == ".yml" in
      and_then
        (or_configuration_error (if yaml then files.safe_load source else files.loads source))
        (λ raw. or_configuration_error (files.validated raw)))
