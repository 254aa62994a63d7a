-- ===== src/Schema/Tests.antt =====
-- A schema of two tables, and what is built from it.
use krossdb.Common.{
  true, false, none, some, [], ◌∷◌, ◌++◌, ◌≡◌, refl, ok, raise, Result, if◌then◌else◌,
}
use krossdb.Common.Dict.{has, lookup}
use krossdb.Errors.{Exn, runtime_error}
use krossdb.Schema.Config.{
  ColumnSpec, uuid, string, SchemaConfig, is_in, accepts_foreign_key, accepts_index,
  validate_references, accepts_table, validate_fk_targets_exist, accepts_schema,
}
use krossdb.Schema.Builder.{Table, MetaData, build_metadata}
use krossdb.Schema.Buildable.{is_consistent, entries, build_metadata-accepted}

abbrev id_column : ColumnSpec
id_column = record {
  name = "id";
  type = uuid;
  length = none;
  precision = none;
  scale = none;
  required = true;
  primary_key = true;
  unique = false;
  default = none;
}

abbrev shop : SchemaConfig
shop = record {
  tables =
      record {
        name = "users";
        columns =
            id_column
            ∷ record id_column { name = "email"; type = string; primary_key = false }
            ∷ [];
        foreign_keys = [];
        indexes = record { name = none; columns = "email" ∷ []; unique = true } ∷ [];
      }
      ∷ record {
        name = "orders";
        columns = id_column ∷ record id_column { name = "user_id"; primary_key = false } ∷ [];
        foreign_keys =
            record {
              columns = "user_id" ∷ [];
              ref_table = "users";
              ref_columns = "id" ∷ [];
              on_delete = some "CASCADE";
            }
            ∷ [];
        indexes = [];
      }
      ∷ [];
}

-- Takes every consistent table with a new name.
abbrev strict : Table → MetaData → Result Exn MetaData
strict t m =
    if has t.name m
    then raise runtime_error
    else if is_consistent t
    then ok (m ++ (t.name, t) ∷ [])
    else raise runtime_error

strict_accepts :
    (t : Table) (m : MetaData)
    → has t.name m ≡ false
    → is_consistent t ≡ true
    → strict t m ≡ ok (m ++ (t.name, t) ∷ [])
strict_accepts t m n c = rw (n, c) refl

build_metadata-accepted_example : build_metadata strict shop [] ≡ ok (entries shop.tables)
unfolding is_in accepts_foreign_key accepts_index validate_references accepts_table
    validate_fk_targets_exist accepts_schema has lookup
build_metadata-accepted_example =
    (build_metadata-accepted strict strict_accepts shop [] refl refl refl refl).0
