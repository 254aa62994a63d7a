-- ===== src/Repository/Table.antt =====
-- repositories/relational_repository.py: the statements of `SQLAlchemyRepository` on its table, and
-- what its calls reach. SQLAlchemy's answer to a statement is a parameter, given the calls made
-- before it, and so is the text that it compiles a statement to.
use krossdb.Common.{
  ℕ, String, Bool, Option, none, some, List, [], ◌∷◌, Result, ok, raise, any, ◌==◌, if◌then◌else◌,
}
use krossdb.Errors.{Exn, key_error}
use krossdb.Errors.Mapper.{Registry, Context}
use krossdb.Resilience.Retry.{AsyncRetrying}
use krossdb.Adapter.Relational.{State, Respond, Call}
use krossdb.Repository.Criteria.{Entity}
use krossdb.Repository.Criteria.Relational.{Condition}
use krossdb.Repository.Interface.{SortSpec, Changes}

-- SQLAlchemy's statements on the table; a `where` is a list of conditions.
pub data Statement : Type 0 where
  select_where : List Condition → Statement
  select_count : List Condition → Statement
  select_page : List Condition → List SortSpec → ℕ → ℕ → Statement
  insert_values : Entity → Statement
  update_values : List Condition → Changes → Statement
  delete_where : List Condition → Statement

-- What a statement gives: its rows, a number, or the count of the rows that it matched.
pub record Database : Type 0 where
  pub compiled : Statement → String
  pub rows : List Call → Statement → Result Exn (List Entity)
  pub scalar_one : List Call → Statement → Result Exn ℕ
  pub rowcount : List Call → Statement → Result Exn ℕ

-- `self`: the repository's fields and what its calls reach. `context` is what `acquire` says of
-- the adapter, and `columns` the names in `table.c`.
pub record SqlAlchemyRepository : Type 1 where
  pub registry : Registry
  pub respond : Respond
  pub database : Database
  pub context : Context
  pub table_name : String
  pub columns : List String
  pub id_column : String
  pub validate : Entity → Result Exn Unit
  pub tenacity : (A : Type 0) → AsyncRetrying State A

-- `first()`
abbrev pub first_row : List Entity → Option Entity
first_row [] = none
first_row (r ∷ _) = some r

abbrev pub sorts_by : List String → SortSpec → Bool
sorts_by columns spec = any (λ c. c == spec.field) columns

-- `table.c[spec.field]` of each sort key.
abbrev pub known_columns : List String → List SortSpec → Result Exn Unit
known_columns columns [] = ok tt
known_columns columns (spec ∷ sort) =
    let rest = known_columns columns sort in if sorts_by columns spec then rest else raise key_error
