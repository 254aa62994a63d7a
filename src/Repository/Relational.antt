-- ===== src/Repository/Relational.antt =====
-- repositories/relational_repository.py: the methods of `SQLAlchemyRepository`, over
-- Repository/Table. Entities are rows, which `model_validate` accepts or refuses, and ids texts.
pub mod Transactions
pub mod InUnit
pub mod Savepoints
mod Tests
use krossdb.Common.{
  ℕ, ◌+◌, String, Bool, true, false, Option, none, some, List, [], ◌∷◌, ◌++◌, map, Result, ok,
  raise, Exec, ◌>>=◌, ◌>>◌, pure, throw, lift, ltb, nat_eq, any, ◌==◌, if◌then◌else◌, throw_if,
}
use krossdb.Config.{RoutingRole, master, replica}
use krossdb.Errors.{Exn, cancelled, error, value_error, key_error, record_not_found_error}
use krossdb.Errors.Mapper.{Registry, Context, translate_exceptions}
use krossdb.Resilience.Retry.{AsyncRetrying}
use krossdb.Adapter.Relational.{
  State, Respond, Call, execute, begin_nested, release, rollback_to, request,
}
use krossdb.Adapter.Relational.Session.{acquire, run_read}
use krossdb.Repository.Criteria.{
  FieldFilter, Specification, Criteria, Entity, one, many, text, eq, in_,
}
use krossdb.Repository.Criteria.Relational.{
  Condition, condition_for_filter, apply_criteria, apply_extra_criteria,
}
use krossdb.Repository.Table.{
  Statement, select_where, select_count, select_page, insert_values, update_values, delete_where,
  Database, SqlAlchemyRepository, first_row, known_columns,
}
use krossdb.Repository.Bulk.{collect}
use krossdb.Repository.Interface.{SortSpec, Page, BulkResult, Changes, Repository}

module _ (self : SqlAlchemyRepository) where
  open self use {
    registry, respond, database, context, table_name, columns, id_column, validate, tenacity,
  }

  -- `await session.execute(stmt)`
  abbrev pub execute_for :
      {A : Type 0} → (List Call → Statement → Result Exn A) → ℕ → Statement → Exec State Exn A
  execute_for answer session stmt s = (
    answer s.history stmt,
    record s { history = s.history ++ execute session (database.compiled stmt) ∷ [] },
  )

  -- `with translate_exceptions(table=..., op=...)`
  abbrev pub translated : {A : Type 0} → String → Exec State Exn A → Exec State Exn A
  translated op call = translate_exceptions registry (("table", table_name) ∷ ("op", op) ∷ []) call

  -- A statement alone in an `acquire`.
  abbrev pub alone :
      {A : Type 0}
      → RoutingRole
      → String
      → (List Call → Statement → Result Exn A)
      → Statement
      → Exec State Exn A
  alone role op answer stmt =
      acquire registry respond context (λ session. translated op (execute_for answer session stmt))
        role

  -- `_row_to_model`
  abbrev pub row_to_model : Entity → Exec State Exn Entity
  row_to_model row = lift (validate row) >> pure row

  abbrev pub rows_to_models : List Entity → Exec State Exn (List Entity)
  rows_to_models [] = pure []
  rows_to_models (r ∷ rs) = row_to_model r >>= λ m. rows_to_models rs >>= λ ms. pure (m ∷ ms)

  abbrev model_or_none : Option Entity → Exec State Exn (Option Entity)
  model_or_none none = pure none
  model_or_none (some row) = row_to_model row >>= λ m. pure (some m)

  -- `table.c[id_column] == id_`
  abbrev pub id_is : String → Result Exn Condition
  id_is id =
      condition_for_filter columns
        (record { field = id_column; operator = eq; value = one (text id) })

  unfoldable pub get_by_id : String → Exec State Exn (Option Entity)
  get_by_id id = do
    where_id ← lift (id_is id)
    rows ←
        run_read (tenacity (List Entity))
          (alone replica "get_by_id" database.rows (select_where (where_id ∷ [])))
    model_or_none (first_row rows)

  unfoldable pub create : Entity → Exec State Exn Entity
  create entity = alone master "create" database.rowcount (insert_values entity) >> pure entity

  abbrev or_not_found : Option Entity → Exec State Exn Entity
  or_not_found none = throw (error record_not_found_error)
  or_not_found (some row) = row_to_model row

  unfoldable pub update : String → Changes → Option Specification → Exec State Exn Entity
  update id changes extra_criteria = do
    where_id ← lift (id_is id)
    conditions ← lift (apply_extra_criteria columns extra_criteria (where_id ∷ []))
    matched ← alone master "update" database.rowcount (update_values conditions changes)
    throw_if (nat_eq matched 0) (error record_not_found_error)
    rows ← alone master "update_readback" database.rows (select_where (where_id ∷ []))
    or_not_found (first_row rows)

  unfoldable pub delete_by_id : String → Option Specification → Exec State Exn Bool
  delete_by_id id extra_criteria = do
    where_id ← lift (id_is id)
    conditions ← lift (apply_extra_criteria columns extra_criteria (where_id ∷ []))
    matched ← alone master "delete" database.rowcount (delete_where conditions)
    pure (ltb 0 matched)

  -- The count and the page, in one session.
  abbrev pub read_page : List Condition → List SortSpec → ℕ → ℕ → Exec State Exn (ℕ × List Entity)
  read_page conditions sort limit offset =
      acquire registry respond context
        (λ session. translated "find" (do
          total ← execute_for database.scalar_one session (select_count conditions)
          rows ← execute_for database.rows session (select_page conditions sort limit offset)
          pure (total, rows)))
        replica

  unfoldable pub find : Criteria → ℕ → ℕ → List SortSpec → Exec State Exn Page
  find criteria limit offset sort = do
    throw_if (nat_eq limit 0) value_error
    conditions ← lift (apply_criteria columns criteria [])
    lift (known_columns columns sort)
    p ← run_read (tenacity (ℕ × List Entity)) (read_page conditions sort limit offset)
    items ← rows_to_models p.1
    pure (record { items = items; total = some p.0; limit = limit; offset = offset })

  unfoldable pub count : Criteria → Exec State Exn ℕ
  count criteria = do
    conditions ← lift (apply_criteria columns criteria [])
    run_read (tenacity ℕ) (alone replica "count" database.scalar_one (select_count conditions))

  -- The end of `async with session.begin_nested()`: a release, or a rollback to the savepoint. An
  -- exception of its own replaces the outcome.
  abbrev pub nested_end : {A : Type 0} → ℕ → Result Exn A × State → Result Exn A × State
  nested_end session (ok a, s) = (request respond (release session) >> pure a) s
  nested_end session (raise e, s) = (request respond (rollback_to session) >> throw e) s

  unfoldable pub nested : {A : Type 0} → ℕ → Exec State Exn A → Exec State Exn A
  nested session block = request respond (begin_nested session) >> λ s. nested_end session (block s)

  abbrev pub insert_one : ℕ → Entity → Exec State Exn ℕ
  insert_one session x =
      nested session
        (translated "bulk_create" (execute_for database.rowcount session (insert_values x)))

  unfoldable pub create_each : ℕ → ℕ → List Entity → BulkResult → Exec State Exn BulkResult
  unfolding nested
  create_each session index [] b = pure b
  create_each session index (x ∷ xs) b =
      (λ s. collect index b (λ _. x) (insert_one session x s))
      >>= create_each session (index + 1) xs

  unfoldable pub bulk_create : List Entity → Exec State Exn BulkResult
  unfolding create_each
  bulk_create entities =
      acquire registry respond context
        (λ session. create_each session 0 entities (record { succeeded = []; failed = [] })) master

  unfoldable pub update_each :
      Option Specification → ℕ → List (String × Changes) → BulkResult → Exec State Exn BulkResult
  unfolding update
  update_each extra_criteria index [] b = pure b
  update_each extra_criteria index ((id, changes) ∷ us) b =
      (λ s. collect index b (λ e. e) (update id changes extra_criteria s))
      >>= update_each extra_criteria (index + 1) us

  unfoldable pub bulk_update :
      List (String × Changes) → Option Specification → Exec State Exn BulkResult
  unfolding update_each
  bulk_update updates extra_criteria =
      update_each extra_criteria 0 updates (record { succeeded = []; failed = [] })

  -- `table.c[id_column].in_(ids)`
  abbrev pub id_in : List String → Result Exn Condition
  id_in ids =
      condition_for_filter columns
        (record { field = id_column; operator = in_; value = many (map text ids) })

  unfoldable pub bulk_delete : List String → Option Specification → Exec State Exn ℕ
  bulk_delete [] extra_criteria = pure 0
  bulk_delete (i ∷ is) extra_criteria = do
    where_id ← lift (id_in (i ∷ is))
    conditions ← lift (apply_extra_criteria columns extra_criteria (where_id ∷ []))
    matched ← alone master "bulk_delete" database.rowcount (delete_where conditions)
    pure matched

  abbrev pub sqlalchemy_repository : Repository State String
  sqlalchemy_repository = record {
    get_by_id = get_by_id;
    create = create;
    update = update;
    delete = delete_by_id;
    find = find;
    count = count;
    bulk_create = bulk_create;
    bulk_update = bulk_update;
    bulk_delete = bulk_delete;
  }
