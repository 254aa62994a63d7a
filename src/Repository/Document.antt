-- ===== src/Repository/Document.antt =====
-- repositories/document_repository.py: `MongoDBRepository`. The collection is an argument, a
-- record of the driver's calls. Entities are their JSON form, which `model_validate` accepts or
-- refuses, and ids their texts.
pub mod Keeping
pub mod Views
pub mod Updates
pub mod Creations
pub mod Searches
pub mod Contract
pub mod OneDocument
pub mod Accounts
use krossdb.Common.{
  ℕ, ◌+◌, String, Bool, true, false, not, Option, none, some, List, [], ◌∷◌, ◌++◌, map, Result, ok,
  raise, Exec, ◌>>=◌, ◌>>◌, pure, throw, lift, ltb, nat_eq, length, if◌then◌else◌, throw_if,
}
use krossdb.Common.Dict.{delete}
use krossdb.Errors.{
  Exn, library, driver, cancelled, error, assertion_error, record_not_found_error, KrossDbError,
}
use krossdb.Errors.Mapper.{Registry, Context, translate_exceptions}
use krossdb.Resilience.Retry.{AsyncRetrying}
use krossdb.Adapter.Mongo.{acquire}
use krossdb.Adapter.Single.{Node, on_world, run_read}
use krossdb.Repository.Criteria.{
  FieldFilter, Specification, Criteria, Entity, specification, one, many, text, eq, in_,
}
use krossdb.Repository.Criteria.Mongo.{Query, criteria_to_query}
use krossdb.Repository.Bulk.{collect}
use krossdb.Repository.Interface.{SortSpec, Page, BulkResult, Changes, Repository, or_empty}

-- `update_one` returns the matched count, and the deletions the deleted count.
pub record Collection (W : Type 0) : Type 0 where
  pub find_one : Query → Exec W Exn (Option Entity)
  pub insert_one : Entity → Exec W Exn Unit
  pub update_one : Query → Changes → Exec W Exn ℕ
  pub delete_one : Query → Exec W Exn ℕ
  pub delete_many : Query → Exec W Exn ℕ
  pub cursor : Query → ℕ → ℕ → List SortSpec → Exec W Exn (List Entity)
  pub count_documents : Query → Exec W Exn ℕ

-- `self`: the repository's fields and what its calls reach.
pub record MongoDbRepository (W : Type 0) : Type 1 where
  pub clock : W → ℕ
  pub registry : Registry
  pub collection : Collection W
  pub collection_name : String
  pub id_field : String
  pub validate : Entity → Result Exn Unit
  pub tenacity : (A : Type 0) → AsyncRetrying (Node W) A

module _ {W : Type 0} (self : MongoDbRepository W) where
  open self use {clock, registry, collection, collection_name, id_field, validate, tenacity}

  -- `with translate_exceptions(collection=..., op=...)` around a call.
  abbrev translated : {A : Type 0} → String → Exec W Exn A → Exec (Node W) Exn A
  translated op call =
      translate_exceptions registry (("collection", collection_name) ∷ ("op", op) ∷ [])
        (on_world call)

  -- `_doc_to_model`
  doc_to_model : Entity → Result Exn Entity
  doc_to_model doc =
      let clean = delete "_id" doc in elim (validate clean) [ ok _ ↦ ok clean | raise e ↦ raise e ]

  abbrev both : Result Exn Entity → Result Exn (List Entity) → Result Exn (List Entity)
  both (raise e) rest = raise e
  both (ok x) (raise e) = raise e
  both (ok x) (ok xs) = ok (x ∷ xs)

  unfoldable pub models : List Entity → Result Exn (List Entity)
  unfolding doc_to_model
  models [] = ok []
  models (d ∷ ds) = both (doc_to_model d) (models ds)

  abbrev model_or_none : Option Entity → Result Exn (Option Entity)
  model_or_none none = ok none
  model_or_none (some []) = ok none
  model_or_none (some (f ∷ fs)) = elim (doc_to_model (f ∷ fs)) [
    | ok e ↦ ok (some e)
    | raise x ↦ raise x
  ]

  abbrev by_id : String → Criteria
  by_id id = specification (record { field = id_field; operator = eq; value = one (text id) } ∷ [])

  abbrev pub read_one : String → Exec (Node W) Exn (Option Entity)
  read_one id =
      acquire clock registry
        (translated "get_by_id" (collection.find_one (criteria_to_query (by_id id))))

  unfoldable pub get_by_id : String → Exec (Node W) Exn (Option Entity)
  unfolding doc_to_model
  get_by_id id =
      run_read (tenacity (Option Entity)) (read_one id) >>= λ doc. lift (model_or_none doc)

  unfoldable pub create : Entity → Exec (Node W) Exn Entity
  create entity =
      acquire clock registry (translated "create" (collection.insert_one entity)) >> pure entity

  -- `_id_and_extra_query`
  abbrev pub id_and_extra_query : String → Option Specification → Query
  id_and_extra_query id extra_criteria = criteria_to_query (
      specification (
        record { field = id_field; operator = eq; value = one (text id) }
        ∷ or_empty extra_criteria))

  abbrev or_assert : Option Entity → Exec (Node W) Exn Entity
  or_assert none = throw assertion_error
  or_assert (some e) = pure e

  unfoldable pub update : String → Changes → Option Specification → Exec (Node W) Exn Entity
  unfolding get_by_id
  update id changes extra_criteria = do
    matched ←
        acquire clock registry (
          translated "update"
            (collection.update_one (id_and_extra_query id extra_criteria) changes))
    throw_if (nat_eq matched 0) (error record_not_found_error)
    updated ← get_by_id id
    or_assert updated

  unfoldable pub delete_by_id : String → Option Specification → Exec (Node W) Exn Bool
  delete_by_id id extra_criteria = do
    deleted ←
        acquire clock registry
          (translated "delete" (collection.delete_one (id_and_extra_query id extra_criteria)))
    pure (ltb 0 deleted)

  abbrev pub read_page : Query → ℕ → ℕ → List SortSpec → Exec (Node W) Exn (ℕ × List Entity)
  read_page query limit offset sort = acquire clock registry (
      translated "find" (do
        total ← collection.count_documents query
        docs ← collection.cursor query offset limit sort
        pure (total, docs)))

  unfoldable pub find : Criteria → ℕ → ℕ → List SortSpec → Exec (Node W) Exn Page
  unfolding models
  find criteria limit offset sort = do
    p ←
        run_read (tenacity (ℕ × List Entity))
          (read_page (criteria_to_query criteria) limit offset sort)
    items ← lift (models p.1)
    pure (record { items = items; total = some p.0; limit = limit; offset = offset })

  abbrev pub read_count : Query → Exec (Node W) Exn ℕ
  read_count query = acquire clock registry (translated "count" (collection.count_documents query))

  unfoldable pub count : Criteria → Exec (Node W) Exn ℕ
  count criteria = run_read (tenacity ℕ) (read_count (criteria_to_query criteria))

  -- The loop of `bulk_create` from an index on, inside its one `acquire`.
  unfoldable pub create_each : ℕ → List Entity → BulkResult → Exec (Node W) Exn BulkResult
  create_each index [] b = pure b
  create_each index (x ∷ xs) b =
      (λ s. collect index b (λ _. x) (translated "bulk_create" (collection.insert_one x) s))
      >>= create_each (index + 1) xs

  unfoldable pub bulk_create : List Entity → Exec (Node W) Exn BulkResult
  unfolding create_each
  bulk_create entities =
      acquire clock registry (create_each 0 entities (record { succeeded = []; failed = [] }))

  unfoldable pub update_each :
      Option Specification → ℕ → List (String × Changes) → BulkResult → Exec (Node W) Exn BulkResult
  unfolding update
  update_each extra_criteria index [] b = pure b
  update_each extra_criteria index ((id, changes) ∷ us) b =
      (λ s. collect index b (λ e. e) (update id changes extra_criteria s))
      >>= update_each extra_criteria (index + 1) us

  unfoldable pub bulk_update :
      List (String × Changes) → Option Specification → Exec (Node W) Exn BulkResult
  unfolding update_each
  bulk_update updates extra_criteria =
      update_each extra_criteria 0 updates (record { succeeded = []; failed = [] })

  abbrev pub ids_and_extra_query : List String → Option Specification → Query
  ids_and_extra_query ids extra_criteria = criteria_to_query (
      specification (
        record { field = id_field; operator = in_; value = many (map text ids) }
        ∷ or_empty extra_criteria))

  unfoldable pub bulk_delete : List String → Option Specification → Exec (Node W) Exn ℕ
  bulk_delete [] extra_criteria = pure 0
  bulk_delete (i ∷ is) extra_criteria = acquire clock registry (
      translated "bulk_delete"
        (collection.delete_many (ids_and_extra_query (i ∷ is) extra_criteria)))

  abbrev pub mongodb_repository : Repository (Node W) String
  mongodb_repository = record {
    get_by_id = get_by_id;
    create = create;
    update = update;
    delete = delete_by_id;
    find = find;
    count = count;
    bulk_create = bulk_create;
    bulk_update = bulk_update;
    bulk_delete = bulk_delete;
  }
