-- ===== src/Repository/Vector.antt =====
-- repositories/vector_repository.py: the methods of `QdrantRepository`, over the client of
-- Repository/Point.
pub mod Keeping
pub mod Scoped
pub mod Overwrites
mod Tests
use krossdb.Common.{
  ℕ, ◌+◌, String, Bool, true, false, not, ◌&&◌, Option, none, some, List, [], ◌∷◌, ◌++◌, map,
  Result, ok, raise, Exec, ◌>>=◌, ◌>>◌, pure, throw, lift, length, if◌then◌else◌, throw_if,
}
use krossdb.Common.Dict.{delete, lookup, put}
use krossdb.Errors.{Exn, error, key_error, record_not_found_error}
use krossdb.Errors.Mapper.{Registry, translate_exceptions}
use krossdb.Resilience.Retry.{AsyncRetrying}
use krossdb.Adapter.Qdrant.{acquire}
use krossdb.Adapter.Single.{Node, on_world, run_read}
use krossdb.Repository.Criteria.{
  Value, text, show, FieldFilter, Specification, Criteria, Entity, specification, matches_criteria,
}
use krossdb.Repository.Criteria.Qdrant.{
  Lists, Selector, ids, by_filter, has_id, add_all, criteria_to_filter, points_selector,
}
use krossdb.Repository.Point.{
  Point, Client, QdrantRepository, first_point, entity_to_point, entities_to_points, point_to_model,
  points_to_models, model_or_none,
}
use krossdb.Repository.Bulk.{collect}
use krossdb.Repository.Interface.{SortSpec, Page, BulkResult, Changes, Repository}

-- `extra_criteria and not _matches_criteria(updated, extra_criteria)`
unfoldable pub misses : Entity → Option Specification → Result Exn Bool
misses e none = ok false
misses e (some []) = ok false
misses e (some (f ∷ fs)) = elim (matches_criteria e (specification (f ∷ fs))) [
  | ok b ↦ ok (not b)
  | raise x ↦ raise x
]

-- The selector of a scoped bulk deletion.
unfoldable pub owned_selector : List String → List FieldFilter → Selector
owned_selector owned_ids filters =
    by_filter (add_all filters (record { must = has_id owned_ids ∷ []; must_not = [] }))

module _ {W : Type 0} (self : QdrantRepository W) where
  open self use {clock, registry, client, collection_name, validate, tenacity}

  -- `with translate_exceptions(collection=..., op=...)` around a block.
  abbrev pub translated : {A : Type 0} → String → Exec (Node W) Exn A → Exec (Node W) Exn A
  translated op block =
      translate_exceptions registry (("collection", collection_name) ∷ ("op", op) ∷ []) block

  abbrev pub read_one : String → Exec (Node W) Exn (List Point)
  read_one id =
      acquire clock registry (translated "get_by_id" (on_world (client.retrieve (id ∷ []) true)))

  unfoldable pub get_by_id : String → Exec (Node W) Exn (Option Entity)
  unfolding point_to_model
  get_by_id id = run_read (tenacity (List Point)) (read_one id) >>= λ points.
      model_or_none self (first_point points)

  unfoldable pub create : Entity → Exec (Node W) Exn Entity
  create entity = do
    point ← entity_to_point self entity
    acquire clock registry (translated "create" (on_world (client.upsert (point ∷ []))))
    pure entity

  abbrev pub checked : Option Specification → Option Entity → Exec (Node W) Exn Entity
  checked extra_criteria none = throw (error record_not_found_error)
  checked extra_criteria (some updated) = do
    missed ← lift (misses updated extra_criteria)
    throw_if missed (error record_not_found_error)
    pure updated

  unfoldable pub update : String → Changes → Option Specification → Exec (Node W) Exn Entity
  unfolding get_by_id misses
  update id changes extra_criteria = do
    acquire clock registry (
        translated "update"
          (on_world (client.set_payload changes (points_selector id extra_criteria))))
    updated ← get_by_id id
    checked extra_criteria updated

  abbrev is_gone : Option Entity → Bool
  is_gone none = true
  is_gone (some _) = false

  abbrev pub delete_existing :
      String → Option Specification → Option Entity → Exec (Node W) Exn Bool
  delete_existing id extra_criteria none = pure false
  delete_existing id extra_criteria (some _) = do
    acquire clock registry
        (translated "delete" (on_world (client.delete_points (points_selector id extra_criteria))))
    left ← get_by_id id
    pure (is_gone left)

  unfoldable pub delete_by_id : String → Option Specification → Exec (Node W) Exn Bool
  unfolding get_by_id
  delete_by_id id extra_criteria = do
    existing ← get_by_id id
    delete_existing id extra_criteria existing

  abbrev pub read_page : Option Lists → ℕ → ℕ → Exec (Node W) Exn (ℕ × List Point)
  read_page query_filter limit offset = acquire clock registry (
      translated "find" (do
        points ← on_world (client.scroll query_filter limit offset)
        total ← on_world (client.count_points query_filter)
        pure (total, points)))

  -- `sort` is not read.
  unfoldable pub find : Criteria → ℕ → ℕ → List SortSpec → Exec (Node W) Exn Page
  unfolding points_to_models
  find criteria limit offset sort = do
    p ← run_read (tenacity (ℕ × List Point)) (read_page (criteria_to_filter criteria) limit offset)
    items ← points_to_models self p.1
    pure (record { items = items; total = some p.0; limit = limit; offset = offset })

  abbrev pub read_count : Option Lists → Exec (Node W) Exn ℕ
  read_count query_filter =
      acquire clock registry (translated "count" (on_world (client.count_points query_filter)))

  unfoldable pub count : Criteria → Exec (Node W) Exn ℕ
  count criteria = run_read (tenacity ℕ) (read_count (criteria_to_filter criteria))

  unfoldable pub bulk_create : List Entity → Exec (Node W) Exn BulkResult
  bulk_create entities = do
    points ← entities_to_points self entities
    acquire clock registry (translated "bulk_create" (on_world (client.upsert points)))
    pure (record { succeeded = entities; failed = [] })

  unfoldable pub update_each :
      Option Specification → ℕ → List (String × Changes) → BulkResult → Exec (Node W) Exn BulkResult
  unfolding update
  update_each extra_criteria index [] b = pure b
  update_each extra_criteria index ((id, changes) ∷ us) b =
      (λ s. collect index b (λ e. e) (update id changes extra_criteria s))
      >>= update_each extra_criteria (index + 1) us

  unfoldable pub bulk_update :
      List (String × Changes) → Option Specification → Exec (Node W) Exn BulkResult
  unfolding update_each
  bulk_update updates extra_criteria =
      update_each extra_criteria 0 updates (record { succeeded = []; failed = [] })

  -- The ids of the points that satisfy the filters.
  unfoldable pub owned : List FieldFilter → List Point → Exec (Node W) Exn (List String)
  unfolding point_to_model
  owned filters [] = pure []
  owned filters (p ∷ ps) = do
    m ← point_to_model self p
    mine ← lift (matches_criteria m (specification filters))
    others ← owned filters ps
    pure (if mine then p.id ∷ others else others)

  abbrev pub delete_owned : List FieldFilter → List String → Exec (Node W) Exn ℕ
  delete_owned filters [] = pure 0
  delete_owned filters (i ∷ is) =
      on_world (client.delete_points (owned_selector (i ∷ is) filters)) >> pure (length (i ∷ is))

  abbrev pub delete_scoped : List String → List FieldFilter → Exec (Node W) Exn ℕ
  delete_scoped is filters = acquire clock registry (
      translated "bulk_delete" (do
        points ← on_world (client.retrieve is false)
        owned_ids ← owned filters points
        delete_owned filters owned_ids))

  abbrev pub delete_unscoped : List String → Exec (Node W) Exn ℕ
  delete_unscoped is =
      acquire clock registry (translated "bulk_delete" (on_world (client.delete_points (ids is))))
      >> pure (length is)

  unfoldable pub bulk_delete : List String → Option Specification → Exec (Node W) Exn ℕ
  unfolding owned owned_selector
  bulk_delete [] extra_criteria = pure 0
  bulk_delete (i ∷ is) none = delete_unscoped (i ∷ is)
  bulk_delete (i ∷ is) (some []) = delete_unscoped (i ∷ is)
  bulk_delete (i ∷ is) (some (f ∷ fs)) = delete_scoped (i ∷ is) (f ∷ fs)

  abbrev scored : List (Point × ℕ) → Exec (Node W) Exn (List (Entity × ℕ))
  scored [] = pure []
  scored ((p, score) ∷ ps) =
      point_to_model self p >>= λ m. scored ps >>= λ ms. pure ((m, score) ∷ ms)

  -- Scores are natural numbers, in the order of the scores.
  unfoldable pub search : Value → ℕ → Criteria → Exec (Node W) Exn (List (Entity × ℕ))
  unfolding point_to_model
  search vector limit criteria = do
    points ← run_read (tenacity (List (Point × ℕ))) (
        acquire clock registry (
          translated "search"
            (on_world (client.query_points vector limit (criteria_to_filter criteria)))))
    scored points

  abbrev pub qdrant_repository : Repository (Node W) String
  qdrant_repository = record {
    get_by_id = get_by_id;
    create = create;
    update = update;
    delete = delete_by_id;
    find = find;
    count = count;
    bulk_create = bulk_create;
    bulk_update = bulk_update;
    bulk_delete = bulk_delete;
  }
