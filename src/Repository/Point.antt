-- ===== src/Repository/Point.antt =====
-- The points of repositories/vector_repository.py: the client, and `_entity_to_point` and
-- `_point_to_model`. Entities are their JSON form, which `model_validate` accepts or refuses; ids,
-- and the JSON of vectors, are texts.
use krossdb.Common.{
  ℕ, String, Bool, Option, none, some, List, [], ◌∷◌, Result, ok, raise, Exec, ◌>>=◌, ◌>>◌, pure,
  lift,
}
use krossdb.Common.Dict.{delete, lookup, put}
use krossdb.Errors.{Exn, key_error}
use krossdb.Errors.Mapper.{Registry}
use krossdb.Resilience.Retry.{AsyncRetrying}
use krossdb.Adapter.Single.{Node}
use krossdb.Repository.Criteria.{Value, text, show, Entity}
use krossdb.Repository.Criteria.Qdrant.{Lists, Selector}
use krossdb.Repository.Interface.{Changes}

pub record Point : Type 0 where
  pub id : String
  pub vector : Option Value
  pub payload : Entity

-- `retrieve` says whether it gives the vectors.
pub record Client (W : Type 0) : Type 0 where
  pub retrieve : List String → Bool → Exec W Exn (List Point)
  pub upsert : List Point → Exec W Exn Unit
  pub set_payload : Changes → Selector → Exec W Exn Unit
  pub delete_points : Selector → Exec W Exn Unit
  pub scroll : Option Lists → ℕ → ℕ → Exec W Exn (List Point)
  pub count_points : Option Lists → Exec W Exn ℕ
  pub query_points : Value → ℕ → Option Lists → Exec W Exn (List (Point × ℕ))

-- `self`: the repository's fields and what its calls reach.
pub record QdrantRepository (W : Type 0) : Type 1 where
  pub clock : W → ℕ
  pub registry : Registry
  pub client : Client W
  pub collection_name : String
  pub validate : Entity → Result Exn Unit
  pub tenacity : (A : Type 0) → AsyncRetrying (Node W) A

abbrev popped : Option Value → Result Exn Value
popped none = raise key_error
popped (some v) = ok v

-- `getattr(point, "vector", None) or []`
abbrev or_no_vector : Option Value → Value
or_no_vector none = text "[]"
or_no_vector (some v) = v

abbrev pub first_point : List Point → Option Point
first_point [] = none
first_point (p ∷ _) = some p

module _ {W : Type 0} (self : QdrantRepository W) where
  open self use {validate}

  -- `_entity_to_point`
  abbrev pub entity_to_point : Entity → Exec (Node W) Exn Point
  entity_to_point entity = do
    vector ← lift (popped (lookup "vector" entity))
    point_id ← lift (popped (lookup "id" entity))
    pure (record {
      id = show point_id;
      vector = some vector;
      payload = delete "id" (delete "vector" entity);
    })

  abbrev pub entities_to_points : List Entity → Exec (Node W) Exn (List Point)
  entities_to_points [] = pure []
  entities_to_points (e ∷ es) =
      entity_to_point e >>= λ p. entities_to_points es >>= λ ps. pure (p ∷ ps)

  -- `_point_to_model`
  unfoldable pub point_to_model : Point → Exec (Node W) Exn Entity
  point_to_model p =
      let payload = put "vector" (or_no_vector p.vector) (put "id" (text p.id) p.payload) in
      lift (validate payload) >> pure payload

  unfoldable pub points_to_models : List Point → Exec (Node W) Exn (List Entity)
  unfolding point_to_model
  points_to_models [] = pure []
  points_to_models (p ∷ ps) = point_to_model p >>= λ m. points_to_models ps >>= λ ms. pure (m ∷ ms)

  abbrev pub model_or_none : Option Point → Exec (Node W) Exn (Option Entity)
  model_or_none none = pure none
  model_or_none (some p) = point_to_model p >>= λ m. pure (some m)
