-- ===== src/Repository/Tenancy.antt =====
-- core/context.py (the tenant's context variable) and multitenancy/context.py: a repository that
-- is scoped to a tenant, over any repository. The variable's value is the argument `tenant`.
pub mod Isolation
pub mod Ownership
pub mod Reads
use krossdb.Common.{
  ℕ, String, Bool, true, false, not, ◌&&◌, Option, none, some, List, [], ◌∷◌, ◌++◌, map, any,
  Result, ok, raise, Exec, ◌>>=◌, ◌>>◌, pure, throw, throw_if, lift, ◌==◌, if◌then◌else◌,
}
use krossdb.Common.Dict.{lookup, put}
use krossdb.Errors.{Exn, error, tenant_context_missing_error, cross_tenant_access_error}
use krossdb.Repository.Criteria.{
  Value, FieldFilter, Specification, Criteria, Entity, null, text, one, eq, specification,
  attribute, value_eq, normalize_criteria,
}
use krossdb.Repository.Interface.{SortSpec, Page, BulkResult, Changes, Repository, or_empty}

-- `get_tenant_id(required=True)`
abbrev pub get_tenant_id : Option String → Result Exn String
get_tenant_id none = raise (error tenant_context_missing_error)
get_tenant_id (some t) = ok t

-- `with tenant_scope(tenant_id): body`; the variable has its old value after the block.
unfoldable pub tenant_scope :
    {S A : Type 0} → String → (Option String → Exec S Exn A) → Exec S Exn A
tenant_scope tenant_id body s =
    if tenant_id == ""
    then (raise (error tenant_context_missing_error), s)
    else body (some tenant_id) s

abbrev pub tenant_filter : String → FieldFilter
tenant_filter t = record { field = "tenant_id"; operator = eq; value = one (text t) }

abbrev pub belongs : String → Entity → Bool
belongs t e = value_eq (attribute e "tenant_id") (text t)

abbrev differs : Option Value → String → Bool
differs none t = false
differs (some v) t = not (value_eq v (text t))

-- The condition of `_reject_tenant_id_reassignment`.
unfoldable pub reassigns : String → Changes → Bool
reassigns t changes = differs (lookup "tenant_id" changes) t

abbrev stamped_otherwise : Value → String → Bool
stamped_otherwise null t = false
stamped_otherwise v t = not (value_eq v (text t))

-- `existing_tenant not in (None, tenant_id)`
unfoldable pub foreign_stamp : String → Entity → Bool
foreign_stamp t e = stamped_otherwise (attribute e "tenant_id") t

-- `entity.model_copy(update={"tenant_id": tenant_id})`
unfoldable pub stamp : String → Entity → Entity
stamp t e = put "tenant_id" (text t) e

module _ {S Key : Type 0} (inner : Repository S Key) (tenant : Option String) where
  abbrev own_or_none : Entity → String → Option Entity
  own_or_none e t = if not (belongs t e) then none else some e

  -- `_owned`: without an entity the tenant is not asked for.
  abbrev pub owned : Option Entity → Exec S Exn (Option Entity)
  owned none = pure none
  owned (some e) = lift (get_tenant_id tenant) >>= λ t. pure (own_or_none e t)

  unfoldable pub get_by_id : Key → Exec S Exn (Option Entity)
  get_by_id id = inner.get_by_id id >>= owned

  unfoldable pub create : Entity → Exec S Exn Entity
  unfolding foreign_stamp stamp
  create entity = do
    t ← lift (get_tenant_id tenant)
    throw_if (foreign_stamp t entity) (error cross_tenant_access_error)
    inner.create (stamp t entity)

  abbrev scoped : String → Option Specification → Option Specification
  scoped t extra_criteria = some (tenant_filter t ∷ or_empty extra_criteria)

  unfoldable pub update : Key → Changes → Option Specification → Exec S Exn Entity
  unfolding reassigns
  update id changes extra_criteria = do
    t ← lift (get_tenant_id tenant)
    throw_if (reassigns t changes) (error cross_tenant_access_error)
    inner.update id changes (scoped t extra_criteria)

  unfoldable pub delete : Key → Option Specification → Exec S Exn Bool
  delete id extra_criteria = do
    t ← lift (get_tenant_id tenant)
    inner.delete id (scoped t extra_criteria)

  abbrev scoped_criteria : Criteria → String → Criteria
  scoped_criteria criteria t = specification (normalize_criteria criteria ++ tenant_filter t ∷ [])

  unfoldable pub find : Criteria → ℕ → ℕ → List SortSpec → Exec S Exn Page
  find criteria limit offset sort = do
    t ← lift (get_tenant_id tenant)
    inner.find (scoped_criteria criteria t) limit offset sort

  unfoldable pub count : Criteria → Exec S Exn ℕ
  count criteria = do t ← lift (get_tenant_id tenant); inner.count (scoped_criteria criteria t)

  unfoldable pub bulk_create : List Entity → Exec S Exn BulkResult
  unfolding foreign_stamp stamp
  bulk_create entities = do
    t ← lift (get_tenant_id tenant)
    throw_if (any (foreign_stamp t) entities) (error cross_tenant_access_error)
    inner.bulk_create (map (stamp t) entities)

  unfoldable pub bulk_update : List (Key × Changes) → Option Specification → Exec S Exn BulkResult
  unfolding reassigns
  bulk_update updates extra_criteria = do
    t ← lift (get_tenant_id tenant)
    throw_if (any (λ u. reassigns t u.1) updates) (error cross_tenant_access_error)
    inner.bulk_update updates (scoped t extra_criteria)

  unfoldable pub bulk_delete : List Key → Option Specification → Exec S Exn ℕ
  bulk_delete ids extra_criteria = do
    t ← lift (get_tenant_id tenant)
    inner.bulk_delete ids (scoped t extra_criteria)

  -- The wrapper as a repository.
  abbrev pub tenant_scoped : Repository S Key
  tenant_scoped = record {
    get_by_id = get_by_id;
    create = create;
    update = update;
    delete = delete;
    find = find;
    count = count;
    bulk_create = bulk_create;
    bulk_update = bulk_update;
    bulk_delete = bulk_delete;
  }
