-- ===== src/Repository/Tenancy/Reads.antt =====
-- multitenancy/context.py: what a tenant reads, and what happens without one.
use krossdb.Common.{
  false, ℕ, String, true, Option, none, some, List, [], ◌∷◌, ◌++◌, all, All, all-append, Result, ok,
  raise, ◌≡◌, refl, inl, inr, arith, Bool-cases, continue,
}
use krossdb.Errors.{Exn, error, tenant_context_missing_error}
use krossdb.Repository.Criteria.{FieldFilter, Specification, Criteria, Entity, normalize_criteria}
use krossdb.Repository.Interface.{SortSpec, Page, Changes, Repository, Promises}
use krossdb.Repository.Tenancy.{
  owned, tenant_filter, belongs, get_by_id, create, update, delete, find, count, bulk_delete,
}
use krossdb.Repository.Tenancy.Isolation.{outside}

module _ {S Key : Type 0} (inner : Repository S Key) (promises : Promises inner)
    (free : promises.reserved "tenant_id" ≡ false) (t : String) where
  open promises use {satisfies}

  items_belong :
      (fs : List FieldFilter) (es : List Entity)
      → All (λ e. all (satisfies e) (fs ++ tenant_filter t ∷ []) ≡ true) es
      → All (λ e. belongs t e ≡ true) es
  items_belong fs [] h = tt
  items_belong fs (e ∷ es) (h, hs) = (
    elim (Bool-cases (belongs t e)) [
      | inl b ↦ b
      | inr b ↦ absurd (
          ground (
            arith,
            all-append (satisfies e) fs (tenant_filter t ∷ []),
            outside inner promises free t none e b,
          ))
    ],
    items_belong fs es hs,
  )

  owned-belongs :
      (p : Result Exn (Option Entity) × S) (e : Entity)
      → (continue p.0 (owned inner (some t)) p.1).0 ≡ ok (some e)
      → belongs t e ≡ true
  owned-belongs (ok none, s) e h = absurd (ground arith)
  owned-belongs (ok (some x), s) e h = ground arith
  owned-belongs (raise x, s) e h = absurd (ground arith)

  -- Every item of a page belongs to the tenant.
  abbrev pub PageBelongs : Result Exn Page → Type 0
  PageBelongs (ok page) = All (λ x. belongs t x ≡ true) page.items
  PageBelongs (raise e) = Unit

  -- An entity that was found belongs to the tenant.
  abbrev pub EntityBelongs : Result Exn (Option Entity) → Type 0
  EntityBelongs (ok (some e)) = belongs t e ≡ true
  EntityBelongs (ok none) = Unit
  EntityBelongs (raise e) = Unit

  page-belongs :
      (fs : List FieldFilter) (r : Result Exn Page)
      → ((page : Page)
          → r ≡ ok page
          → All (λ e. all (satisfies e) (fs ++ tenant_filter t ∷ []) ≡ true) page.items)
      → PageBelongs r
  page-belongs fs (ok page) h = items_belong fs page.items (h page refl)
  page-belongs fs (raise e) h = tt

  entity-belongs :
      (r : Result Exn (Option Entity))
      → ((e : Entity) → r ≡ ok (some e) → belongs t e ≡ true)
      → EntityBelongs r
  entity-belongs (ok (some e)) h = h e refl
  entity-belongs (ok none) h = tt
  entity-belongs (raise e) h = tt

  -- Over a repository that keeps its promises and does not reserve the tenant's field, whatever a
  -- search of the tenant with any criteria returns, every item of its page belongs to the tenant;
  -- and whatever a lookup by an id returns, an entity that it finds belongs to the tenant.
  pub reads_belong :
      (c : Criteria) (l o : ℕ) (sort : List SortSpec) (s : S) (id : Key)
      → PageBelongs (find inner (some t) c l o sort s).0
        × EntityBelongs (get_by_id inner (some t) id s).0
  unfolding find get_by_id normalize_criteria
  reads_belong c l o sort s id = (
    page-belongs (normalize_criteria c) _ (promises.find_selects _ l o sort s),
    entity-belongs _ (owned-belongs (inner.get_by_id id s)),
  )

-- Without a tenant no scoped write reaches the repository, and no search does.
pub without_tenant :
    {S Key : Type 0} (inner : Repository S Key) (x : Entity) (i : Key) (ch : Changes)
    (extra : Option Specification)
    → (c : Criteria) (l o : ℕ) (sort : List SortSpec) (s : S)
    → let missing = error tenant_context_missing_error in
      (create inner none x s ≡ (raise missing, s))
      × (update inner none i ch extra s ≡ (raise missing, s))
      × (delete inner none i extra s ≡ (raise missing, s))
      × (find inner none c l o sort s ≡ (raise missing, s))
      × (count inner none c s ≡ (raise missing, s))
      × (bulk_delete inner none (i ∷ []) extra s ≡ (raise missing, s))
unfolding create update delete find count bulk_delete
without_tenant inner x i ch extra c l o sort s = (refl, refl, refl, refl, refl, refl)
