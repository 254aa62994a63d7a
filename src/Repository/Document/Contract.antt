-- ===== src/Repository/Document/Contract.antt =====
-- repositories/document_repository.py: deletions, and the contract as a whole.
use krossdb.Common.{
  continue-view, String, Bool, true, false, Option, some, List, [], ◌∷◌, all, ◌≡◌, refl, sym, ◌∙◌,
  ◌⊎◌, inl, inr,
}
use krossdb.Adapter.Mongo.{acquire}
use krossdb.Adapter.Single.{Node}
use krossdb.Repository.Criteria.{Entity, Specification}
use krossdb.Repository.Criteria.Mongo.Exact.{Semantics}
use krossdb.Repository.Interface.{Changes, Updated, OneOf, or_empty, Promises}
use krossdb.Repository.Document.{
  MongoDbRepository, id_and_extra_query, translated, delete_by_id, bulk_update, ids_and_extra_query,
  bulk_delete, mongodb_repository,
}
use krossdb.Repository.Document.Keeping.{hidden, Behaves, satisfies, satisfies-text, unsatisfied}
use krossdb.Repository.Document.Views.{view, get-view, count-view, find-view}
use krossdb.Repository.Document.Searches.{find_selects}
use krossdb.Repository.Document.Creations.{
  create_keeps, create_adds, bulk_create_keeps, bulk_create_adds,
}
use krossdb.Repository.Tenancy.{belongs}
use krossdb.Repository.Tenancy.Isolation.{Command, session, session-isolated}
use krossdb.Repository.Document.Updates.{
  kept, came, update_keeps, update_changes, update_each_keeps, update_each_changes,
}

module _ {W : Type 0} (self : MongoDbRepository W) (mongo : Semantics Entity)
    (behaves : Behaves self.collection mongo) where
  open self use {clock, registry, collection, tenacity}
  open behaves use {stored}

  abbrev pub seen : Node W → String → Option Entity
  seen = view self mongo behaves

  abbrev pub sat : Entity → Option Specification → Bool
  sat e extra = all (satisfies collection mongo behaves e) (or_empty extra)

  pub delete_keeps :
      (i : String) (extra : Option Specification) (s : Node W) (j : String) (e : Entity)
      → seen s j ≡ some e
      → sat e extra ≡ false
      → seen (delete_by_id self i extra s).1 j ≡ some e
  unfolding delete_by_id
  delete_keeps i extra s j e v f =
      let write =
        acquire clock registry
          (translated self "delete" (collection.delete_one (id_and_extra_query self i extra))) s in
      continue-view (λ t. seen t j) write.0 _ write.1 (λ n. refl)
      ∙ kept self mongo behaves "delete" _ s j e v (λ d de sd.
        behaves.delete_one_keeps _ s.world j d sd
          (unsatisfied collection mongo behaves d e _ (or_empty extra) de f))

  pub delete_adds :
      (i : String) (extra : Option Specification) (s : Node W) (j : String) (e : Entity)
      → seen (delete_by_id self i extra s).1 j ≡ some e
      → seen s j ≡ some e
  unfolding delete_by_id
  delete_adds i extra s j e v =
      let write =
        acquire clock registry
          (translated self "delete" (collection.delete_one (id_and_extra_query self i extra))) s in
      settled (
        came self mongo behaves "delete" (collection.delete_one (id_and_extra_query self i extra)) s
          j e ⊥ (sym (continue-view (λ t. seen t j) write.0 _ write.1 (λ n. refl)) ∙ v)
          (λ d de sd. inl (behaves.delete_one_adds _ s.world j d sd)))
    where
      settled : {A : Type 0} → A ⊎ ⊥ → A
      settled (inl a) = a
      settled (inr q) = absurd q

  pub bulk_delete_keeps :
      (is : List String) (extra : Option Specification) (s : Node W) (j : String) (e : Entity)
      → seen s j ≡ some e
      → sat e extra ≡ false
      → seen (bulk_delete self is extra s).1 j ≡ some e
  unfolding bulk_delete
  bulk_delete_keeps [] extra s j e v f = v
  bulk_delete_keeps (i ∷ is) extra s j e v f =
      kept self mongo behaves "bulk_delete" _ s j e v (λ d de sd.
        behaves.delete_many_keeps _ s.world j d sd
          (unsatisfied collection mongo behaves d e _ (or_empty extra) de f))

  pub bulk_delete_adds :
      (is : List String) (extra : Option Specification) (s : Node W) (j : String) (e : Entity)
      → seen (bulk_delete self is extra s).1 j ≡ some e
      → seen s j ≡ some e
  unfolding bulk_delete
  bulk_delete_adds [] extra s j e v = v
  bulk_delete_adds (i ∷ is) extra s j e v = settled (
      came self mongo behaves "bulk_delete"
        (collection.delete_many (ids_and_extra_query self (i ∷ is) extra)) s j e ⊥ v
        (λ d de sd. inl (behaves.delete_many_adds _ s.world j d sd)))
    where
      settled : {A : Type 0} → A ⊎ ⊥ → A
      settled (inl a) = a
      settled (inr q) = absurd q

  -- `bulk_update` is its loop.
  pub bulk_update_keeps :
      (us : List (String × Changes)) (extra : Option Specification) (s : Node W) (j : String)
      (e : Entity)
      → seen s j ≡ some e
      → sat e extra ≡ false
      → seen (bulk_update self us extra s).1 j ≡ some e
  unfolding bulk_update
  bulk_update_keeps us extra s j e v f = update_each_keeps self mongo behaves extra j e f us 0 _ s v

  pub bulk_update_changes :
      (us : List (String × Changes)) (extra : Option Specification) (s : Node W) (j : String)
      (e : Entity)
      → seen (bulk_update self us extra s).1 j ≡ some e
      → (seen s j ≡ some e)
        ⊎ ((u : String × Changes) × OneOf us u
            × (old : Entity) × (sat old extra ≡ true)
            × Updated hidden u.1 old e)
  unfolding bulk_update
  bulk_update_changes us extra s j e v = update_each_changes self mongo behaves extra j e us 0 _ s v

  abbrev pub document_promises : Promises (mongodb_repository self)
  document_promises = record {
    view = seen;
    reserved = hidden;
    satisfies = satisfies collection mongo behaves;
    satisfies-eq = satisfies-text collection mongo behaves;
    get_reads = get-view self mongo behaves;
    find_reads = find-view self mongo behaves;
    find_selects = find_selects self mongo behaves;
    count_reads = count-view self mongo behaves;
    create_keeps = create_keeps self mongo behaves;
    create_adds = create_adds self mongo behaves;
    bulk_create_keeps = bulk_create_keeps self mongo behaves;
    bulk_create_adds = bulk_create_adds self mongo behaves;
    update_keeps = update_keeps self mongo behaves;
    update_changes = update_changes self mongo behaves;
    bulk_update_keeps = bulk_update_keeps;
    bulk_update_changes = bulk_update_changes;
    delete_keeps = delete_keeps;
    delete_adds = delete_adds;
    bulk_delete_keeps = bulk_delete_keeps;
    bulk_delete_adds = bulk_delete_adds;
  }

  -- So tenants are isolated from each other over MongoDB: whatever calls a tenant makes through
  -- the scoped repository, over a collection that behaves as `Behaves` says, and however they end, with breakers that
  -- refuse, drivers that raise, and bulk calls that stop half way, every entity that belongs to
  -- another tenant, or to none, is stored afterwards exactly where and as it was before.
  pub mongodb-isolated :
      (t : String) (cs : List (Command String)) (s : Node W) (j : String) (e : Entity)
      → belongs t e ≡ false
      → let after = session (mongodb_repository self) document_promises refl t cs s in
        (seen s j ≡ some e → seen after j ≡ some e) × (seen after j ≡ some e → seen s j ≡ some e)
  mongodb-isolated t cs s j e f =
      session-isolated (mongodb_repository self) document_promises refl t cs s j e f
