-- ===== src/Repository/Document/Creations.antt =====
-- repositories/document_repository.py: what creations leave of the stored entities.
use mathlib.Core.Path.{subst}
use krossdb.Common.{
  continue-view, ℕ, ◌+◌, String, Bool, Option, some, List, [], ◌∷◌, all, ◌≡◌, refl, sym, ap, ◌∙◌,
  ◌⊎◌, inl, inr,
}
use krossdb.Common.Dict.{delete}
use krossdb.Errors.Mapper.{translate_exceptions}
use krossdb.Adapter.Mongo.{acquire}
use krossdb.Adapter.Single.{Node}
use krossdb.Adapter.Single.Reads.{acquire_if-cases}
use krossdb.Repository.Criteria.{Entity, Specification}
use krossdb.Repository.Criteria.Mongo.Exact.{Semantics}
use krossdb.Repository.Bulk.{collect-then}
use krossdb.Repository.Interface.{BulkResult, Updated, OneOf, or_empty}
use krossdb.Repository.Document.{MongoDbRepository, translated, create, create_each, bulk_create}
use krossdb.Repository.Document.Keeping.{
  hidden, Behaves, hide, hide-some, attribute-hide, satisfies,
}
use krossdb.Repository.Document.Views.{view}
use krossdb.Repository.Document.Updates.{kept, came}

module _ {W : Type 0} (self : MongoDbRepository W) (mongo : Semantics Entity)
    (behaves : Behaves self.collection mongo) where
  open self use {clock, registry, collection, tenacity}
  open behaves use {stored}

  abbrev seen : Node W → String → Option Entity
  seen = view self mongo behaves

  abbrev sat : Entity → Option Specification → Bool
  sat e extra = all (satisfies collection mongo behaves e) (or_empty extra)

  pub create_keeps :
      (x : Entity) (s : Node W) (j : String) (e : Entity)
      → seen s j ≡ some e
      → seen (create self x s).1 j ≡ some e
  unfolding create
  create_keeps x s j e v =
      continue-view (λ t. seen t j)
        (acquire clock registry (translated self "create" (collection.insert_one x)) s).0 _ _
        (λ _. refl)
      ∙ kept self mongo behaves "create" _ s j e v
          (λ d de sd. behaves.insert_keeps x s.world j d sd)

  pub create_adds :
      (x : Entity) (s : Node W) (j : String) (e : Entity)
      → seen (create self x s).1 j ≡ some e
      → (seen s j ≡ some e) ⊎ Updated hidden [] x e
  unfolding create
  create_adds x s j e v =
      came self mongo behaves "create" (collection.insert_one x) s j e (Updated hidden [] x e)
        (sym (
            continue-view (λ t. seen t j)
              (acquire clock registry (translated self "create" (collection.insert_one x)) s).0 _ _
              (λ _. refl))
          ∙ v)
        (λ d de sd. elim (behaves.insert_adds x s.world j d sd) [
          | inl b ↦ inl b
          | inr u ↦ inr (subst (λ y. Updated hidden [] x y) de (hidden_apart d x u))
        ])
    where
      hidden_apart : (d x : Entity) → Updated hidden [] x d → Updated hidden [] x (delete "_id" d)
      hidden_apart d x u f h = attribute-hide d f h ∙ u f h

  create_each_keeps :
      (j : String) (d : Entity) (xs : List Entity) (index : ℕ) (b : BulkResult) (s : Node W)
      → stored s.world j ≡ some d
      → stored (create_each self index xs b s).1.world j ≡ some d
  unfolding create_each translate_exceptions
  create_each_keeps j d [] index b s v = v
  create_each_keeps j d (x ∷ xs) index b s v =
      let v' = behaves.insert_keeps x s.world j d v in
      let p = translated self "bulk_create" (collection.insert_one x) s in
      collect-then (λ t. stored t.world j ≡ some d) index b (λ _. x) p
        (create_each self (index + 1) xs) v' (λ b'. create_each_keeps j d xs (index + 1) b' p.1 v')

  abbrev Inserted : List Entity → Entity → Type 0
  Inserted xs d = (x : Entity) × OneOf xs x × Updated hidden [] x d

  Inserted-first :
      (x : Entity) (xs : List Entity) (w : W) (j : String) (d : Entity)
      → stored (collection.insert_one x w).1 j ≡ some d
      → (stored w j ≡ some d) ⊎ Inserted (x ∷ xs) d
  Inserted-first x xs w j d v = elim (behaves.insert_adds x w j d v) [
    | inl h ↦ inl h
    | inr u ↦ inr (x, inl refl, u)
  ]

  create_each_adds :
      (j : String) (d : Entity) (xs : List Entity) (index : ℕ) (b : BulkResult) (s : Node W)
      → stored (create_each self index xs b s).1.world j ≡ some d
      → (stored s.world j ≡ some d) ⊎ Inserted xs d
  unfolding create_each translate_exceptions
  create_each_adds j d [] index b s v = inl v
  create_each_adds j d (x ∷ xs) index b s v =
      let p = translated self "bulk_create" (collection.insert_one x) s in
      collect-then
        (λ t. stored t.world j ≡ some d → (stored s.world j ≡ some d) ⊎ Inserted (x ∷ xs) d) index b
        (λ _. x) p (create_each self (index + 1) xs) (Inserted-first x xs s.world j d)
        (λ b' w. elim (create_each_adds j d xs (index + 1) b' p.1 w) [
          | inl h ↦ Inserted-first x xs s.world j d h
          | inr (y, o, u) ↦ inr (y, inr o, u)
        ])
        v

  -- The one `acquire` of a bulk creation.
  bulk_create-cases :
      (xs : List Entity) (s : Node W)
      → ((bulk_create self xs s).1.world ≡ s.world)
        ⊎ ((x : Node W) × (x.world ≡ s.world)
            × ((bulk_create self xs s).1.world
                ≡ (create_each self 0 xs (record { succeeded = []; failed = [] }) x).1.world))
  unfolding bulk_create acquire translate_exceptions
  bulk_create-cases xs s =
      elim (acquire_if-cases clock registry s.database
        (("adapter", "mongodb") ∷ ("connection", s.config.name) ∷ [])
        (create_each self 0 xs (record { succeeded = []; failed = [] })) s) [
          | inl (e, r, _, h) ↦ inl h
          | inr (x, h, out, r) ↦ inr (x, h, out)
        ]

  pub bulk_create_keeps :
      (xs : List Entity) (s : Node W) (j : String) (e : Entity)
      → seen s j ≡ some e
      → seen (bulk_create self xs s).1 j ≡ some e
  bulk_create_keeps xs s j e v =
      let (d, sd, de) = hide-some (stored s.world j) e v in
      elim (bulk_create-cases xs s) [
        | inl h ↦ ap (λ w. hide (stored w j)) h ∙ v
        | inr (x, h, out) ↦
            ap (λ w. hide (stored w j)) out
            ∙ ap hide (create_each_keeps j d xs 0 _ x (ap (λ w. stored w j) h ∙ sd))
            ∙ ap some de
      ]

  pub bulk_create_adds :
      (xs : List Entity) (s : Node W) (j : String) (e : Entity)
      → seen (bulk_create self xs s).1 j ≡ some e
      → (seen s j ≡ some e) ⊎ ((x : Entity) × OneOf xs x × Updated hidden [] x e)
  bulk_create_adds xs s j e v =
      let (d, sd, de) = hide-some (stored (bulk_create self xs s).1.world j) e v in
      elim (bulk_create-cases xs s) [
        | inl h ↦ inl (ap (λ w. hide (stored w j)) (sym h) ∙ v)
        | inr (x, h, out) ↦
            elim (create_each_adds j d xs 0 _ x (ap (λ w. stored w j) (sym out) ∙ sd)) [
              | inl b ↦ inl (ap (λ w. hide (stored w j)) (sym h) ∙ ap hide b ∙ ap some de)
              | inr (y, o, u) ↦ inr (
                y,
                o,
                subst (λ z. Updated hidden [] y z) de (λ f q. attribute-hide d f q ∙ u f q),
              )
            ]
      ]
