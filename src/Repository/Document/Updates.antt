-- ===== src/Repository/Document/Updates.antt =====
-- repositories/document_repository.py: what updates leave of the stored entities.
use mathlib.Core.Path.{subst}
use krossdb.Common.{
  ℕ, ◌+◌, String, Bool, true, false, Option, some, List, [], ◌∷◌, all, Result, ok, raise, Exec, ◌≡◌,
  refl, sym, ap, ◌∙◌, ◌⊎◌, inl, inr, arith,
}
use krossdb.Common.Dict.{delete}
use krossdb.Errors.{Exn}
use krossdb.Errors.Mapper.{on_error}
use krossdb.Adapter.Mongo.{acquire}
use krossdb.Adapter.Single.{Node}
use krossdb.Repository.Criteria.{Entity, Specification}
use krossdb.Repository.Criteria.Mongo.Exact.{Semantics}
use krossdb.Repository.Bulk.{collect-then}
use krossdb.Repository.Interface.{BulkResult, Changes, Updated, OneOf, or_empty}
use krossdb.Repository.Document.{
  MongoDbRepository, translated, update, id_and_extra_query, update_each,
}
use krossdb.Repository.Document.Keeping.{
  hidden, Behaves, hide, hide-some, Updated-hide, satisfies, unsatisfied, selected-satisfies,
}
use krossdb.Repository.Document.Views.{view, acquired, after_acquire, update-view}

pub on_error-ok :
    {A : Type 0} (f : Exn → Exn) (r : Result Exn A) (a : A) → on_error f r ≡ ok a → r ≡ ok a
unfolding on_error
on_error-ok f (ok x) a h = h
on_error-ok f (raise e) a h = absurd (ground arith)

module _ {W : Type 0} (self : MongoDbRepository W) (mongo : Semantics Entity)
    (behaves : Behaves self.collection mongo) where
  open self use {clock, registry, collection, tenacity}
  open behaves use {stored}

  abbrev seen : Node W → String → Option Entity
  seen = view self mongo behaves

  abbrev sat : Entity → Option Specification → Bool
  sat e extra = all (satisfies collection mongo behaves e) (or_empty extra)

  -- A write whose call keeps what its query does not select.
  pub kept :
      {A : Type 0} (op : String) (call : Exec W Exn A) (s : Node W) (j : String) (e : Entity)
      → seen s j ≡ some e
      → ((d : Entity)
          → delete "_id" d ≡ e
          → stored s.world j ≡ some d
          → stored (call s.world).1 j ≡ some d)
      → seen (acquire clock registry (translated self op call) s).1 j ≡ some e
  kept op call s j e v made =
      let (d, sd, de) = hide-some (stored s.world j) e v in
      ap hide
        (after_acquire self mongo behaves op call s (λ w. stored w j ≡ some d) sd (made d de sd))
      ∙ ap some de

  -- What is stored after a write was stored before it, or its call stored it.
  pub came :
      {A : Type 0} (op : String) (call : Exec W Exn A) (s : Node W) (j : String) (e : Entity)
      (Q : Type 0)
      → seen (acquire clock registry (translated self op call) s).1 j ≡ some e
      → ((d : Entity)
          → delete "_id" d ≡ e
          → stored (call s.world).1 j ≡ some d
          → (stored s.world j ≡ some d) ⊎ Q)
      → (seen s j ≡ some e) ⊎ Q
  came op call s j e Q v made =
      let after = (acquire clock registry (translated self op call) s).1.world in
      let (d, sd, de) = hide-some (stored after j) e v in
      elim (acquired self mongo behaves op call s) [
        | inl h ↦ inl (ap hide (ap (λ w. stored w j) (sym h) ∙ sd) ∙ ap some de)
        | inr h ↦ elim (made d de (ap (λ w. stored w j) (sym h) ∙ sd)) [
          | inl b ↦ inl (ap hide b ∙ ap some de)
          | inr q ↦ inr q
        ]
      ]

  pub update_keeps :
      (i : String) (ch : Changes) (extra : Option Specification) (s : Node W) (j : String)
      (e : Entity)
      → seen s j ≡ some e
      → sat e extra ≡ false
      → seen (update self i ch extra s).1 j ≡ some e
  update_keeps i ch extra s j e v f =
      update-view self mongo behaves i ch extra s j
      ∙ kept "update" _ s j e v (λ d de sd.
        behaves.update_keeps _ ch s.world j d sd
          (unsatisfied collection mongo behaves d e _ (or_empty extra) de f))

  pub update_changes :
      (i : String) (ch : Changes) (extra : Option Specification) (s : Node W) (j : String)
      (e : Entity)
      → seen (update self i ch extra s).1 j ≡ some e
      → (seen s j ≡ some e) ⊎ ((old : Entity) × (sat old extra ≡ true) × Updated hidden ch old e)
  update_changes i ch extra s j e v =
      came "update" (collection.update_one (id_and_extra_query self i extra) ch) s j e
        ((old : Entity) × (sat old extra ≡ true) × Updated hidden ch old e)
        (sym (update-view self mongo behaves i ch extra s j) ∙ v)
        (λ d de sd. elim (behaves.update_changes _ ch s.world j d sd) [
          | inl b ↦ inl b
          | inr (old, sel, u) ↦ inr (
            delete "_id" old,
            selected-satisfies collection mongo behaves old _ (or_empty extra) sel,
            subst (λ x. Updated hidden ch (delete "_id" old) x) de (Updated-hide ch old d u),
          )
        ])

  pub update_each_keeps :
      (extra : Option Specification) (j : String) (e : Entity)
      → sat e extra ≡ false
      → (us : List (String × Changes)) (index : ℕ) (b : BulkResult) (s : Node W) → seen s j ≡ some e
      → seen (update_each self extra index us b s).1 j ≡ some e
  unfolding update_each
  update_each_keeps extra j e f [] index b s v = v
  update_each_keeps extra j e f ((i, ch) ∷ us) index b s v =
      let v' = update_keeps i ch extra s j e v f in
      collect-then (λ x. seen x j ≡ some e) index b (λ x. x) (update self i ch extra s)
        (update_each self extra (index + 1) us) v'
        (λ b'. update_each_keeps extra j e f us (index + 1) b' (update self i ch extra s).1 v')

  abbrev Came : Option Specification → List (String × Changes) → Entity → Type 0
  Came extra us e =
      (u : String × Changes) × OneOf us u
      × (old : Entity) × (sat old extra ≡ true)
      × Updated hidden u.1 old e

  Came-first :
      (extra : Option Specification) (i : String) (ch : Changes) (us : List (String × Changes))
      (s : Node W) (j : String) (e : Entity)
      → seen (update self i ch extra s).1 j ≡ some e
      → (seen s j ≡ some e) ⊎ Came extra ((i, ch) ∷ us) e
  Came-first extra i ch us s j e v = elim (update_changes i ch extra s j e v) [
    | inl h ↦ inl h
    | inr (old, f, u) ↦ inr ((i, ch), inl refl, old, f, u)
  ]

  pub update_each_changes :
      (extra : Option Specification) (j : String) (e : Entity)
      → (us : List (String × Changes)) (index : ℕ) (b : BulkResult) (s : Node W)
      → seen (update_each self extra index us b s).1 j ≡ some e
      → (seen s j ≡ some e) ⊎ Came extra us e
  unfolding update_each
  update_each_changes extra j e [] index b s v = inl v
  update_each_changes extra j e ((i, ch) ∷ us) index b s v =
      collect-then (λ x. seen x j ≡ some e → (seen s j ≡ some e) ⊎ Came extra ((i, ch) ∷ us) e)
        index b (λ x. x) (update self i ch extra s) (update_each self extra (index + 1) us)
        (Came-first extra i ch us s j e)
        (λ b' w.
          elim (update_each_changes extra j e us (index + 1) b' (update self i ch extra s).1 w) [
            | inl h ↦ Came-first extra i ch us s j e h
            | inr (u, o, old, f, p) ↦ inr (u, inr o, old, f, p)
          ])
        v
