-- ===== src/Repository/Vector/Scoped.antt =====
-- repositories/vector_repository.py: which points the scoped writes reach.
use mathlib.Core.Path.{subst}
use krossdb.Common.{
  continue-then, ℕ, ◌+◌, String, Bool, false, Option, none, some, List, [], ◌∷◌, all, ok, raise,
  if◌then◌else◌, ◌≡◌, sym, ◌∙◌, arith,
}
use krossdb.Errors.{error, record_not_found_error}
use krossdb.Adapter.Qdrant.{acquire}
use krossdb.Adapter.Single.{Node, on_world}
use krossdb.Repository.Criteria.{Entity, Specification}
use krossdb.Repository.Criteria.Qdrant.{Condition, points_selector, asked}
use krossdb.Repository.Bulk.{collect-then}
use krossdb.Repository.Interface.{Changes, BulkResult, or_empty}
use krossdb.Repository.Point.{Point, QdrantRepository}
use krossdb.Repository.Vector.{
  translated, misses, get_by_id, checked, update, delete_existing, delete_by_id, update_each,
  bulk_update, owned, owned_selector, delete_owned, bulk_delete,
}
use krossdb.Repository.Vector.Keeping.{
  Behaves, points_selector-skips, owned_selector-skips, after_acquire, owned-state, Keeps,
  get-Keeps, write-Keeps,
}

module _ {W : Type 0} (self : QdrantRepository W) (holds : Point → Condition → Bool)
    (behaves : Behaves self.client holds) where
  open self use {clock, registry, client}
  open behaves use {stored}

  module _ (extra : Option Specification) (j : String) (p : Point)
      (skipped : all (asked holds p) (or_empty extra) ≡ false) where
    update-Keeps :
        (i : String) (ch : Changes) (s : Node W)
        → Keeps self holds behaves j p s
        → Keeps self holds behaves j p (update self i ch extra s).1
    unfolding update
    update-Keeps i ch s v =
        let w =
          acquire clock registry
            (translated self "update" (on_world (client.set_payload ch (points_selector i extra))))
            s in
        let written =
          write-Keeps self holds behaves "update" (client.set_payload ch (points_selector i extra))
            j p s v
            (λ w h.
              behaves.set_payload_keeps ch _ w j p h
                (points_selector-skips holds p i extra skipped)) in
        continue-then (Keeps self holds behaves j p) w.0 _ w.1 written (λ _.
          let g = get_by_id self i w.1 in
          let got = get-Keeps self holds behaves i j p w.1 written in
          continue-then (Keeps self holds behaves j p) g.0 _ g.1 got (λ o. passed o g.1 got))
      where
        passed :
            (o : Option Entity) (t : Node W)
            → Keeps self holds behaves j p t
            → Keeps self holds behaves j p (checked self extra o t).1
        passed none t k = k
        passed (some e) t k =
            continue-then (Keeps self holds behaves j p) (misses e extra) _ t k (λ missed.
              continue-then (Keeps self holds behaves j p)
                (if missed then raise (error record_not_found_error) else ok tt) _ t k (λ _. k))

    update_each-Keeps :
        (us : List (String × Changes)) (index : ℕ) (b : BulkResult) (s : Node W)
        → Keeps self holds behaves j p s
        → Keeps self holds behaves j p (update_each self extra index us b s).1
    unfolding update_each
    update_each-Keeps [] index b s v = v
    update_each-Keeps ((i, ch) ∷ us) index b s v =
        let u = update self i ch extra s in
        let v' = update-Keeps i ch s v in
        collect-then (Keeps self holds behaves j p) index b (λ e. e) u
          (update_each self extra (index + 1) us) v'
          (λ c. update_each-Keeps us (index + 1) c u.1 v')

    delete-Keeps :
        (i : String) (s : Node W)
        → Keeps self holds behaves j p s
        → Keeps self holds behaves j p (delete_by_id self i extra s).1
    unfolding delete_by_id
    delete-Keeps i s v =
        let g = get_by_id self i s in
        let got = get-Keeps self holds behaves i j p s v in
        continue-then (Keeps self holds behaves j p) g.0 _ g.1 got (λ o. deleted o g.1 got)
      where
        deleted :
            (o : Option Entity) (t : Node W)
            → Keeps self holds behaves j p t
            → Keeps self holds behaves j p (delete_existing self i extra o t).1
        deleted none t k = k
        deleted (some e) t k =
            let w =
              acquire clock registry
                (translated self "delete"
                  (on_world (client.delete_points (points_selector i extra))))
                t in
            let written =
              write-Keeps self holds behaves "delete"
                (client.delete_points (points_selector i extra)) j p t k
                (λ w h.
                  behaves.delete_keeps _ w j p h (points_selector-skips holds p i extra skipped)) in
            continue-then (Keeps self holds behaves j p) w.0 _ w.1 written (λ _.
              let g = get_by_id self i w.1 in
              let got = get-Keeps self holds behaves i j p w.1 written in
              continue-then (Keeps self holds behaves j p) g.0 _ g.1 got (λ _. got))

  bulk_delete-Keeps :
      (is : List String) (extra : Option Specification) (j : String) (p : Point) (s : Node W)
      → all (asked holds p) (or_empty extra) ≡ false
      → Keeps self holds behaves j p s
      → Keeps self holds behaves j p (bulk_delete self is extra s).1
  unfolding bulk_delete
  bulk_delete-Keeps [] extra j p s skipped v = v
  bulk_delete-Keeps (i ∷ is) none j p s skipped v = absurd (ground arith)
  bulk_delete-Keeps (i ∷ is) (some []) j p s skipped v = absurd (ground arith)
  bulk_delete-Keeps (i ∷ is) (some (f ∷ fs)) j p s skipped v =
      after_acquire self "bulk_delete" _ s (λ w. stored w j ≡ some p) v
        (λ x h.
          let r = on_world (client.retrieve (i ∷ is) false) x in
          let read : Keeps self holds behaves j p r.1 =
            behaves.retrieve_reads (i ∷ is) false x.world j ∙ h in
          continue-then (Keeps self holds behaves j p) r.0 _ r.1 read (λ points.
            let o = owned self (f ∷ fs) points r.1 in
            let found =
              subst (Keeps self holds behaves j p) (sym (owned-state self (f ∷ fs) points r.1))
                read in
            continue-then (Keeps self holds behaves j p) o.0 _ o.1 found
              (λ owned_ids. deleted owned_ids o.1 found)))
    where
      deleted :
          (os : List String) (t : Node W)
          → Keeps self holds behaves j p t
          → Keeps self holds behaves j p (delete_owned self (f ∷ fs) os t).1
      deleted [] t k = k
      deleted (o ∷ os) t k =
          let d = on_world (client.delete_points (owned_selector (o ∷ os) (f ∷ fs))) t in
          let kept =
            behaves.delete_keeps _ t.world j p k
              (owned_selector-skips holds p (o ∷ os) (f ∷ fs) skipped) in
          continue-then (Keeps self holds behaves j p) d.0 _ d.1 kept (λ _. kept)

  -- A point that does not have what the extra filters ask is stored, as it was, after every
  -- update, deletion, bulk update and bulk deletion with those filters, whatever the ids and
  -- the changes and however the call ends.
  pub scoped_writes_keep :
      (extra : Option Specification) (j : String) (p : Point) (s : Node W)
      → all (asked holds p) (or_empty extra) ≡ false
      → stored s.world j ≡ some p
      → ((i : String) (ch : Changes) → stored (update self i ch extra s).1.world j ≡ some p)
        × ((i : String) → stored (delete_by_id self i extra s).1.world j ≡ some p)
        × ((us : List (String × Changes)) → stored (bulk_update self us extra s).1.world j ≡ some p)
        × ((is : List String) → stored (bulk_delete self is extra s).1.world j ≡ some p)
  unfolding bulk_update
  scoped_writes_keep extra j p s skipped v = (
    λ i ch. update-Keeps extra j p skipped i ch s v,
    λ i. delete-Keeps extra j p skipped i s v,
    λ us. update_each-Keeps extra j p skipped us 0 _ s v,
    λ is. bulk_delete-Keeps is extra j p s skipped v,
  )
