-- ===== src/Repository/Vector/Keeping.antt =====
-- repositories/vector_repository.py: what reads and single writes leave of a stored point.
use mathlib.Core.Path.{subst}
use krossdb.Common.{
  continue-view, continue-then, String, Bool, true, false, Option, none, some, List, [], ◌∷◌, all,
  Exec, ◌≡◌, refl, sym, ◌∙◌, inl, inr, arith,
}
use krossdb.Errors.{Exn}
use krossdb.Errors.Mapper.{translate_exceptions}
use krossdb.Adapter.Qdrant.{acquire}
use krossdb.Adapter.Single.{Node, on_world, run_read}
use krossdb.Adapter.Single.Reads.{acquire_if-cases, run_read-view}
use krossdb.Repository.Criteria.{FieldFilter, Specification, specification, matches_criteria}
use krossdb.Repository.Criteria.Qdrant.{
  Condition, Selector, has_id, points_selector, selects, asked, points_selector_exact,
  selects-add_all,
}
use krossdb.Repository.Interface.{Changes, or_empty}
use krossdb.Repository.Point.{
  Point, Client, QdrantRepository, first_point, model_or_none, point_to_model,
}
use krossdb.Repository.Vector.{translated, read_one, get_by_id, owned, owned_selector}

-- Qdrant's documented behaviour: reads store nothing, and a selector names the points that a
-- write changes. `stored` finds a point by its id.
pub record Behaves {W : Type 0} (client : Client W) (holds : Point → Condition → Bool)
    : Type 0 where
  pub stored : W → String → Option Point
  pub retrieve_reads :
      (is : List String) (vectors : Bool) (w : W) (j : String)
      → stored (client.retrieve is vectors w).1 j ≡ stored w j
  pub set_payload_keeps :
      (ch : Changes) (sel : Selector) (w : W) (j : String) (p : Point)
      → stored w j ≡ some p
      → selects holds p sel ≡ false
      → stored (client.set_payload ch sel w).1 j ≡ some p
  pub delete_keeps :
      (sel : Selector) (w : W) (j : String) (p : Point)
      → stored w j ≡ some p
      → selects holds p sel ≡ false
      → stored (client.delete_points sel w).1 j ≡ some p

pub points_selector-skips :
    (holds : Point → Condition → Bool) (p : Point) (i : String) (extra : Option Specification)
    → all (asked holds p) (or_empty extra) ≡ false
    → selects holds p (points_selector i extra) ≡ false
points_selector-skips holds p i none h = absurd (ground arith)
points_selector-skips holds p i (some fs) h =
    ground (arith, points_selector_exact holds p i (some fs))

pub owned_selector-skips :
    (holds : Point → Condition → Bool) (p : Point) (is : List String) (fs : List FieldFilter)
    → all (asked holds p) fs ≡ false
    → selects holds p (owned_selector is fs) ≡ false
unfolding owned_selector
owned_selector-skips holds p is fs h =
    ground (arith, selects-add_all holds p fs (record { must = has_id is ∷ []; must_not = [] }))

module _ {W : Type 0} (self : QdrantRepository W) where
  open self use {clock, registry, client, tenacity}

  -- A block under `acquire` does not run, or runs once from the same world.
  pub after_acquire :
      {A : Type 0} (op : String) (block : Exec (Node W) Exn A) (s : Node W) (P : W → Type 0)
      → P s.world
      → ((x : Node W) → P x.world → P (block x).1.world)
      → P (acquire clock registry (translated self op block) s).1.world
  unfolding acquire translate_exceptions
  after_acquire op block s P before made =
      elim (acquire_if-cases clock registry s.client
        (("adapter", "qdrant") ∷ ("connection", s.config.name) ∷ []) (translated self op block) s) [
          | inl (e, r, _, h) ↦ subst P (sym h) before
          | inr (x, h, out, r) ↦ subst P (sym out) (made x (subst P (sym h) before))
        ]

  point_to_model-state : (p : Point) (s : Node W) → (point_to_model self p s).1 ≡ s
  unfolding point_to_model
  point_to_model-state p s = continue-view (λ x. x) (self.validate _) _ s (λ _. refl)

  pub owned-state :
      (fs : List FieldFilter) (ps : List Point) (s : Node W) → (owned self fs ps s).1 ≡ s
  unfolding owned
  owned-state fs [] s = refl
  owned-state fs (p ∷ ps) s =
      let r = point_to_model self p s in
      continue-view (λ x. x) r.0 _ r.1
        (λ m.
          continue-view (λ x. x) (matches_criteria m (specification fs)) _ r.1
            (λ mine.
              let o = owned self fs ps r.1 in
              continue-view (λ x. x) o.0 _ o.1 (λ _. refl) ∙ owned-state fs ps r.1))
      ∙ point_to_model-state p s

  module _ (holds : Point → Condition → Bool) (behaves : Behaves client holds) where
    open behaves use {stored}

    abbrev pub Keeps : String → Point → Node W → Type 0
    Keeps j p s = stored s.world j ≡ some p

    pub get-Keeps :
        (i j : String) (p : Point) (s : Node W) → Keeps j p s → Keeps j p (get_by_id self i s).1
    unfolding get_by_id point_to_model
    get-Keeps i j p s v =
        let read = run_read (tenacity (List Point)) (read_one self i) s in
        continue-then (Keeps j p) read.0 _ read.1 kept (λ ps. modelled (first_point ps) read.1 kept)
      where
        kept : stored (run_read (tenacity (List Point)) (read_one self i) s).1.world j ≡ some p
        kept =
            run_read-view (tenacity (List Point)) (λ w. stored w j) (read_one self i)
              (λ t.
                after_acquire "get_by_id" (on_world (client.retrieve (i ∷ []) true)) t
                  (λ w. stored w j ≡ stored t.world j) refl
                  (λ x h. behaves.retrieve_reads (i ∷ []) true x.world j ∙ h))
              s
            ∙ v

        modelled :
            (o : Option Point) (t : Node W) → Keeps j p t → Keeps j p (model_or_none self o t).1
        modelled none t k = k
        modelled (some q) t k =
            let r = point_to_model self q t in
            continue-then (Keeps j p) r.0 _ r.1
              (subst (Keeps j p) (sym (point_to_model-state q t)) k)
              (λ _. subst (Keeps j p) (sym (point_to_model-state q t)) k)

    -- A write at a selector that passes a point by.
    pub write-Keeps :
        (op : String) (write : Exec W Exn Unit) (j : String) (p : Point) (s : Node W)
        → Keeps j p s
        → ((w : W) → stored w j ≡ some p → stored (write w).1 j ≡ some p)
        → Keeps j p (acquire clock registry (translated self op (on_world write)) s).1
    write-Keeps op write j p s v skips =
        after_acquire op (on_world write) s (λ w. stored w j ≡ some p) v (λ x h. skips x.world h)
