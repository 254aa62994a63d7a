-- ===== src/Repository/Document/Keeping.antt =====
-- repositories/document_repository.py: what the theorems ask of a MongoDB collection, and its
-- documents without the key that MongoDB adds.
use krossdb.Common.{
  ℕ, String, Bool, true, false, ◌||◌, Option, none, some, List, [], ◌∷◌, all, All, ok, ◌==◌, ◌≡◌,
  refl, sym, ap, ◌∙◌, ◌⊎◌, inl, inr, arith, Bool-cases, eq_iff,
}
use krossdb.Common.Dict.{delete, lookup-delete, lookup}
use krossdb.Repository.Criteria.{
  FieldFilter, Criteria, Entity, specification, one, text, eq, value_eq, attribute,
  normalize_criteria,
}
use krossdb.Repository.Criteria.Mongo.{Clause, scalar, clause_for_filter, Query, criteria_to_query}
use krossdb.Repository.Criteria.Mongo.Exact.{
  Semantics, selects, clause_holds, criteria_to_query_exact,
}
use krossdb.Repository.Interface.{SortSpec, Changes, Updated, override}
use krossdb.Repository.Document.{Collection}

-- MongoDB's own key, which the repository drops.
abbrev pub hidden : String → Bool
hidden field = field == "_id"

-- What the theorems use of the collection and of its unique index on the id: `stored` finds a
-- document by its id.
pub record Behaves {W : Type 0} (collection : Collection W) (mongo : Semantics Entity)
    : Type 0 where
  pub stored : W → String → Option Entity
  pub holds_text :
      (d : Entity) (field t : String)
      → mongo.holds d field (scalar (one (text t))) ≡ value_eq (attribute d field) (text t)
  -- A clause reads its own field.
  pub holds_apart :
      (d : Entity) (field : String) (c : Clause)
      → hidden field ≡ false
      → mongo.holds (delete "_id" d) field c ≡ mongo.holds d field c
  pub find_one_reads :
      (q : Query) (w : W) (j : String) → stored (collection.find_one q w).1 j ≡ stored w j
  pub count_reads :
      (q : Query) (w : W) (j : String) → stored (collection.count_documents q w).1 j ≡ stored w j
  pub cursor_reads :
      (q : Query) (o l : ℕ) (sort : List SortSpec) (w : W) (j : String)
      → stored (collection.cursor q o l sort w).1 j ≡ stored w j
  pub cursor_selects :
      (q : Query) (o l : ℕ) (sort : List SortSpec) (w : W) (ds : List Entity)
      → (collection.cursor q o l sort w).0 ≡ ok ds
      → All (λ d. selects mongo d q ≡ true) ds
  pub insert_keeps :
      (x : Entity) (w : W) (j : String) (d : Entity)
      → stored w j ≡ some d
      → stored (collection.insert_one x w).1 j ≡ some d
  pub insert_adds :
      (x : Entity) (w : W) (j : String) (d : Entity)
      → stored (collection.insert_one x w).1 j ≡ some d
      → (stored w j ≡ some d) ⊎ Updated hidden [] x d
  pub update_keeps :
      (q : Query) (ch : Changes) (w : W) (j : String) (d : Entity)
      → stored w j ≡ some d
      → selects mongo d q ≡ false
      → stored (collection.update_one q ch w).1 j ≡ some d
  pub update_changes :
      (q : Query) (ch : Changes) (w : W) (j : String) (d : Entity)
      → stored (collection.update_one q ch w).1 j ≡ some d
      → (stored w j ≡ some d)
        ⊎ ((old : Entity) × (selects mongo old q ≡ true) × Updated hidden ch old d)
  pub delete_one_keeps :
      (q : Query) (w : W) (j : String) (d : Entity)
      → stored w j ≡ some d
      → selects mongo d q ≡ false
      → stored (collection.delete_one q w).1 j ≡ some d
  pub delete_one_adds :
      (q : Query) (w : W) (j : String) (d : Entity)
      → stored (collection.delete_one q w).1 j ≡ some d
      → stored w j ≡ some d
  pub delete_many_keeps :
      (q : Query) (w : W) (j : String) (d : Entity)
      → stored w j ≡ some d
      → selects mongo d q ≡ false
      → stored (collection.delete_many q w).1 j ≡ some d
  pub delete_many_adds :
      (q : Query) (w : W) (j : String) (d : Entity)
      → stored (collection.delete_many q w).1 j ≡ some d
      → stored w j ≡ some d

-- The entity of a stored document.
abbrev pub hide : Option Entity → Option Entity
hide none = none
hide (some d) = some (delete "_id" d)

pub hide-some :
    (o : Option Entity) (e : Entity)
    → hide o ≡ some e
    → (d : Entity) × (o ≡ some d) × (delete "_id" d ≡ e)
hide-some none e h = absurd (ground arith)
hide-some (some d) e h = (d, refl, ground arith)

pub attribute-hide :
    (d : Entity) (field : String)
    → hidden field ≡ false
    → attribute (delete "_id" d) field ≡ attribute d field
unfolding attribute
attribute-hide d field h =
    ground (arith, lookup-delete "_id" field d, eq_iff "_id" field, eq_iff field "_id")

-- An update of a document is one of its entity.
pub Updated-hide :
    (ch : Changes) (old new : Entity)
    → Updated hidden ch old new
    → Updated hidden ch (delete "_id" old) (delete "_id" new)
Updated-hide ch old new u field h =
    attribute-hide new field h
    ∙ u field h
    ∙ ap (λ v. override (lookup field ch) v) (sym (attribute-hide old field h))

module _ {W : Type 0} (collection : Collection W) (mongo : Semantics Entity)
    (behaves : Behaves collection mongo) where
  abbrev pub satisfies : Entity → FieldFilter → Bool
  satisfies e f = hidden f.field || clause_holds mongo e f

  pub satisfies-text :
      (e : Entity) (field t : String)
      → hidden field ≡ false
      → satisfies e (record { field = field; operator = eq; value = one (text t) })
        ≡ value_eq (attribute e field) (text t)
  unfolding clause_for_filter
  satisfies-text e field t h = rw h (behaves.holds_text e field t)

  all-satisfies :
      (d : Entity) (fs : List FieldFilter)
      → all (clause_holds mongo d) fs ≡ true
      → all (satisfies (delete "_id" d)) fs ≡ true
  all-satisfies d [] h = refl
  all-satisfies d (f ∷ fs) h = elim (Bool-cases (hidden f.field)) [
    | inl x ↦ ground (arith, all-satisfies d fs)
    | inr x ↦
        ground (arith, all-satisfies d fs, behaves.holds_apart d f.field (clause_for_filter f) x)
  ]

  -- What a query with extra filters selects satisfies them, and what does not is not selected.
  pub selected-satisfies :
      (d : Entity) (g : FieldFilter) (fs : List FieldFilter)
      → selects mongo d (criteria_to_query (specification (g ∷ fs))) ≡ true
      → all (satisfies (delete "_id" d)) fs ≡ true
  unfolding normalize_criteria
  selected-satisfies d g fs h =
      all-satisfies d fs (ground (arith, criteria_to_query_exact mongo d (specification (g ∷ fs))))

  pub unsatisfied :
      (d e : Entity) (g : FieldFilter) (fs : List FieldFilter)
      → delete "_id" d ≡ e
      → all (satisfies e) fs ≡ false
      → selects mongo d (criteria_to_query (specification (g ∷ fs))) ≡ false
  unsatisfied d e g fs p h =
      elim (Bool-cases (selects mongo d (criteria_to_query (specification (g ∷ fs))))) [
        | inl s ↦
            let all_of : all (satisfies e) fs ≡ true =
              ap (λ x. all (satisfies x) fs) (sym p) ∙ selected-satisfies d g fs s in
            absurd (ground arith)
        | inr s ↦ s
      ]

  pub found-satisfies :
      (criteria : Criteria) (ds : List Entity)
      → All (λ d. selects mongo d (criteria_to_query criteria) ≡ true) ds
      → All (λ d. all (satisfies (delete "_id" d)) (normalize_criteria criteria) ≡ true) ds
  found-satisfies criteria [] h = tt
  found-satisfies criteria (d ∷ ds) (h, hs) = (
    all-satisfies d (normalize_criteria criteria)
        (sym (criteria_to_query_exact mongo d criteria) ∙ h),
    found-satisfies criteria ds hs,
  )
