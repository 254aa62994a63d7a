-- ===== src/Repository/Document/OneDocument.antt =====
-- A collection of at most one document, for what the theorems ask of one.
use krossdb.Common.{
  ℕ, String, true, false, Option, none, some, List, [], ◌∷◌, All, ok, raise, Exec, if◌then◌else◌,
  ◌≡◌, refl, ap, sym, ◌∙◌, ◌⊎◌, inl, inr, arith, Bool-cases,
}
use mathlib.Core.Path.{subst}
use krossdb.Common.Dict.{delete, lookup}
use krossdb.Errors.{Exn, error, duplicate_record_error}
use krossdb.Repository.Criteria.{Entity, equals, attribute}
use krossdb.Repository.Criteria.Mongo.{Clause, scalar, operators, Query}
use krossdb.Repository.Criteria.Mongo.Exact.{Semantics, selects}
use krossdb.Repository.Interface.{Changes, Updated}
use krossdb.Repository.Slot.Keeping.{apply-Updated}
use krossdb.Repository.Slot.{apply}
use krossdb.Repository.Document.{Collection}
use krossdb.Repository.Document.Keeping.{hidden, Behaves, attribute-hide}

abbrev pub World : Type 0
World = Option Entity

-- A reading that knows equality, and takes every operator for true.
abbrev pub simple : Semantics Entity
simple = record {
  holds = λ d f c. elim c [ scalar v ↦ equals (attribute d f) v | operators xs ↦ true ];
  holds-merge = λ d f xs ys h. refl;
}

abbrev pub insert : Entity → Exec World Exn Unit
insert x none = (ok tt, some x)
insert x (some d) = (raise (error duplicate_record_error), some d)

abbrev pub change : Query → Changes → Exec World Exn ℕ
change q ch none = (ok 0, none)
change q ch (some d) = if selects simple d q then (ok 1, some (apply ch d)) else (ok 0, some d)

abbrev pub remove : Query → Exec World Exn ℕ
remove q none = (ok 0, none)
remove q (some d) = if selects simple d q then (ok 1, none) else (ok 0, some d)

abbrev pub matching : Query → World → List Entity
matching q none = []
matching q (some d) = if selects simple d q then d ∷ [] else []

abbrev pub head : List Entity → Option Entity
head [] = none
head (d ∷ _) = some d

abbrev pub one_document : Collection World
one_document = record {
  find_one = λ q w. (ok (head (matching q w)), w);
  insert_one = insert;
  update_one = change;
  delete_one = remove;
  delete_many = remove;
  cursor = λ q o l sort w. (ok (matching q w), w);
  count_documents = λ q w. (ok 0, w);
}

pub matching_selected :
    (q : Query) (w : World) → All (λ d. selects simple d q ≡ true) (matching q w)
matching_selected q none = tt
matching_selected q (some d) = elim (Bool-cases (selects simple d q)) [
  | inl b ↦ rw b (b, tt)
  | inr b ↦ rw b tt
]

pub cursor_selected :
    (q : Query) (w : World) (ds : List Entity)
    → (one_document.cursor q 0 0 [] w).0 ≡ ok ds
    → All (λ d. selects simple d q ≡ true) ds
cursor_selected q w ds h =
    let same : matching q w ≡ ds = ground arith in
    subst (λ es. All (λ d. selects simple d q ≡ true) es) same (matching_selected q w)

pub insert_keeps : (x : Entity) (w : World) (d : Entity) → w ≡ some d → (insert x w).1 ≡ some d
insert_keeps x none d h = absurd (ground arith)
insert_keeps x (some y) d h = h

pub insert_adds :
    (x : Entity) (w : World) (d : Entity)
    → (insert x w).1 ≡ some d
    → (w ≡ some d) ⊎ Updated hidden [] x d
unfolding lookup attribute
insert_adds x none d h =
    let same : x ≡ d = ground arith in inr (λ f _. ap (λ y. attribute y f) (sym same))
insert_adds x (some y) d h = inl h

pub change_keeps :
    (q : Query) (ch : Changes) (w : World) (d : Entity)
    → w ≡ some d
    → selects simple d q ≡ false
    → (change q ch w).1 ≡ some d
change_keeps q ch w d h f = rw (h, f) refl

pub change_changes :
    (q : Query) (ch : Changes) (w : World) (d : Entity)
    → (change q ch w).1 ≡ some d
    → (w ≡ some d) ⊎ ((old : Entity) × (selects simple old q ≡ true) × Updated hidden ch old d)
change_changes q ch none d h = inl h
change_changes q ch (some old) d h = elim (Bool-cases (selects simple old q)) [
  | inl b ↦
      let new : apply ch old ≡ d = ground arith in
      inr (old, b, λ f p. ap (λ x. attribute x f) (sym new) ∙ apply-Updated hidden ch old f p)
  | inr b ↦ inl (ground arith)
]

pub remove_keeps :
    (q : Query) (w : World) (d : Entity)
    → w ≡ some d
    → selects simple d q ≡ false
    → (remove q w).1 ≡ some d
remove_keeps q w d h f = rw (h, f) refl

pub remove_adds : (q : Query) (w : World) (d : Entity) → (remove q w).1 ≡ some d → w ≡ some d
remove_adds q none d h = h
remove_adds q (some x) d h = ground arith

pub apart :
    (c : Clause) (d : Entity) (f : String)
    → hidden f ≡ false
    → simple.holds (delete "_id" d) f c ≡ simple.holds d f c
apart (scalar v) d f h = ap (λ x. equals x v) (attribute-hide d f h)
apart (operators xs) d f h = refl

abbrev pub one_document_behaves : Behaves one_document simple
one_document_behaves = record {
  stored = λ w _. w;
  holds_text = λ d f t. refl;
  holds_apart = λ d f c h. apart c d f h;
  find_one_reads = λ q w j. refl;
  count_reads = λ q w j. refl;
  cursor_reads = λ q o l sort w j. refl;
  cursor_selects = λ q o l sort w ds. cursor_selected q w ds;
  insert_keeps = λ x w j. insert_keeps x w;
  insert_adds = λ x w j. insert_adds x w;
  update_keeps = λ q ch w j. change_keeps q ch w;
  update_changes = λ q ch w j. change_changes q ch w;
  delete_one_keeps = λ q w j. remove_keeps q w;
  delete_one_adds = λ q w j. remove_adds q w;
  delete_many_keeps = λ q w j. remove_keeps q w;
  delete_many_adds = λ q w j. remove_adds q w;
}
