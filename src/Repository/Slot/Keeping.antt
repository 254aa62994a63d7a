-- ===== src/Repository/Slot/Keeping.antt =====
-- The repository of at most one entity and the promises of the interface.
use mathlib.Core.Path.{subst}
use krossdb.Common.{
  String, ℕ, Bool, true, false, Option, none, some, List, [], ◌∷◌, ok, all, All, ◌==◌, ◌≡◌, refl,
  ap, sym, ◌∙◌, ◌⊎◌, inl, inr, arith, Bool-cases,
}
use krossdb.Common.Dict.{lookup, lookup-put}
use krossdb.Repository.Criteria.{Specification, Criteria, Entity, attribute, normalize_criteria}
use krossdb.Repository.Interface.{SortSpec, Page, Changes, Promises, or_empty, Updated, OneOf}
use krossdb.Repository.Slot.{
  Slot, free, satisfies, apply, insert, change, remove, selected, inserts, changes, removes, slot,
}

pub apply-Updated :
    (reserved : String → Bool) (ch : Changes) (e : Entity) → Updated reserved ch e (apply ch e)
unfolding lookup attribute
apply-Updated reserved [] e f free = refl
apply-Updated reserved ((k, v) ∷ ch) e f free = elim (Bool-cases (k == f)) [
  | inl h ↦ rw (lookup-put, h) refl
  | inr h ↦ rw (lookup-put, h) (apply-Updated reserved ch e f free)
]

pub insert_keeps : (x : Entity) (s : Slot) (e : Entity) → s ≡ some e → (insert x s).1 ≡ some e
insert_keeps x none e h = absurd (ground arith)
insert_keeps x (some y) e h = h

pub insert_adds :
    (x : Entity) (s : Slot) (e : Entity)
    → (insert x s).1 ≡ some e
    → (s ≡ some e) ⊎ Updated free [] x e
unfolding lookup attribute
insert_adds x none e h =
    let same : x ≡ e = ground arith in inr (λ f _. ap (λ y. attribute y f) (sym same))
insert_adds x (some y) e h = inl h

pub change_keeps :
    (ch : Changes) (extra : Option Specification) (s : Slot) (e : Entity)
    → s ≡ some e
    → all (satisfies e) (or_empty extra) ≡ false
    → (change ch extra s).1 ≡ some e
change_keeps ch extra s e h f = rw (h, f) refl

pub change_changes :
    (ch : Changes) (extra : Option Specification) (s : Slot) (e : Entity)
    → (change ch extra s).1 ≡ some e
    → (s ≡ some e)
      ⊎ ((old : Entity) × (all (satisfies old) (or_empty extra) ≡ true) × Updated free ch old e)
change_changes ch extra none e h = inl h
change_changes ch extra (some old) e h = elim (Bool-cases (all (satisfies old) (or_empty extra))) [
  | inl b ↦
      let new : apply ch old ≡ e = ground arith in
      inr (old, b, λ f q. ap (λ x. attribute x f) (sym new) ∙ apply-Updated free ch old f q)
  | inr b ↦ inl (ground arith)
]

pub remove_keeps :
    (extra : Option Specification) (s : Slot) (e : Entity)
    → s ≡ some e
    → all (satisfies e) (or_empty extra) ≡ false
    → (remove extra s).1 ≡ some e
remove_keeps extra s e h f = rw (h, f) refl

pub remove_adds :
    (extra : Option Specification) (s : Slot) (e : Entity)
    → (remove extra s).1 ≡ some e
    → s ≡ some e
remove_adds extra none e h = h
remove_adds extra (some x) e h = ground arith

selected_satisfy :
    (c : Criteria) (s : Slot)
    → All (λ e. all (satisfies e) (normalize_criteria c) ≡ true) (selected c s)
selected_satisfy c none = tt
selected_satisfy c (some e) = elim (Bool-cases (all (satisfies e) (normalize_criteria c))) [
  | inl b ↦ rw b (b, tt)
  | inr b ↦ rw b tt
]

pub inserts_keeps :
    (xs : List Entity) (s : Slot) (e : Entity) → s ≡ some e → (inserts xs s).1 ≡ some e
inserts_keeps [] s e h = h
inserts_keeps (x ∷ _) s e h = insert_keeps x s e h

pub inserts_adds :
    (xs : List Entity) (s : Slot) (e : Entity)
    → (inserts xs s).1 ≡ some e
    → (s ≡ some e) ⊎ ((x : Entity) × OneOf xs x × Updated free [] x e)
inserts_adds [] s e h = inl h
inserts_adds (x ∷ _) s e h = elim (insert_adds x s e h) [
  | inl a ↦ inl a
  | inr b ↦ inr (x, inl refl, b)
]

pub changes_keeps :
    (us : List (Unit {0} × Changes)) (extra : Option Specification) (s : Slot) (e : Entity)
    → s ≡ some e
    → all (satisfies e) (or_empty extra) ≡ false
    → (changes us extra s).1 ≡ some e
changes_keeps [] extra s e h f = h
changes_keeps (u ∷ _) extra s e h f = change_keeps u.1 extra s e h f

pub changes-changes :
    (us : List (Unit {0} × Changes)) (extra : Option Specification) (s : Slot) (e : Entity)
    → (changes us extra s).1 ≡ some e
    → (s ≡ some e)
      ⊎ ((u : Unit {0} × Changes) × OneOf us u
          × (old : Entity) × (all (satisfies old) (or_empty extra) ≡ true)
          × Updated free u.1 old e)
changes-changes [] extra s e h = inl h
changes-changes (u ∷ _) extra s e h = elim (change_changes u.1 extra s e h) [
  | inl a ↦ inl a
  | inr (old, b, d) ↦ inr (u, inl refl, old, b, d)
]

pub removes_keeps :
    (is : List (Unit {0})) (extra : Option Specification) (s : Slot) (e : Entity)
    → s ≡ some e
    → all (satisfies e) (or_empty extra) ≡ false
    → (removes is extra s).1 ≡ some e
removes_keeps [] extra s e h f = h
removes_keeps (_ ∷ _) extra s e h f = remove_keeps extra s e h f

pub removes_adds :
    (is : List (Unit {0})) (extra : Option Specification) (s : Slot) (e : Entity)
    → (removes is extra s).1 ≡ some e
    → s ≡ some e
removes_adds [] extra s e h = h
removes_adds (_ ∷ _) extra s e h = remove_adds extra s e h

pub found_satisfy :
    (c : Criteria) (l o : ℕ) (sort : List SortSpec) (s : Slot) (page : Page)
    → (slot.find c l o sort s).0 ≡ ok page
    → All (λ e. all (satisfies e) (normalize_criteria c) ≡ true) page.items
found_satisfy c l o sort s page h =
    let items : selected c s ≡ page.items = ground arith in
    subst (λ es. All (λ e. all (satisfies e) (normalize_criteria c) ≡ true) es) items
      (selected_satisfy c s)

abbrev pub slot_keeps : Promises slot
slot_keeps = record {
  view = λ s _. s;
  reserved = free;
  satisfies = satisfies;
  satisfies-eq = λ e f v _. refl;
  get_reads = λ i s j. refl;
  find_reads = λ c l o sort s j. refl;
  find_selects = found_satisfy;
  count_reads = λ c s j. refl;
  create_keeps = λ x s j e. insert_keeps x s e;
  create_adds = λ x s j e. insert_adds x s e;
  bulk_create_keeps = λ xs s j e. inserts_keeps xs s e;
  bulk_create_adds = λ xs s j e. inserts_adds xs s e;
  update_keeps = λ i ch extra s j e. change_keeps ch extra s e;
  update_changes = λ i ch extra s j e. change_changes ch extra s e;
  bulk_update_keeps = λ us extra s j e. changes_keeps us extra s e;
  bulk_update_changes = λ us extra s j e. changes-changes us extra s e;
  delete_keeps = λ i extra s j e. remove_keeps extra s e;
  delete_adds = λ i extra s j e. remove_adds extra s e;
  bulk_delete_keeps = λ is extra s j e. removes_keeps is extra s e;
  bulk_delete_adds = λ is extra s j e. removes_adds is extra s e;
}
