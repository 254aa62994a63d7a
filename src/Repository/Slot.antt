-- ===== src/Repository/Slot.antt =====
-- A repository of at most one entity, for the promises of the interface.
pub mod Keeping
use mathlib.Core.Path.{subst}
use krossdb.Common.{
  String, ℕ, Bool, true, false, Option, none, some, List, [], ◌∷◌, ok, raise, Exec, all, All, ◌==◌,
  if◌then◌else◌, ◌≡◌, refl, ap, sym, ◌∙◌, ◌⊎◌, inl, inr, arith, Bool-cases, length,
}
use krossdb.Common.Dict.{lookup, put, lookup-put}
use krossdb.Errors.{Exn, error, duplicate_record_error, record_not_found_error}
use krossdb.Repository.Criteria.{
  FieldFilter, Specification, Criteria, Entity, equals, attribute, normalize_criteria,
}
use krossdb.Repository.Interface.{
  SortSpec, Page, BulkResult, Changes, Repository, Promises, or_empty, Updated, OneOf,
}

abbrev pub Slot : Type 0
Slot = Option Entity

-- No name is kept back.
abbrev pub free : String → Bool
free _ = false

abbrev pub satisfies : Entity → FieldFilter → Bool
satisfies e f = equals (attribute e f.field) f.value

abbrev pub apply : Changes → Entity → Entity
apply [] e = e
apply ((k, v) ∷ ch) e = put k v (apply ch e)

abbrev pub insert : Entity → Exec Slot Exn Entity
insert x none = (ok x, some x)
insert x (some e) = (raise (error duplicate_record_error), some e)

abbrev pub change : Changes → Option Specification → Exec Slot Exn Entity
change ch extra none = (raise (error record_not_found_error), none)
change ch extra (some e) =
    if all (satisfies e) (or_empty extra)
    then (ok (apply ch e), some (apply ch e))
    else (raise (error record_not_found_error), some e)

abbrev pub remove : Option Specification → Exec Slot Exn Bool
remove extra none = (ok false, none)
remove extra (some e) =
    if all (satisfies e) (or_empty extra) then (ok true, none) else (ok false, some e)

abbrev pub selected : Criteria → Slot → List Entity
selected c none = []
selected c (some e) = if all (satisfies e) (normalize_criteria c) then e ∷ [] else []

abbrev pub nothing : BulkResult
nothing = record { succeeded = []; failed = [] }

abbrev pub inserts : List Entity → Exec Slot Exn BulkResult
inserts [] s = (ok nothing, s)
inserts (x ∷ _) s = (ok nothing, (insert x s).1)

-- An update of a dict with one key has one entry.
abbrev pub changes : List (Unit {0} × Changes) → Option Specification → Exec Slot Exn BulkResult
changes [] extra s = (ok nothing, s)
changes (u ∷ _) extra s = (ok nothing, (change u.1 extra s).1)

abbrev pub removes : List (Unit {0}) → Option Specification → Exec Slot Exn ℕ
removes [] extra s = (ok 0, s)
removes (_ ∷ _) extra s = (ok 1, (remove extra s).1)

abbrev pub slot : Repository Slot Unit
slot = record {
  get_by_id = λ _ s. (ok s, s);
  create = insert;
  update = λ _. change;
  delete = λ _. remove;
  find =
      λ c l o _ s. (ok (record { items = selected c s; total = none; limit = l; offset = o }), s);
  count = λ c s. (ok (length (selected c s)), s);
  bulk_create = inserts;
  bulk_update = changes;
  bulk_delete = removes;
}
