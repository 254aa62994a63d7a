-- ===== src/Repository/Interface.antt =====
-- interfaces/repository.py: pages, bulk results, and the contract of a repository as a record of
-- operations over a state, with what its documentation promises of them. An entity is a dict of
-- its attributes.
use krossdb.Common.{
  ℕ, ◌+◌, String, Bool, true, false, Option, none, some, List, [], ◌∷◌, ok, Exec, ◌>>=◌, pure,
  throw, length, ltb, all, All, ◌≡◌, ◌⊎◌,
}
use krossdb.Common.Dict.{Dict, lookup}
use krossdb.Errors.{Exn, error, record_not_found_error}
use krossdb.Repository.Criteria.{
  Value, FieldFilter, Specification, Criteria, Entity, one, text, eq, value_eq, attribute,
  normalize_criteria,
}

pub record SortSpec : Type 0 where
  pub field : String
  pub descending : Bool

pub record Page : Type 0 where
  pub items : List Entity
  pub total : Option ℕ
  pub limit : ℕ
  pub offset : ℕ

abbrev more : Option ℕ → ℕ → Bool
more none reached = false
more (some total) reached = ltb reached total

unfoldable pub has_more : Page → Bool
has_more p = more p.total (p.offset + length p.items)

pub record BulkResult : Type 0 where
  pub succeeded : List Entity
  pub failed : List (ℕ × String)

unfoldable pub success_count : BulkResult → ℕ
success_count r = length r.succeeded

unfoldable pub failure_count : BulkResult → ℕ
failure_count r = length r.failed

abbrev pub Changes : Type 0
Changes = Dict Value

pub record Repository (S Key : Type 0) : Type 0 where
  pub get_by_id : Key → Exec S Exn (Option Entity)
  pub create : Entity → Exec S Exn Entity
  pub update : Key → Changes → Option Specification → Exec S Exn Entity
  pub delete : Key → Option Specification → Exec S Exn Bool
  pub find : Criteria → ℕ → ℕ → List SortSpec → Exec S Exn Page
  pub count : Criteria → Exec S Exn ℕ
  pub bulk_create : List Entity → Exec S Exn BulkResult
  pub bulk_update : List (Key × Changes) → Option Specification → Exec S Exn BulkResult
  pub bulk_delete : List Key → Option Specification → Exec S Exn ℕ

module _ {S Key : Type 0} (r : Repository S Key) where
  abbrev or_not_found : Option Entity → Exec S Exn Entity
  or_not_found none = throw (error record_not_found_error)
  or_not_found (some e) = pure e

  unfoldable pub get_by_id_or_raise : Key → Exec S Exn Entity
  get_by_id_or_raise id = r.get_by_id id >>= or_not_found

  unfoldable pub exists : Criteria → Exec S Exn Bool
  exists criteria = r.count criteria >>= λ n. pure (ltb 0 n)

abbrev pub or_empty : Option Specification → List FieldFilter
or_empty none = []
or_empty (some fs) = fs

abbrev pub override : Option Value → Value → Value
override none old = old
override (some v) old = v

-- A partial update gives each attribute that it names, and leaves the others, but for the names
-- that the backend keeps to itself.
abbrev pub Updated : (String → Bool) → Changes → Entity → Entity → Type 0
Updated reserved changes old new =
    (field : String)
    → reserved field ≡ false
    → attribute new field ≡ override (lookup field changes) (attribute old field)

abbrev pub OneOf : {A : Type 0} → List A → A → Type 0
OneOf [] x = ⊥
OneOf (y ∷ ys) x = (x ≡ y) ⊎ OneOf ys x

-- The promises, for what is stored under each id and a backend's reading of its filters: extra
-- criteria decide at the level of the query which entities a write reaches; a create stores a new
-- entity and overwrites none; reads store nothing and return what the criteria select.
pub record Promises {S Key : Type 0} (r : Repository S Key) : Type 0 where
  pub view : S → Key → Option Entity
  pub reserved : String → Bool
  pub satisfies : Entity → FieldFilter → Bool
  pub satisfies-eq :
      (e : Entity) (field t : String)
      → reserved field ≡ false
      → satisfies e (record { field = field; operator = eq; value = one (text t) })
        ≡ value_eq (attribute e field) (text t)
  pub get_reads : (id : Key) (s : S) (j : Key) → view (r.get_by_id id s).1 j ≡ view s j
  pub find_reads :
      (c : Criteria) (l o : ℕ) (sort : List SortSpec) (s : S) (j : Key)
      → view (r.find c l o sort s).1 j ≡ view s j
  pub find_selects :
      (c : Criteria) (l o : ℕ) (sort : List SortSpec) (s : S) (page : Page)
      → (r.find c l o sort s).0 ≡ ok page
      → All (λ e. all (satisfies e) (normalize_criteria c) ≡ true) page.items
  pub count_reads : (c : Criteria) (s : S) (j : Key) → view (r.count c s).1 j ≡ view s j
  pub create_keeps :
      (x : Entity) (s : S) (j : Key) (e : Entity)
      → view s j ≡ some e
      → view (r.create x s).1 j ≡ some e
  pub create_adds :
      (x : Entity) (s : S) (j : Key) (e : Entity)
      → view (r.create x s).1 j ≡ some e
      → (view s j ≡ some e) ⊎ Updated reserved [] x e
  pub bulk_create_keeps :
      (xs : List Entity) (s : S) (j : Key) (e : Entity)
      → view s j ≡ some e
      → view (r.bulk_create xs s).1 j ≡ some e
  pub bulk_create_adds :
      (xs : List Entity) (s : S) (j : Key) (e : Entity)
      → view (r.bulk_create xs s).1 j ≡ some e
      → (view s j ≡ some e) ⊎ ((x : Entity) × OneOf xs x × Updated reserved [] x e)
  pub update_keeps :
      (i : Key) (ch : Changes) (extra : Option Specification) (s : S) (j : Key) (e : Entity)
      → view s j ≡ some e
      → all (satisfies e) (or_empty extra) ≡ false
      → view (r.update i ch extra s).1 j ≡ some e
  pub update_changes :
      (i : Key) (ch : Changes) (extra : Option Specification) (s : S) (j : Key) (e : Entity)
      → view (r.update i ch extra s).1 j ≡ some e
      → (view s j ≡ some e)
        ⊎ ((old : Entity) × (all (satisfies old) (or_empty extra) ≡ true)
            × Updated reserved ch old e)
  pub bulk_update_keeps :
      (us : List (Key × Changes)) (extra : Option Specification) (s : S) (j : Key) (e : Entity)
      → view s j ≡ some e
      → all (satisfies e) (or_empty extra) ≡ false
      → view (r.bulk_update us extra s).1 j ≡ some e
  pub bulk_update_changes :
      (us : List (Key × Changes)) (extra : Option Specification) (s : S) (j : Key) (e : Entity)
      → view (r.bulk_update us extra s).1 j ≡ some e
      → (view s j ≡ some e)
        ⊎ ((u : Key × Changes) × OneOf us u
            × (old : Entity) × (all (satisfies old) (or_empty extra) ≡ true)
            × Updated reserved u.1 old e)
  pub delete_keeps :
      (i : Key) (extra : Option Specification) (s : S) (j : Key) (e : Entity)
      → view s j ≡ some e
      → all (satisfies e) (or_empty extra) ≡ false
      → view (r.delete i extra s).1 j ≡ some e
  pub delete_adds :
      (i : Key) (extra : Option Specification) (s : S) (j : Key) (e : Entity)
      → view (r.delete i extra s).1 j ≡ some e
      → view s j ≡ some e
  pub bulk_delete_keeps :
      (is : List Key) (extra : Option Specification) (s : S) (j : Key) (e : Entity)
      → view s j ≡ some e
      → all (satisfies e) (or_empty extra) ≡ false
      → view (r.bulk_delete is extra s).1 j ≡ some e
  pub bulk_delete_adds :
      (is : List Key) (extra : Option Specification) (s : S) (j : Key) (e : Entity)
      → view (r.bulk_delete is extra s).1 j ≡ some e
      → view s j ≡ some e
