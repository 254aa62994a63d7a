-- ===== src/Events/Outbox/Laws.antt =====
-- What the in-memory store's updates do to each record.
use krossdb.Common.{
  ℕ, zero, suc, ◌+◌, ◌≤◌, String, Bool, false, not, Option, none, some, List, [], ◌∷◌, filter, take,
  map, if◌then◌else◌, ◌≡◌, refl, arith, ap, ◌∙◌, Bool-cases, inl, inr, count, ◌==◌, eq_iff, ltb,
  Option-cases,
}
use krossdb.Common.Dict.{Dict, lookup, values, lookup-put}
use krossdb.Events.{OutboxRecord}
use krossdb.Events.Outbox.{change_all, change, eligible}

abbrev pub iterate : (OutboxRecord → OutboxRecord) → ℕ → Option OutboxRecord → Option OutboxRecord
iterate f zero o = o
iterate f (suc n) none = none
iterate f (suc n) (some r) = iterate f n (some (f r))

abbrev pub names : String → List String → ℕ
names j ids = count (λ i. i == j) ids

-- Keys are the records' ids and stand once.
abbrev pub IsKeyed : Dict OutboxRecord → Type 0
IsKeyed [] = Unit
IsKeyed ((k, r) ∷ d) = (r.id ≡ k) × (lookup k d ≡ none) × IsKeyed d

abbrev pub map_some : (OutboxRecord → OutboxRecord) → Option OutboxRecord → Option OutboxRecord
map_some f none = none
map_some f (some r) = some (f r)

lookup-change :
    (f : OutboxRecord → OutboxRecord) (id j : String) (d : Dict OutboxRecord)
    → lookup j (change f id (lookup id d) d)
      ≡ (if id == j then map_some f (lookup j d) else lookup j d)
lookup-change f id j d = elim (Option-cases (lookup id d)) [
  | inl e ↦ ground (arith, eq_iff id j)
  | inr (r, e) ↦ ground (arith, eq_iff id j, lookup-put id j (f r) d)
]

iterate-none : (f : OutboxRecord → OutboxRecord) (n : ℕ) → iterate f n none ≡ none
iterate-none f zero = refl
iterate-none f (suc n) = refl

iterate_step :
    (f : OutboxRecord → OutboxRecord) (n : ℕ) (o : Option OutboxRecord)
    → iterate f n (map_some f o) ≡ iterate f (suc n) o
iterate_step f n none = iterate-none f n
iterate_step f n (some r) = refl

pub lookup-change_all :
    (f : OutboxRecord → OutboxRecord) (ids : List String) (j : String) (d : Dict OutboxRecord)
    → lookup j (change_all f ids d) ≡ iterate f (names j ids) (lookup j d)
unfolding change_all
lookup-change_all f [] j d = refl
lookup-change_all f (i ∷ ids) j d = elim (Bool-cases (i == j)) [
  | inl e ↦
      lookup-change_all f ids j _
      ∙ ap (iterate f (names j ids)) (lookup-change f i j d)
      ∙ rw e (iterate_step f (names j ids) (lookup j d))
  | inr e ↦
      lookup-change_all f ids j _ ∙ ap (iterate f (names j ids)) (lookup-change f i j d) ∙ rw e refl
]

abbrev pub ids : List OutboxRecord → List String
ids = map (λ r. r.id)

names-filter :
    (j : String) (p : OutboxRecord → Bool) (rs : List OutboxRecord)
    → names j (ids (filter p rs)) ≤ names j (ids rs)
names-filter j p [] = omega arith
names-filter j p (r ∷ rs) = ground (arith, names-filter j p rs)

names-take :
    (j : String) (n : ℕ) (rs : List OutboxRecord) → names j (ids (take n rs)) ≤ names j (ids rs)
names-take j zero rs = omega arith
names-take j (suc n) [] = omega arith
names-take j (suc n) (r ∷ rs) = ground (arith, names-take j n rs)

pub names-split :
    (j : String) (p : OutboxRecord → Bool) (rs : List OutboxRecord)
    → names j (ids (filter p rs)) + names j (ids (filter (λ r. not (p r)) rs)) ≡ names j (ids rs)
names-split j p [] = omega arith
names-split j p (r ∷ rs) = ground (arith, names-split j p rs)

names_absent :
    (j : String) (d : Dict OutboxRecord)
    → IsKeyed d
    → lookup j d ≡ none
    → names j (ids (values d)) ≡ 0
unfolding lookup
names_absent j [] h e = refl
names_absent j ((k, r) ∷ d) h e = ground (arith, names_absent j d h.2, eq_iff k j)

names-values : (j : String) (d : Dict OutboxRecord) → IsKeyed d → names j (ids (values d)) ≤ 1
unfolding lookup
names-values j [] h = omega arith
names-values j ((k, r) ∷ d) h =
    ground (arith, names-values j d h.2, names_absent j d h.2, eq_iff k j)

-- What a batch takes from a keyed store names each record at most once.
pub names_batch :
    (j : String) (m : Option ℕ) (n : ℕ) (d : Dict OutboxRecord)
    → IsKeyed d
    → names j (ids (take n (filter (eligible m) (values d)))) ≤ 1
names_batch j m n d h = omega (
  arith,
  names-take j n (filter (eligible m) (values d)),
  names-filter j (eligible m) (values d),
  names-values j d h,
)

-- Two rounds of changes over disjoint names, each of which stands once at most.
pub iterate_once :
    (f g : OutboxRecord → OutboxRecord) (m n : ℕ) (o : Option OutboxRecord)
    → m + n ≤ 1
    → iterate g n (iterate f m o)
      ≡ (if ltb 0 m then map_some f o else if ltb 0 n then map_some g o else o)
iterate_once f g zero zero o h = refl
iterate_once f g zero (suc zero) none h = refl
iterate_once f g zero (suc zero) (some r) h = refl
iterate_once f g (suc zero) zero none h = refl
iterate_once f g (suc zero) zero (some r) h = refl
iterate_once f g zero (suc (suc n)) o h = absurd (omega arith)
iterate_once f g (suc zero) (suc n) o h = absurd (omega arith)
iterate_once f g (suc (suc m)) n o h = absurd (omega arith)

names_pass :
    (j : String) (p : OutboxRecord → Bool) (d : Dict OutboxRecord) (r : OutboxRecord)
    → IsKeyed d
    → lookup j d ≡ some r
    → p r ≡ false
    → names j (ids (filter p (values d))) ≡ 0
unfolding lookup
names_pass j p [] r h e f = refl
names_pass j p ((k, x) ∷ d) r h e f = elim (Bool-cases (k == j)) [
  | inl q ↦ ground (arith, names_absent j d h.2, eq_iff k j, names-filter j p (values d))
  | inr q ↦ ground (arith, names_pass j p d r h.2, eq_iff k j)
]

-- A record that the filter of a batch rejects is not named by the batch.
pub names_ineligible :
    (j : String) (m : Option ℕ) (n : ℕ) (q : OutboxRecord → Bool) (d : Dict OutboxRecord)
    (r : OutboxRecord)
    → IsKeyed d
    → lookup j d ≡ some r
    → eligible m r ≡ false
    → names j (ids (filter q (take n (filter (eligible m) (values d))))) ≡ 0
names_ineligible j m n q d r h e f = omega (
  arith,
  names-filter j q (take n (filter (eligible m) (values d))),
  names-take j n (filter (eligible m) (values d)),
  names_pass j (eligible m) d r h e f,
)
