-- ===== src/Repository/Tenancy/Isolation.antt =====
-- multitenancy/context.py: the calls of one tenant and the entities of the others, over any
-- repository that keeps the promises of its interface.
use krossdb.Common.{
  ℕ, String, true, false, Option, none, some, List, [], ◌∷◌, map, any, all, Result, ok, raise, ◌≡◌,
  refl, ap, ◌∙◌, inl, inr, arith, Bool-cases, continue,
}
use krossdb.Errors.{Exn}
use krossdb.Repository.Criteria.{Specification, Criteria, Entity}
use krossdb.Repository.Interface.{SortSpec, Changes, Repository, or_empty, Promises}
use krossdb.Repository.Tenancy.{
  owned, tenant_filter, belongs, reassigns, foreign_stamp, stamp, get_by_id, create, update, delete,
  find, count, bulk_create, bulk_update, bulk_delete,
}
use krossdb.Repository.Tenancy.Ownership.{
  Updated-belongs, stored-belongs, all_stored-belong, none_reassigns,
}

-- A call of the scoped repository.
pub data Command (Key : Type 0) : Type 0 where
  got : Key → Command Key
  created : Entity → Command Key
  updated : Key → Changes → Option Specification → Command Key
  deleted : Key → Option Specification → Command Key
  found : Criteria → ℕ → ℕ → List SortSpec → Command Key
  counted : Criteria → Command Key
  bulk_created : List Entity → Command Key
  bulk_updated : List (Key × Changes) → Option Specification → Command Key
  bulk_deleted : List Key → Option Specification → Command Key

module _ {S Key : Type 0} (inner : Repository S Key) (promises : Promises inner)
    (free : promises.reserved "tenant_id" ≡ false) (t : String) where
  open promises use {view, reserved, satisfies}

  -- Every entity that belongs to another tenant, or to none, is stored after exactly where it was
  -- stored before.
  abbrev pub Isolated : S → S → Type 0
  Isolated s s' =
      (j : Key) (e : Entity)
      → belongs t e ≡ false
      → (view s j ≡ some e → view s' j ≡ some e) × (view s' j ≡ some e → view s j ≡ some e)

  same : (s s' : S) → ((j : Key) → view s' j ≡ view s j) → Isolated s s'
  same s s' h j e f = rw (h j) ((λ x. x), (λ x. x))

  -- A scoped write does not reach a foreign entity, and what it reaches belongs to the tenant.
  pub outside :
      (extra : Option Specification) (e : Entity)
      → belongs t e ≡ false
      → all (satisfies e) (tenant_filter t ∷ or_empty extra) ≡ false
  outside extra e f = rw (promises.satisfies-eq e "tenant_id" t free, f) refl

  inside :
      (extra : Option Specification) (e : Entity)
      → all (satisfies e) (tenant_filter t ∷ or_empty extra) ≡ true
      → belongs t e ≡ true
  inside extra e h = elim (Bool-cases (belongs t e)) [
    | inl b ↦ b
    | inr b ↦ absurd (ground (arith, outside extra e b))
  ]

  clash : {A : Type 0} (e : Entity) → belongs t e ≡ false → belongs t e ≡ true → A
  clash e f b = absurd (ground arith)

  state-owned :
      (p : Result Exn (Option Entity) × S) → (continue p.0 (owned inner (some t)) p.1).1 ≡ p.1
  state-owned (ok none, s) = refl
  state-owned (ok (some e), s) = refl
  state-owned (raise x, s) = refl

  get_isolated : (id : Key) (s : S) → Isolated s (get_by_id inner (some t) id s).1
  unfolding get_by_id
  get_isolated id s =
      same s _
        (λ j. ap (λ x. view x j) (state-owned (inner.get_by_id id s)) ∙ promises.get_reads id s j)

  create_isolated : (x : Entity) (s : S) → Isolated s (create inner (some t) x s).1
  unfolding create
  create_isolated x s = elim (Bool-cases (foreign_stamp t x)) [
    | inl h ↦ rw h (same s s (λ j. refl))
    | inr h ↦ rw h (λ j e f. (
      promises.create_keeps (stamp t x) s j e,
      λ v. elim (promises.create_adds (stamp t x) s j e v) [
        | inl w ↦ w
        | inr u ↦ clash e f (stored-belongs reserved free t x e u)
      ],
    ))
  ]

  update_isolated :
      (i : Key) (ch : Changes) (extra : Option Specification) (s : S)
      → Isolated s (update inner (some t) i ch extra s).1
  unfolding update
  update_isolated i ch extra s = elim (Bool-cases (reassigns t ch)) [
    | inl h ↦ rw h (same s s (λ j. refl))
    | inr h ↦ rw h (λ j e f.
        let scoped = some (tenant_filter t ∷ or_empty extra) in
        (
          λ v. promises.update_keeps i ch scoped s j e v (outside extra e f),
          λ v. elim (promises.update_changes i ch scoped s j e v) [
            | inl w ↦ w
            | inr (old, sat, u) ↦
                clash e f (Updated-belongs reserved free t ch old e h (inside extra old sat) u)
          ],
        ))
  ]

  delete_isolated :
      (i : Key) (extra : Option Specification) (s : S)
      → Isolated s (delete inner (some t) i extra s).1
  unfolding delete
  delete_isolated i extra s j e f =
      let scoped = some (tenant_filter t ∷ or_empty extra) in
      (
        λ v. promises.delete_keeps i scoped s j e v (outside extra e f),
        promises.delete_adds i scoped s j e,
      )

  bulk_create_isolated : (xs : List Entity) (s : S) → Isolated s (bulk_create inner (some t) xs s).1
  unfolding bulk_create
  bulk_create_isolated xs s = elim (Bool-cases (any (foreign_stamp t) xs)) [
    | inl h ↦ rw h (same s s (λ j. refl))
    | inr h ↦ rw h (λ j e f. (
      promises.bulk_create_keeps (map (stamp t) xs) s j e,
      λ v. elim (promises.bulk_create_adds (map (stamp t) xs) s j e v) [
        | inl w ↦ w
        | inr (y, o, u) ↦ clash e f (all_stored-belong reserved free t xs y e o u)
      ],
    ))
  ]

  bulk_update_isolated :
      (us : List (Key × Changes)) (extra : Option Specification) (s : S)
      → Isolated s (bulk_update inner (some t) us extra s).1
  unfolding bulk_update
  bulk_update_isolated us extra s = elim (Bool-cases (any (λ u. reassigns t u.1) us)) [
    | inl h ↦ rw h (same s s (λ j. refl))
    | inr h ↦ rw h (λ j e f.
        let scoped = some (tenant_filter t ∷ or_empty extra) in
        (
          λ v. promises.bulk_update_keeps us scoped s j e v (outside extra e f),
          λ v. elim (promises.bulk_update_changes us scoped s j e v) [
            | inl w ↦ w
            | inr (u, o, old, sat, upd) ↦ clash e f (
                Updated-belongs reserved free t u.1 old e (none_reassigns t us u h o)
                  (inside extra old sat) upd)
          ],
        ))
  ]

  bulk_delete_isolated :
      (is : List Key) (extra : Option Specification) (s : S)
      → Isolated s (bulk_delete inner (some t) is extra s).1
  unfolding bulk_delete
  bulk_delete_isolated is extra s j e f =
      let scoped = some (tenant_filter t ∷ or_empty extra) in
      (
        λ v. promises.bulk_delete_keeps is scoped s j e v (outside extra e f),
        promises.bulk_delete_adds is scoped s j e,
      )

  -- The state after a call, whatever it returned or raised.
  unfoldable pub step : Command Key → S → S
  step (got id) s = (get_by_id inner (some t) id s).1
  step (created x) s = (create inner (some t) x s).1
  step (updated i ch extra) s = (update inner (some t) i ch extra s).1
  step (deleted i extra) s = (delete inner (some t) i extra s).1
  step (found c l o sort) s = (find inner (some t) c l o sort s).1
  step (counted c) s = (count inner (some t) c s).1
  step (bulk_created xs) s = (bulk_create inner (some t) xs s).1
  step (bulk_updated us extra) s = (bulk_update inner (some t) us extra s).1
  step (bulk_deleted is extra) s = (bulk_delete inner (some t) is extra s).1

  unfoldable pub session : List (Command Key) → S → S
  unfolding step
  session [] s = s
  session (c ∷ cs) s = session cs (step c s)

  step-isolated : (c : Command Key) (s : S) → Isolated s (step c s)
  unfolding step find count
  step-isolated (got id) s = get_isolated id s
  step-isolated (created x) s = create_isolated x s
  step-isolated (updated i ch extra) s = update_isolated i ch extra s
  step-isolated (deleted i extra) s = delete_isolated i extra s
  step-isolated (found c l o sort) s = same s _ (promises.find_reads _ l o sort s)
  step-isolated (counted c) s = same s _ (promises.count_reads _ s)
  step-isolated (bulk_created xs) s = bulk_create_isolated xs s
  step-isolated (bulk_updated us extra) s = bulk_update_isolated us extra s
  step-isolated (bulk_deleted is extra) s = bulk_delete_isolated is extra s

  -- Over a repository that keeps its promises, whatever calls a tenant makes and however they
  -- end, every entity that belongs to another tenant, or to none, is stored afterwards exactly
  -- where and as it was before: it is neither changed nor deleted nor moved, and no entity joins
  -- another tenant.
  pub session-isolated : (cs : List (Command Key)) (s : S) → Isolated s (session cs s)
  unfolding session
  session-isolated [] s j e f = same s s (λ j. refl) j e f
  session-isolated (c ∷ cs) s j e f =
      let (a, b) = step-isolated c s j e f in
      let (a', b') = session-isolated cs (step c s) j e f in ((λ v. a' (a v)), (λ v. b (b' v)))
