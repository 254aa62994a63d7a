-- ===== src/Repository/Tenancy/Ownership.antt =====
-- multitenancy/context.py: which entities belong to the tenant after a write of the scoped
-- repository.
use mathlib.Core.Path.{subst}
use krossdb.Common.{
  Bool, String, true, false, List, [], ◌∷◌, map, any, ◌≡◌, refl, ap, ◌∙◌, inl, inr, arith,
  Option-cases, eq_refl,
}
use krossdb.Common.Dict.{lookup, lookup-put}
use krossdb.Repository.Criteria.{Entity, text, attribute, value_eq}
use krossdb.Repository.Interface.{Changes, Updated, OneOf}
use krossdb.Repository.Tenancy.{belongs, reassigns, stamp}

stamp-belongs : (t : String) (e : Entity) → belongs t (stamp t e) ≡ true
unfolding stamp attribute value_eq
stamp-belongs t e = rw (lookup-put, eq_refl) refl

-- Changes that do not reassign leave an entity with its tenant.
pub Updated-belongs :
    (reserved : String → Bool)
    → reserved "tenant_id" ≡ false
    → (t : String) (ch : Changes) (old new : Entity) → reassigns t ch ≡ false
    → belongs t old ≡ true
    → Updated reserved ch old new
    → belongs t new ≡ true
unfolding reassigns
Updated-belongs reserved free t ch old new r b u = elim (Option-cases (lookup "tenant_id" ch)) [
  | inl e ↦ ground (arith, u "tenant_id" free)
  | inr (v, e) ↦ ground (arith, u "tenant_id" free)
]

-- A stamped entity that is stored belongs to the tenant.
pub stored-belongs :
    (reserved : String → Bool)
    → reserved "tenant_id" ≡ false
    → (t : String) (x e : Entity) → Updated reserved [] (stamp t x) e
    → belongs t e ≡ true
unfolding lookup
stored-belongs reserved free t x e u =
    ap (λ v. value_eq v (text t)) (u "tenant_id" free) ∙ stamp-belongs t x

pub all_stored-belong :
    (reserved : String → Bool)
    → reserved "tenant_id" ≡ false
    → (t : String) (xs : List Entity) (y e : Entity) → OneOf (map (stamp t) xs) y
    → Updated reserved [] y e
    → belongs t e ≡ true
all_stored-belong reserved free t [] y e h u = absurd h
all_stored-belong reserved free t (x ∷ xs) y e (inl p) u =
    stored-belongs reserved free t x e (subst (λ z. Updated reserved [] z e) p u)
all_stored-belong reserved free t (x ∷ xs) y e (inr h) u =
    all_stored-belong reserved free t xs y e h u

pub none_reassigns :
    {Key : Type 0} (t : String) (us : List (Key × Changes)) (u : Key × Changes)
    → any (λ w. reassigns t w.1) us ≡ false
    → OneOf us u
    → reassigns t u.1 ≡ false
none_reassigns t [] u h o = absurd o
none_reassigns t (w ∷ us) u h (inl p) = ap (λ (x : _ × Changes). reassigns t x.1) p ∙ ground arith
none_reassigns t (w ∷ us) u h (inr o) = none_reassigns t us u (ground arith) o
