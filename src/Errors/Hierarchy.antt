-- ===== src/Errors/Hierarchy.antt =====
-- The class tree of core/exceptions.py.
use krossdb.Common.{ℕ, suc, ◌≡◌, refl, true}
use krossdb.Errors.{Kind, krossdb_error, mro, is_subclass}

-- Every class of the module is a subclass of `KrossDBError`, and any more steps along the bases
-- than the four taken by `is_subclass` find no further ancestor.
pub krossdb_error-root :
    (k : Kind) (n : ℕ)
    → (is_subclass k krossdb_error ≡ true) × (mro (suc (suc (suc (suc n)))) k ≡ mro 4 k)
unfolding is_subclass
krossdb_error-root Kind.krossdb_error n = (refl, refl)
krossdb_error-root _ n = (refl, refl)
