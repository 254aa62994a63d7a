-- ===== src/Repository/Vector/Overwrites.antt =====
-- repositories/vector_repository.py: what `create` asks of the client.
use mathlib.Core.Path.{subst}
use krossdb.Common.{
  continue, pure, ◌>>◌, [], ◌∷◌, Result, ok, raise, Exec, ◌≡◌, refl, sym, ap, ◌∙◌, ◌⊎◌, inl, inr,
  arith, Result-cases,
}
use krossdb.Errors.{Exn}
use krossdb.Errors.Mapper.{translate_exceptions, translate, on_error}
use krossdb.Adapter.Qdrant.{acquire}
use krossdb.Adapter.Single.{Node, on_world}
use krossdb.Adapter.Single.Reads.{Refuses, acquire_if-cases}
use krossdb.Repository.Criteria.{Entity}
use krossdb.Repository.Point.{Point, QdrantRepository, entity_to_point}
use krossdb.Repository.Vector.{translated, create}

module _ {W : Type 0} (self : QdrantRepository W) where
  open self use {clock, registry, client}

  -- How a call that makes one upsert ends, from a state, with a value to return: the adapter
  -- refuses it, and nothing is called; or the client's upsert of the point was called, once, and
  -- the call returned if it did and raised if it did.
  abbrev pub Upserts : {A : Type 0} → Point → A → Node W → Result Exn A × Node W → Type 0
  Upserts p a s out =
      ((e : Exn) × (out.0 ≡ raise e) × Refuses clock s.client s e × (out.1.world ≡ s.world))
      ⊎ ((out.1.world ≡ (client.upsert (p ∷ []) s.world).1)
          × ((((client.upsert (p ∷ []) s.world).0 ≡ ok tt) × (out.0 ≡ ok a))
              ⊎ ((e e' : Exn) × ((client.upsert (p ∷ []) s.world).0 ≡ raise e)
                  × (out.0 ≡ raise e'))))

  -- The write of `create`, and the return after it.
  write : Point → Exec (Node W) Exn Unit
  unfolding acquire
  write p = acquire clock registry (translated self "create" (on_world (client.upsert (p ∷ []))))

  write-Upserts : (p : Point) (s : Node W) → Upserts p tt s (write p s)
  unfolding write acquire translate_exceptions on_error
  write-Upserts p s =
      elim (acquire_if-cases clock registry s.client
        (("adapter", "qdrant") ∷ ("connection", s.config.name) ∷ [])
        (translated self "create" (on_world (client.upsert (p ∷ [])))) s) [
          | inl h ↦ inl h
          | inr (x, h, out, r) ↦ inr (
            out ∙ ap (λ w. (client.upsert (p ∷ []) w).1) h,
            elim (Result-cases (client.upsert (p ∷ []) x.world).0) [
              | inl (_, e) ↦ inl (ap (λ w. (client.upsert (p ∷ []) w).0) (sym h) ∙ e, r ∙ rw e refl)
              | inr (e, f) ↦ inr (
                e,
                translate registry (("adapter", "qdrant") ∷ ("connection", s.config.name) ∷ []) (
                    translate registry
                      (("collection", self.collection_name) ∷ ("op", "create") ∷ []) e),
                ap (λ w. (client.upsert (p ∷ []) w).0) (sym h) ∙ f,
                r ∙ rw f refl,
              )
            ],
          )
        ]

  -- A creation of an entity with a point is refused by the adapter, with nothing called; or it is
  -- exactly one upsert of that point, whatever is stored under its id, by whichever tenant: it
  -- leaves the world as the upsert does, returns the entity if the upsert returned, and raises if
  -- it raised. Nothing looks whether the id is free.
  pub create-Upserts :
      (entity : Entity) (p : Point) (s : Node W)
      → entity_to_point self entity s ≡ (ok p, s)
      → Upserts p entity s (create self entity s)
  unfolding create write
  create-Upserts entity p s made =
      subst
        (λ (o : Result Exn Point × Node W).
          Upserts p entity s (continue o.0 (λ point. write point >> pure entity) o.1))
        (sym made) (returned (write p s) (write-Upserts p s))
    where
      returned :
          (o : Result Exn Unit × Node W)
          → Upserts p tt s o
          → Upserts p entity s (continue o.0 (λ _. pure entity) o.1)
      returned (ok _, t) (inl (e, r, why, w)) = absurd (ground arith)
      returned (raise x, t) (inl (e, r, why, w)) = inl (e, ap raised_as r, why, w)
        where
          raised_as : Result Exn Unit → Result Exn Entity
          raised_as (ok _) = ok entity
          raised_as (raise y) = raise y
      returned (ok _, t) (inr (w, inl (up, r))) = inr (w, inl (up, refl))
      returned (raise x, t) (inr (w, inl (up, r))) = absurd (ground arith)
      returned (ok _, t) (inr (w, inr (e, f, up, r))) = absurd (ground arith)
      returned (raise x, t) (inr (w, inr (e, f, up, r))) = inr (w, inr (e, x, up, refl))
