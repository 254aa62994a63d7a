-- ===== src/Repository/Document/Accounts.antt =====
-- repositories/document_repository.py: what `bulk_create` says of its entities.
use krossdb.Common.{
  ℕ, ◌+◌, true, List, [], ◌∷◌, Result, ok, raise, ltb, length, all, ◌≡◌, refl, sym, ◌⊎◌, inl, inr,
  arith, append-nil, Exec, continue,
}
use mathlib.Core.Path.{subst}
use krossdb.Errors.{Exn, library, driver, cancelled}
use krossdb.Errors.Mapper.{Registry, Context, translate_exceptions, translate, on_error}
use krossdb.Errors.Mapper.Laws.{translate_exceptions_total}
use krossdb.Adapter.Mongo.{acquire}
use krossdb.Adapter.Single.{Node, on_world}
use krossdb.Adapter.Single.Reads.{Refuses, acquire_if-cases}
use krossdb.Repository.Criteria.{Entity}
use krossdb.Repository.Interface.{OneOf, BulkResult, success_count, failure_count}
use krossdb.Repository.Bulk.{
  collect, Split, AddsUnlessCancelled, collect-Adds, length-Split, indexes-Split,
}
use krossdb.Repository.Document.{MongoDbRepository, translated, create_each, bulk_create}

-- A result that accounts for every entity; or a cancellation, for a reason.
abbrev pub Accounts : List Entity → Type 0 → Result Exn BulkResult → Type 0
Accounts xs why (ok r) =
    Split 0 xs r.succeeded r.failed
    × (success_count r + failure_count r ≡ length xs)
    × (all (λ f. ltb f.0 (length xs)) r.failed ≡ true)
Accounts xs why (raise cancelled) = why
Accounts xs why (raise _) = ⊥

Adds-Accounts :
    (xs : List Entity) (why : Type 0) (o : Result Exn BulkResult)
    → AddsUnlessCancelled 0 xs (record { succeeded = []; failed = [] }) o
    → (o ≡ raise cancelled → why)
    → Accounts xs why o
unfolding success_count failure_count
Adds-Accounts xs why (ok r) (ss, fs, s, f, split) c =
    let split' =
      subst (λ y. Split 0 xs y r.failed) (sym s) (subst (λ y. Split 0 xs ss y) (sym f) split) in
    (
      split',
      length-Split 0 xs r.succeeded r.failed split',
      indexes-Split 0 xs r.succeeded r.failed split' (length xs) (omega arith),
    )
Adds-Accounts xs why (raise (library e)) h c = h
Adds-Accounts xs why (raise (driver e)) h c = h
Adds-Accounts xs why (raise cancelled) h c = c refl

translate-Accounts :
    (f : Exn → Exn) (xs : List Entity) (why : Type 0) (o : Result Exn BulkResult)
    → f cancelled ≡ cancelled
    → Accounts xs why o
    → Accounts xs why (on_error f o)
unfolding on_error
translate-Accounts f xs why (ok r) c h = h
translate-Accounts f xs why (raise (library e)) c h = absurd h
translate-Accounts f xs why (raise (driver e)) c h = absurd h
translate-Accounts f xs why (raise cancelled) c h = subst (λ e. Accounts xs why (raise e)) (sym c) h

-- If an item and the rest of a batch end cancelled, the item was cancelled or the rest was.
cancelled-item :
    {S : Type 0} (P : Type 0) (registry : Registry) (context : Context) (i : ℕ) (b : BulkResult)
    (x : Entity) (r : Result Exn Unit) (t : S) (f : BulkResult → Exec S Exn BulkResult)
    → ((c : BulkResult) → (f c t).0 ≡ raise cancelled → P)
    → (r ≡ raise cancelled → P)
    → let (q, u) = collect i b (λ _. x) (on_error (translate registry context) r, t) in
      (continue q f u).0 ≡ raise cancelled → P
unfolding on_error translate
cancelled-item P registry context i b x (ok _) t f later now h = later _ h
cancelled-item P registry context i b x (raise (library e)) t f later now h = later _ h
cancelled-item P registry context i b x (raise (driver e)) t f later now h = later _ h
cancelled-item P registry context i b x (raise cancelled) t f later now h = now refl

module _ {W : Type 0} (self : MongoDbRepository W) where
  open self use {clock, registry, collection}

  create_each-Adds :
      (xs : List Entity) (index : ℕ) (b : BulkResult) (s : Node W)
      → AddsUnlessCancelled index xs b (create_each self index xs b s).0
  unfolding create_each
  create_each-Adds [] index b s =
      ([], [], sym (append-nil b.succeeded), sym (append-nil b.failed), (refl, refl))
  create_each-Adds (x ∷ xs) index b s =
      let insert = on_world (collection.insert_one x) in
      let context = ("collection", self.collection_name) ∷ ("op", "bulk_create") ∷ [] in
      collect-Adds index x xs b (translated self "bulk_create" (collection.insert_one x) s)
        (create_each self (index + 1) xs) (translate_exceptions_total registry context insert s).1
        (λ c. create_each-Adds xs (index + 1) c _)

  -- A cancelled insert of one of the entities.
  abbrev pub Cancels : List Entity → Type 0
  Cancels xs =
      (x : Entity) × (w : W) × OneOf xs x × ((collection.insert_one x w).0 ≡ raise cancelled)

  -- If the loop is cancelled, so was an insert.
  create_each-Cancels :
      (xs : List Entity) (index : ℕ) (b : BulkResult) (s : Node W)
      → (create_each self index xs b s).0 ≡ raise cancelled
      → Cancels xs
  unfolding create_each translate_exceptions
  create_each-Cancels [] index b s h = absurd (ground arith)
  create_each-Cancels (x ∷ xs) index b s h =
      let context = ("collection", self.collection_name) ∷ ("op", "bulk_create") ∷ [] in
      cancelled-item (Cancels (x ∷ xs)) registry context index b x
        (collection.insert_one x s.world).0
        (record s { world = (collection.insert_one x s.world).1 }) (create_each self (index + 1) xs)
        (λ c g. let (y, w, o, e) = create_each-Cancels xs (index + 1) c _ g in (y, w, inr o, e))
        (λ e. (x, s.world, inl refl, e)) h

  -- A bulk creation over MongoDB is refused as a whole, with a configuration error by an adapter
  -- that is not connected or with the exception of its breaker, and then calls nothing; or it is
  -- cancelled, as an insert of one of the entities is; or it returns, whatever the inserts raise.
  -- What it returns has each entity, in order, as a success or under its index as a failure, so
  -- that the counts add up to the number of entities and every failed index is below it.
  pub bulk_create-Accounts :
      (xs : List Entity) (s : Node W)
      → let out = bulk_create self xs s in
        ((e : Exn) × (out.0 ≡ raise e) × Refuses clock s.database s e × (out.1.world ≡ s.world))
        ⊎ Accounts xs (Cancels xs) out.0
  unfolding bulk_create acquire translate_exceptions
  bulk_create-Accounts xs s =
      let empty : BulkResult = record { succeeded = []; failed = [] } in
      elim (acquire_if-cases clock registry s.database
        (("adapter", "mongodb") ∷ ("connection", s.config.name) ∷ []) (create_each self 0 xs empty)
        s) [
          | inl h ↦ inl h
          | inr (x, h, out, r) ↦ inr (
              subst (Accounts xs (Cancels xs)) (sym r) (
                translate-Accounts _ xs (Cancels xs) (create_each self 0 xs empty x).0 refl (
                  Adds-Accounts xs (Cancels xs) _ (create_each-Adds xs 0 empty x)
                    (create_each-Cancels xs 0 empty x))))
        ]
