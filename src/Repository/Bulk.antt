-- ===== src/Repository/Bulk.antt =====
-- The bulk operations of repositories/: how an item's outcome goes into the result, and what the
-- result says of the items.
use krossdb.Common.{
  ℕ, ◌+◌, ◌≤◌, String, true, List, [], ◌∷◌, ◌++◌, Result, ok, raise, Exec, continue, ltb, length,
  all, ◌≡◌, refl, ◌∙◌, ◌⊎◌, inl, inr, arith, append_assoc,
}
use krossdb.Errors.{Exn, library, driver, cancelled}
use krossdb.Errors.Mapper.Laws.{IsTranslated}
use krossdb.Repository.Criteria.{Entity}
use krossdb.Repository.Interface.{BulkResult}

-- The outcome of one item of a bulk call: `except KrossDBError` takes the library's errors.
abbrev pub collect :
    {S A : Type 0} → ℕ → BulkResult → (A → Entity) → Result Exn A × S → Result Exn BulkResult × S
collect index b entity (ok a, s) = (ok (record b { succeeded = b.succeeded ++ entity a ∷ [] }), s)
collect index b entity (raise (library e), s) =
    (ok (record b { failed = b.failed ++ (index, e.message) ∷ [] }), s)
collect index b entity (raise e, s) = (raise e, s)

-- What holds after an item, and after the rest of the loop, holds at the end.
pub collect-then :
    {S A : Type 0} (P : S → Type 0) (index : ℕ) (b : BulkResult) (g : A → Entity)
    (p : Result Exn A × S) (f : BulkResult → Exec S Exn BulkResult)
    → P p.1
    → ((b' : BulkResult) → P (f b' p.1).1)
    → P (continue (collect index b g p).0 f (collect index b g p).1).1
collect-then P index b g (ok a, s) f h rest = rest _
collect-then P index b g (raise (library e), s) f h rest = rest _
collect-then P index b g (raise (driver e), s) f h rest = h
collect-then P index b g (raise cancelled, s) f h rest = h

-- Each entity, in order, succeeded or is listed as failed under its index.
abbrev pub Split : ℕ → List Entity → List Entity → List (ℕ × String) → Type 0
Split i [] ss fs = (ss ≡ []) × (fs ≡ [])
Split i (x ∷ xs) ss fs =
    ((rest : List Entity) × (ss ≡ x ∷ rest) × Split (i + 1) xs rest fs)
    ⊎ ((m : String) × (rest : List (ℕ × String)) × (fs ≡ (i, m) ∷ rest) × Split (i + 1) xs ss rest)

-- What a loop adds to a result that it is given.
abbrev pub Adds : ℕ → List Entity → BulkResult → BulkResult → Type 0
Adds i xs b r =
    (ss : List Entity) × (fs : List (ℕ × String)) × (r.succeeded ≡ b.succeeded ++ ss)
    × (r.failed ≡ b.failed ++ fs)
    × Split i xs ss fs

-- It returns such a result, or it is cancelled.
abbrev pub AddsUnlessCancelled : ℕ → List Entity → BulkResult → Result Exn BulkResult → Type 0
AddsUnlessCancelled i xs b (ok r) = Adds i xs b r
AddsUnlessCancelled i xs b (raise cancelled) = Unit
AddsUnlessCancelled i xs b (raise _) = ⊥

succeeded-Adds :
    (i : ℕ) (x : Entity) (xs : List Entity) (b : BulkResult) (o : Result Exn BulkResult)
    → AddsUnlessCancelled (i + 1) xs (record b { succeeded = b.succeeded ++ x ∷ [] }) o
    → AddsUnlessCancelled i (x ∷ xs) b o
succeeded-Adds i x xs b (ok r) (ss, fs, s, f, split) =
    (x ∷ ss, fs, s ∙ append_assoc b.succeeded (x ∷ []) ss, f, inl (ss, refl, split))
succeeded-Adds i x xs b (raise (library e)) h = h
succeeded-Adds i x xs b (raise (driver e)) h = h
succeeded-Adds i x xs b (raise cancelled) h = tt

failed-Adds :
    (i : ℕ) (m : String) (x : Entity) (xs : List Entity) (b : BulkResult)
    (o : Result Exn BulkResult)
    → AddsUnlessCancelled (i + 1) xs (record b { failed = b.failed ++ (i, m) ∷ [] }) o
    → AddsUnlessCancelled i (x ∷ xs) b o
failed-Adds i m x xs b (ok r) (ss, fs, s, f, split) =
    (ss, (i, m) ∷ fs, s, f ∙ append_assoc b.failed ((i, m) ∷ []) fs, inr (m, fs, refl, split))
failed-Adds i m x xs b (raise (library e)) h = h
failed-Adds i m x xs b (raise (driver e)) h = h
failed-Adds i m x xs b (raise cancelled) h = tt

-- One item under `translate_exceptions`, and the loop over the rest.
pub collect-Adds :
    {S A : Type 0} (i : ℕ) (x : Entity) (xs : List Entity) (b : BulkResult) (p : Result Exn A × S)
    (f : BulkResult → Exec S Exn BulkResult)
    → IsTranslated p.0
    → ((c : BulkResult) → AddsUnlessCancelled (i + 1) xs c (f c p.1).0)
    → let (r, s) = collect i b (λ _. x) p in AddsUnlessCancelled i (x ∷ xs) b (continue r f s).0
collect-Adds i x xs b (ok a, s) f t h = succeeded-Adds i x xs b (f _ s).0 (h _)
collect-Adds i x xs b (raise (library e), s) f t h = failed-Adds i e.message x xs b (f _ s).0 (h _)
collect-Adds i x xs b (raise (driver e), s) f t h = absurd t
collect-Adds i x xs b (raise cancelled, s) f t h = tt

pub length-Split :
    (i : ℕ) (xs ss : List Entity) (fs : List (ℕ × String))
    → Split i xs ss fs
    → length ss + length fs ≡ length xs
length-Split i [] ss fs (s, f) = rw (s, f) refl
length-Split i (x ∷ xs) ss fs (inl (rest, s, split)) =
    rw s (omega (arith, length-Split (i + 1) xs rest fs split))
length-Split i (x ∷ xs) ss fs (inr (m, rest, f, split)) =
    rw f (omega (arith, length-Split (i + 1) xs ss rest split))

pub indexes-Split :
    (i : ℕ) (xs ss : List Entity) (fs : List (ℕ × String))
    → Split i xs ss fs
    → (n : ℕ) → i + length xs ≤ n
    → all (λ f. ltb f.0 n) fs ≡ true
indexes-Split i [] ss fs (s, f) n h = rw f refl
indexes-Split i (x ∷ xs) ss fs (inl (rest, s, split)) n h =
    indexes-Split (i + 1) xs rest fs split n (omega arith)
indexes-Split i (x ∷ xs) ss fs (inr (m, rest, f, split)) n h =
    rw f (ground (arith, indexes-Split (i + 1) xs ss rest split n (omega arith)))
