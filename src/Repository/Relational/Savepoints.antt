-- ===== src/Repository/Relational/Savepoints.antt =====
-- repositories/relational_repository.py: the savepoints of `bulk_create`.
use mathlib.Core.Path.{subst}
use krossdb.Common.{
  continue, ℕ, ◌+◌, String, Bool, true, false, none, List, [], ◌∷◌, ◌++◌, Result, ok, raise, Exec,
  length, if◌then◌else◌, ◌≡◌, refl, sym, ap, ap₂, ◌∙◌, ◌⊎◌, inl, inr, append_assoc, append-nil,
}
use krossdb.Config.{master}
use krossdb.Errors.{Exn, library, driver, cancelled}
use krossdb.Errors.Mapper.{translate_exceptions, translate, on_error}
use krossdb.Errors.Mapper.Laws.{IsTranslated, on_error-IsTranslated}
use krossdb.Adapter.Relational.{
  State, Call, open_session, begin_nested, release, rollback_to, execute, request, select_key,
}
use krossdb.Adapter.Relational.Admission.{Refuses}
use krossdb.Adapter.Relational.Transactions.{concluded, ending, opened_at, acquire_unbound}
use krossdb.Repository.Criteria.{Entity}
use krossdb.Repository.Interface.{BulkResult}
use krossdb.Repository.Bulk.{collect, AddsUnlessCancelled, collect-Adds}
use krossdb.Repository.Table.{SqlAlchemyRepository, insert_values}
use krossdb.Repository.Relational.{insert_one, nested_end, nested, create_each, bulk_create}

abbrev is_cancelled : {A : Type 0} → Result Exn A → Bool
is_cancelled (raise cancelled) = true
is_cancelled _ = false

abbrev nested_end_of : {A : Type 0} → ℕ → Result Exn A → Call
nested_end_of n (ok _) = release n
nested_end_of n (raise _) = rollback_to n

nested_end_of-translated :
    {A : Type 0} (n : ℕ) (f : Exn → Exn) (r : Result Exn A)
    → nested_end_of n (on_error f r) ≡ nested_end_of n r
unfolding on_error
nested_end_of-translated n f (ok a) = refl
nested_end_of-translated n f (raise e) = refl

-- The calls after an item, unless it was cancelled.
collect-calls :
    {A : Type 0} (i : ℕ) (b : BulkResult) (x : Entity) (o : Result Exn A) (s : State)
    (f : BulkResult → Exec State Exn BulkResult) (rest : List Call)
    → IsTranslated o
    → ((c : BulkResult) → (f c s).1.history ≡ s.history ++ rest)
    → let (r, t) = collect i b (λ _. x) (o, s) in
      (continue r f t).1.history ≡ s.history ++ (if is_cancelled o then [] else rest)
collect-calls i b x (ok a) s f rest t h = h _
collect-calls i b x (raise (library e)) s f rest t h = h _
collect-calls i b x (raise (driver e)) s f rest t h = absurd t
collect-calls i b x (raise cancelled) s f rest t h = sym (append-nil s.history)

-- What the result of a batch says after an insert was answered: the entity succeeded, or it
-- failed under its index; but for a cancellation.
abbrev pub counted : ℕ → Entity → BulkResult → Result Exn ℕ → Result Exn BulkResult
counted i x b (ok n) = ok (record b { succeeded = b.succeeded ++ x ∷ [] })
counted i x b (raise (library e)) = ok (record b { failed = b.failed ++ (i, e.message) ∷ [] })
counted i x b (raise e) = raise e

-- The rest of the batch after an item.
abbrev pub then_rest :
    Result Exn BulkResult → (BulkResult → Result Exn BulkResult) → Result Exn BulkResult
then_rest (ok c) f = f c
then_rest (raise e) f = raise e

collect-outcome :
    (i : ℕ) (b : BulkResult) (x : Entity) (o : Result Exn ℕ) (s : State)
    (f : BulkResult → Exec State Exn BulkResult) (g : BulkResult → Result Exn BulkResult)
    → ((c : BulkResult) → (f c s).0 ≡ g c)
    → let (r, t) = collect i b (λ _. x) (o, s) in (continue r f t).0 ≡ then_rest (counted i x b o) g
collect-outcome i b x (ok a) s f g h = h _
collect-outcome i b x (raise (library e)) s f g h = h _
collect-outcome i b x (raise (driver e)) s f g h = refl
collect-outcome i b x (raise cancelled) s f g h = refl

module _ (self : SqlAlchemyRepository) where
  open self use {registry, respond, database, context, table_name}

  -- What an insert into a session with the history `h` is answered, with what it raises
  -- translated.
  abbrev answered : ℕ → Entity → List Call → Result Exn ℕ
  answered n x h =
      on_error (translate registry (("table", table_name) ∷ ("op", "bulk_create") ∷ []))
        (database.rowcount (h ++ begin_nested n ∷ []) (insert_values x))

  -- The calls for an entity: a savepoint, the insert, and the release of the savepoint if the
  -- database took it, or the rollback to the savepoint if it did not.
  abbrev pub item_calls : ℕ → Entity → List Call → List Call
  item_calls n x h =
      begin_nested n
      ∷ execute n (database.compiled (insert_values x))
      ∷ nested_end_of n (answered n x h)
      ∷ []

  -- Those for several, until one is cancelled.
  unfoldable pub insert_calls : ℕ → List Entity → List Call → List Call
  insert_calls n [] h = []
  insert_calls n (x ∷ xs) h =
      let rest = insert_calls n xs (h ++ item_calls n x h) in
      item_calls n x h ++ (if is_cancelled (answered n x h) then [] else rest)

  -- The outcome of the inserts of several, by what the database answers to each.
  unfoldable pub inserted : ℕ → ℕ → List Entity → BulkResult → List Call → Result Exn BulkResult
  inserted n i [] b h = ok b
  inserted n i (x ∷ xs) b h =
      then_rest (counted i x b (answered n x h))
        (λ c. inserted n (i + 1) xs c (h ++ item_calls n x h))

  -- How a batch ends in a session that was opened after the calls `opened`.
  abbrev pub Batched :
      List Entity → String → ℕ → BulkResult → List Call → Result Exn BulkResult × State → Type 0
  Batched xs key n b opened out =
      let r = inserted n 0 xs b opened in
      AddsUnlessCancelled 0 xs b r
      × (out.0
          ≡ concluded registry respond context key n (opened ++ insert_calls n xs opened)
              (on_error (translate registry (("node", key) ∷ context)) r))
      × (out.1.history ≡ (opened ++ insert_calls n xs opened) ++ ending n r)

  -- How a bulk creation outside a Unit of Work ends.
  abbrev pub Batches : List Entity → State → Result Exn BulkResult × State → Type 0
  Batches xs s out =
      ((e : Exn) × (out.0 ≡ raise e) × Refuses master s e × (out.1.history ≡ s.history))
      ⊎ ((key : String) × ((select_key master s).0 ≡ ok key)
          × Batched xs key (length s.history) (record { succeeded = []; failed = [] })
              (s.history ++ open_session key ∷ []) out)

  module _
      (savepoints : (h : List Call) (n : ℕ)
        → (respond h (begin_nested n) ≡ ok tt)
          × (respond h (release n) ≡ ok tt)
          × (respond h (rollback_to n) ≡ ok tt)) where
    nested_end-outcome :
        {A : Type 0} (n : ℕ) (r : Result Exn A) (t : State)
        → nested_end self n (r, t) ≡ (r, record t { history = t.history ++ nested_end_of n r ∷ [] })
    unfolding request
    nested_end-outcome n (ok a) t = rw (savepoints t.history n).1 refl
    nested_end-outcome n (raise e) t = rw (savepoints t.history n).2 refl

    insert_one-outcome :
        (n : ℕ) (x : Entity) (s : State)
        → insert_one self n x s
          ≡ (answered n x s.history, record s { history = s.history ++ item_calls n x s.history })
    unfolding nested request translate_exceptions
    insert_one-outcome n x s =
        let h = s.history ++ begin_nested n ∷ [] in
        let stmt = execute n (database.compiled (insert_values x)) in
        rw (savepoints s.history n).0 (
          nested_end-outcome n (answered n x s.history) (record s { history = h ++ stmt ∷ [] })
          ∙ ap (λ es. (answered n x s.history, record s { history = es }))
              (append_assoc h (stmt ∷ []) _ ∙ append_assoc s.history (begin_nested n ∷ []) _))

    create_each-calls :
        (n : ℕ) (xs : List Entity) (index : ℕ) (b : BulkResult) (s : State)
        → (create_each self n index xs b s).1.history ≡ s.history ++ insert_calls n xs s.history
    unfolding create_each insert_calls
    create_each-calls n [] index b s = sym (append-nil s.history)
    create_each-calls n (x ∷ xs) index b s = rw (insert_one-outcome n x s) (
        collect-calls index b x (answered n x s.history)
          (record s { history = s.history ++ item_calls n x s.history })
          (create_each self n (index + 1) xs)
          (insert_calls n xs (s.history ++ item_calls n x s.history))
          (on_error-IsTranslated registry _
            (database.rowcount (s.history ++ begin_nested n ∷ []) (insert_values x)))
          (λ c. create_each-calls n xs (index + 1) c _)
        ∙ append_assoc s.history (item_calls n x s.history) _)

    create_each-inserted :
        (n : ℕ) (xs : List Entity) (index : ℕ) (b : BulkResult) (s : State)
        → (create_each self n index xs b s).0 ≡ inserted n index xs b s.history
    unfolding create_each inserted
    create_each-inserted n [] index b s = refl
    create_each-inserted n (x ∷ xs) index b s = rw (insert_one-outcome n x s) (
        collect-outcome index b x (answered n x s.history)
          (record s { history = s.history ++ item_calls n x s.history })
          (create_each self n (index + 1) xs)
          (λ c. inserted n (index + 1) xs c (s.history ++ item_calls n x s.history))
          (λ c. create_each-inserted n xs (index + 1) c _))

    create_each-Adds :
        (n : ℕ) (xs : List Entity) (index : ℕ) (b : BulkResult) (s : State)
        → AddsUnlessCancelled index xs b (create_each self n index xs b s).0
    unfolding create_each
    create_each-Adds n [] index b s =
        ([], [], sym (append-nil b.succeeded), sym (append-nil b.failed), (refl, refl))
    create_each-Adds n (x ∷ xs) index b s = rw (insert_one-outcome n x s) (
        collect-Adds index x xs b
          (answered n x s.history, record s { history = s.history ++ item_calls n x s.history })
          (create_each self n (index + 1) xs)
          (on_error-IsTranslated registry _
            (database.rowcount (s.history ++ begin_nested n ∷ []) (insert_values x)))
          (λ c. create_each-Adds n xs (index + 1) c _))

    -- Outside a Unit of Work, and where the savepoints themselves do not fail, a bulk creation makes
    -- no call at all and raises why `acquire` refuses, or it opens one session on the master. In
    -- it, each entity has a savepoint, its insert, and the release of the savepoint or the rollback
    -- to it. An entity whose insert is answered is a success, one whose insert raises an error of
    -- the library is a failure under its index, in order, and neither ends the transaction: then
    -- the batch is committed and the caller gets that result, unless the commit or the close
    -- raises. Only a cancelled insert ends it, and then the session is closed with no commit.
    pub bulk_create-savepoints :
        (xs : List Entity) (s : State)
        → s.active_session ≡ none
        → Batches xs s (bulk_create self xs s)
    unfolding bulk_create
    bulk_create-savepoints xs s unbound =
        let n = length s.history in
        let empty : BulkResult = record { succeeded = []; failed = [] } in
        let body : ℕ → Exec State Exn BulkResult = λ session. create_each self session 0 xs empty in
        elim (acquire_unbound registry respond context body master s unbound) [
          | inl (e, raised, why, h) ↦ inl (e, raised, why, h)
          | inr (key, x, (same, bound), chosen, admitted, (returned, e)) ↦
              let made = create_each-inserted n xs 0 empty (opened_at key x) in
              let called = create_each-calls n xs 0 empty (opened_at key x) in
              inr (
                key,
                chosen,
                subst
                    (λ (h : List Call).
                      Batched xs key n empty (h ++ open_session key ∷ []) (bulk_create self xs s))
                    same
                    (
                      subst (AddsUnlessCancelled 0 xs empty) made
                          (create_each-Adds n xs 0 empty (opened_at key x)),
                      returned
                          ∙ ap₂
                              (λ hs r.
                                concluded registry respond context key n hs
                                  (on_error (translate registry (("node", key) ∷ context)) r))
                              called made,
                      e ∙ ap₂ (λ hs r. hs ++ ending n r) called made,
                    ),
              )
        ]
