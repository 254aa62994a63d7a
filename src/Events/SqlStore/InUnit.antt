-- ===== src/Events/SqlStore/InUnit.antt =====
-- events/outbox.py: `SQLAlchemyOutboxStore` inside a Unit of Work.
use krossdb.Common.{
  continue, continue-view, ℕ, String, Bool, true, false, Option, some, List, [], ◌∷◌, ◌++◌, all,
  Result, ok, raise, Exec, ◌≡◌, refl, sym, ◌∙◌, inl, inr, arith, append_assoc, append-nil, nat_eq,
  leb, Bool-cases,
}
use mathlib.Core.Path.{subst}
use krossdb.Config.{master}
use krossdb.Errors.{Exn}
use krossdb.Errors.Mapper.{translate_exceptions}
use krossdb.Events.{OutboxRecord, rejects}
use krossdb.Events.Outbox.{validate_fetch_args}
use krossdb.Adapter.Relational.{State, Call, execute}
use krossdb.Adapter.Relational.Transactions.{acquire_bound}
use krossdb.Events.SqlStore.{
  SqlAlchemyOutboxStore, Statement, insert_record, select_unpublished, set_published, add_attempt,
  in_session, execute_for, insert_each, save, fetch_unpublished, decode_all, mark_published,
  record_failed_attempts,
}

-- A statement on the session.
abbrev pub is_statement_on : ℕ → Call → Bool
is_statement_on n (execute m text) = nat_eq m n
is_statement_on n _ = false

-- The calls that were added to a history are all statements on the session.
abbrev pub OnlyStatements : ℕ → List Call → List Call → Type 0
OnlyStatements n before after =
    (es : List Call) × (after ≡ before ++ es) × (all (is_statement_on n) es ≡ true)

nothing : (n : ℕ) (h : List Call) → OnlyStatements n h h
nothing n h = ([], sym (append-nil h), refl)

one_more :
    (n : ℕ) (text : String) (h after : List Call)
    → OnlyStatements n (h ++ execute n text ∷ []) after
    → OnlyStatements n h after
one_more n text h after (es, e, a) = (execute n text ∷ es, e ∙ append_assoc h _ es, ground arith)

module _ (self : SqlAlchemyOutboxStore) where
  open self use {registry, respond, database, context, table_name}

  insert_each-OnlyStatements :
      (n : ℕ) (rs : List OutboxRecord) (s : State)
      → OnlyStatements n s.history (insert_each self n rs s).1.history
  unfolding insert_each
  insert_each-OnlyStatements n [] s = nothing n s.history
  insert_each-OnlyStatements n (r ∷ rs) s =
      let text = database.compiled (insert_record r) in
      let after = record s { history = s.history ++ execute n text ∷ [] } in
      one_more n text s.history _ (
        inserted (database.done s.history (insert_record r)) after
          (insert_each-OnlyStatements n rs after))
    where
      inserted :
          (o : Result Exn Unit) (t : State)
          → OnlyStatements n t.history (insert_each self n rs t).1.history
          → OnlyStatements n t.history (continue o (λ _. insert_each self n rs) t).1.history
      inserted (ok _) t h = h
      inserted (raise e) t h = nothing n t.history

  in_session-OnlyStatements :
      {A : Type 0} (op : String) (block : ℕ → Exec State Exn A) (n : ℕ) (s : State)
      → s.active_session ≡ some n
      → ((x : State) → OnlyStatements n x.history (block n x).1.history)
      → OnlyStatements n s.history (in_session self op block s).1.history
  unfolding translate_exceptions
  in_session-OnlyStatements op block n s bound only =
      elim (acquire_bound registry respond context
        (λ session.
          translate_exceptions registry (("table", table_name) ∷ ("op", op) ∷ []) (block session))
        master s n bound) [
          | inl (h, _) ↦ subst (OnlyStatements n s.history) (sym h) (nothing n s.history)
          | inr (x, (same, _), (h, _)) ↦
              subst (OnlyStatements n s.history) (sym h)
                (subst (λ b. OnlyStatements n b (block n x).1.history) same (only x))
        ]

  execute-OnlyStatements :
      {A : Type 0} (answer : List Call → Statement → Result Exn A) (n : ℕ) (stmt : Statement)
      (x : State)
      → OnlyStatements n x.history (execute_for self answer n stmt x).1.history
  execute-OnlyStatements answer n stmt x =
      one_more n (database.compiled stmt) x.history _ (nothing n _)

  -- One statement in a session.
  statement-OnlyStatements :
      {A : Type 0} (op : String) (answer : List Call → Statement → Result Exn A) (stmt : Statement)
      (n : ℕ) (s : State)
      → s.active_session ≡ some n
      → OnlyStatements n s.history
          (in_session self op (λ session. execute_for self answer session stmt) s).1.history
  statement-OnlyStatements {A = A} op answer stmt n s bound =
      let block : ℕ → Exec State Exn A = λ session. execute_for self answer session stmt in
      in_session-OnlyStatements op block n s bound (execute-OnlyStatements answer n stmt)

  decode_all-history :
      (rs : List OutboxRecord) (s : State) → (decode_all self rs s).1.history ≡ s.history
  decode_all-history [] s = refl
  decode_all-history (r ∷ rs) s =
      continue-view (λ t. t.history) (database.decoded r) _ s
        (λ x.
          let d = decode_all self rs s in
          continue-view (λ t. t.history) d.0 _ d.1 (λ xs. refl) ∙ decode_all-history rs s)

  -- In a Unit of Work that bound a session, all that the store asks of the database is statements
  -- on that session, whatever it is called for and however the call ends: it opens no session, and
  -- it neither commits nor rolls back nor closes, so that its records live and die with the
  -- business changes of the unit.
  pub calls_in_unit :
      (n : ℕ) (s : State)
      → s.active_session ≡ some n
      → ((rs : List OutboxRecord) → OnlyStatements n s.history (save self rs s).1.history)
        × ((limit : ℕ) (max_attempts : Option ℕ)
            → OnlyStatements n s.history (fetch_unpublished self limit max_attempts s).1.history)
        × ((is : List String) → OnlyStatements n s.history (mark_published self is s).1.history)
        × ((is : List String)
            → OnlyStatements n s.history (record_failed_attempts self is s).1.history)
  unfolding save fetch_unpublished validate_fetch_args mark_published record_failed_attempts
  calls_in_unit n s bound = (saved, fetched, marked, recorded)
    where
      saved : (rs : List OutboxRecord) → OnlyStatements n s.history (save self rs s).1.history
      saved [] = nothing n s.history
      saved (r ∷ rs) =
          let block : ℕ → Exec State Exn Unit = λ session. insert_each self session (r ∷ rs) in
          in_session-OnlyStatements "outbox_save" block n s bound
            (insert_each-OnlyStatements n (r ∷ rs))

      fetched :
          (limit : ℕ) (max_attempts : Option ℕ)
          → OnlyStatements n s.history (fetch_unpublished self limit max_attempts s).1.history
      fetched limit max_attempts = elim (Bool-cases (leb limit 0)) [
        | inl b ↦ rw b (nothing n s.history)
        | inr b ↦ elim (Bool-cases (rejects max_attempts)) [
          | inl c ↦ rw (b, c) (nothing n s.history)
          | inr c ↦
              let stmt = select_unpublished limit max_attempts in
              let block : ℕ → Exec State Exn (List OutboxRecord) =
                λ session. execute_for self database.rows session stmt in
              let f = in_session self "outbox_fetch" block s in
              rw (b, c)
                (subst (OnlyStatements n s.history)
                  (sym (
                    continue-view (λ t. t.history) f.0 (decode_all self) f.1
                      (λ rs. decode_all-history rs f.1)))
                  (statement-OnlyStatements "outbox_fetch" database.rows stmt n s bound))
        ]
      ]

      marked : (is : List String) → OnlyStatements n s.history (mark_published self is s).1.history
      marked [] = nothing n s.history
      marked (i ∷ is) =
          statement-OnlyStatements "outbox_mark_published" database.done
            (set_published (i ∷ is) s.clock) n s bound

      recorded :
          (is : List String)
          → OnlyStatements n s.history (record_failed_attempts self is s).1.history
      recorded [] = nothing n s.history
      recorded (i ∷ is) =
          statement-OnlyStatements "outbox_record_failed_attempts" database.done
            (add_attempt (i ∷ is)) n s bound
