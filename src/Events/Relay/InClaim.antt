-- ===== src/Events/Relay/InClaim.antt =====
-- events/relay.py over the SQL store of events/outbox.py: the batch that a claim holds.
use krossdb.Common.{
  true, ◌++◌, all, ◌∙◌, ap, append_assoc, ℕ, String, Option, some, List, [], ◌∷◌, Result, ok, raise,
  Exec, pure, lift, length, throw_if, leb, ◌≡◌, refl, sym, arith,
}
use mathlib.Core.Path.{subst}
use krossdb.Config.{master}
use krossdb.Errors.{Exn, library, driver, cancelled, value_error}
use krossdb.Errors.Mapper.{translate_exceptions}
use krossdb.Adapter.Relational.Bound.{is_work_on}
use krossdb.Events.SqlStore.Claim.{claim_end, claimed, claim_one_transaction}
use krossdb.Adapter.Relational.{State, Call, execute, open_session, begin}
use krossdb.Adapter.Relational.Bound.{
  Within, Within-call, acquire-Within, Stays, Stays-then, Stays-pure, Stays-lift,
}
use krossdb.Events.{OutboxRecord, rejects}
use krossdb.Events.Outbox.{validate_fetch_args}
use krossdb.Events.SqlStore.{
  SqlAlchemyOutboxStore, Statement, select_unpublished, set_published, add_attempt, execute_for,
  in_session, decode_all, fetch_unpublished, mark_published, record_failed_attempts, sql_store,
}
use krossdb.Events.Relay.{RelayConfig, run_once, publish_all, sort_outcome, record_failures}

-- The relay's batch over the store, in a claim that the store holds already.
abbrev pub claimed_batch :
    SqlAlchemyOutboxStore → (OutboxRecord → Exec State Exn Unit) → RelayConfig → Exec State Exn ℕ
claimed_batch self publish = run_once (record (sql_store self) { claim = λ body. body }) publish

module _ (self : SqlAlchemyOutboxStore) (n : ℕ) where
  open self use {registry, respond, database, context, table_name}

  statement-Stays :
      {A : Type 0} (op : String) (answer : List Call → Statement → Result Exn A) (stmt : Statement)
      → Stays n (in_session self op (λ session. execute_for self answer session stmt))
  unfolding translate_exceptions
  statement-Stays op answer stmt s bound =
      acquire-Within registry respond context _ master n s
        (λ x b. Within-call n x (execute n (database.compiled stmt)) (ground arith) b) bound

  decode_all-Stays : (rows : List OutboxRecord) → Stays n (decode_all self rows)
  decode_all-Stays [] = Stays-pure n
  decode_all-Stays (r ∷ rs) =
      Stays-then n (lift (database.decoded r)) _ (Stays-lift n (database.decoded r)) (λ x.
        Stays-then n (decode_all self rs) (λ xs. pure (x ∷ xs)) (decode_all-Stays rs)
          (λ _. Stays-pure n))

  fetch_unpublished-Stays :
      (limit : ℕ) (max_attempts : Option ℕ) → Stays n (fetch_unpublished self limit max_attempts)
  unfolding fetch_unpublished validate_fetch_args
  fetch_unpublished-Stays limit max_attempts =
      Stays-then n (validate_fetch_args limit max_attempts) _
        (Stays-then n (throw_if (leb limit 0) value_error)
          (λ _. throw_if (rejects max_attempts) value_error) (Stays-pure n) (λ _. Stays-pure n))
        (λ _.
          Stays-then n
            (in_session self "outbox_fetch" (λ session.
              execute_for self database.rows session (select_unpublished limit max_attempts)))
            (decode_all self)
            (statement-Stays "outbox_fetch" database.rows (select_unpublished limit max_attempts))
            decode_all-Stays)

  mark_published-Stays : (is : List String) → Stays n (mark_published self is)
  unfolding mark_published
  mark_published-Stays [] = Stays-pure n
  mark_published-Stays (i ∷ is) = λ s bound.
      statement-Stays "outbox_mark_published" database.done (set_published (i ∷ is) s.clock) s bound

  record_failures-Stays :
      (publish : OutboxRecord → Exec State Exn Unit) (is : List String)
      → Stays n (record_failures (sql_store self) publish is)
  unfolding record_failed_attempts
  record_failures-Stays publish [] = Stays-pure n
  record_failures-Stays publish (i ∷ is) =
      statement-Stays "outbox_record_failed_attempts" database.done (add_attempt (i ∷ is))

  module _ (publish : OutboxRecord → Exec State Exn Unit)
      (stays : (r : OutboxRecord) → Stays n (publish r)) where
    sort_outcome-state :
        (id : String) (ps fs : List String) (p : Result Exn Unit × State)
        → (sort_outcome (sql_store self) publish id ps fs p).1 ≡ p.1
    unfolding sort_outcome
    sort_outcome-state id ps fs (ok _, s) = refl
    sort_outcome-state id ps fs (raise (library e), s) = refl
    sort_outcome-state id ps fs (raise (driver e), s) = refl
    sort_outcome-state id ps fs (raise cancelled, s) = refl

    publish_all-Stays :
        (rs : List OutboxRecord) (ps fs : List String)
        → Stays n (publish_all (sql_store self) publish rs ps fs)
    unfolding publish_all
    publish_all-Stays [] ps fs = Stays-pure n
    publish_all-Stays (r ∷ rs) ps fs =
        Stays-then n (λ s. sort_outcome (sql_store self) publish r.id ps fs (publish r s))
          (λ p. publish_all (sql_store self) publish rs p.0 p.1)
          (λ s bound.
            subst (Within n s) (sym (sort_outcome-state r.id ps fs (publish r s)))
              (stays r s bound))
          (λ p. publish_all-Stays rs p.0 p.1)

    -- In the session that a claim bound, and with a publisher that does not leave it, all that a
    -- batch of the relay asks of the database, however it ends, is statements on that session: the
    -- records are fetched, marked as published and counted as failed in the one transaction that
    -- locked them, and the batch neither commits nor rolls back nor closes it.
    pub claimed_batch-Within :
        (cfg : RelayConfig) (s : State)
        → s.active_session ≡ some n
        → Within n s (claimed_batch self publish cfg s).1
    unfolding run_once
    claimed_batch-Within cfg =
        Stays-then n (fetch_unpublished self cfg.batch_size cfg.max_attempts) _
          (fetch_unpublished-Stays cfg.batch_size cfg.max_attempts)
          (λ records.
            Stays-then n (publish_all (sql_store self) publish records [] []) _
              (publish_all-Stays records [] [])
              (λ split.
                Stays-then n (mark_published self split.0) _ (mark_published-Stays split.0) (λ _.
                  Stays-then n (record_failures (sql_store self) publish split.1)
                    (λ _. pure (length split.0)) (record_failures-Stays publish split.1)
                    (λ _. Stays-pure n))))

module _ (self : SqlAlchemyOutboxStore) (publish : OutboxRecord → Exec State Exn Unit) where
  open self use {respond}

  -- A batch of the relay over the SQL store, whose claim begins, is one transaction on the master:
  -- a new session is opened and begun; then come statements on it alone, whatever the database and
  -- the publisher answer; and then it is committed and closed if the batch returned, or rolled
  -- back and closed if it raised. After it the task has its old binding back. The publisher must
  -- not leave the session.
  pub run_once_one_transaction :
      (cfg : RelayConfig) (key : String) (s : State)
      → ((r : OutboxRecord) → Stays (length s.history) (publish r))
      → s.master_key ≡ some key
      → respond (s.history ++ open_session key ∷ []) (begin (length s.history)) ≡ ok tt
      → (es : List Call) × (all (is_work_on (length s.history)) es ≡ true)
        × ((run_once (sql_store self) publish cfg s).1.history
            ≡ s.history
              ++ (open_session key ∷ begin (length s.history) ∷ es)
              ++ claim_end
                  (length s.history)
                  (claimed_batch self publish cfg (claimed self key s)).0)
        × ((run_once (sql_store self) publish cfg s).1.active_session ≡ s.active_session)
  unfolding run_once
  run_once_one_transaction cfg key s stays found begun =
      let n = length s.history in
      let body = claimed_batch self publish cfg in
      let (es, added, work, bound) =
        claimed_batch-Within self n publish stays cfg (claimed self key s) refl in
      let (history, binding) = claim_one_transaction self body key s found begun in
      (
        es,
        work,
        history
            ∙ ap (λ h. h ++ claim_end n (body (claimed self key s)).0) added
            ∙ simp append_assoc,
        binding,
      )
