-- ===== src/Events/SqlStore/Claim.antt =====
-- events/outbox.py: the Unit of Work of `claim`.
use krossdb.Common.{
  ℕ, String, true, false, Option, none, some, List, [], ◌∷◌, ◌++◌, Result, ok, raise, Exec, ◌>>◌,
  pure, continue, length, ◌≡◌, refl, ap, ◌∙◌, Result-cases, inl, inr,
}
use krossdb.Errors.{Exn}
use krossdb.Adapter.Relational.{
  State, Call, open_session, begin, commit, rollback, close, select_key, request,
}
use krossdb.Adapter.Relational.Session.{bind_session}
use krossdb.Uow
use krossdb.Uow.{
  Uow, Backend, init, hook, enter, exit, leave, with_uow, finish, mark_committed, finally,
  flush_events,
}
use krossdb.Uow.Sqlalchemy.{SqlUow, sql_begin, sql_commit, sql_rollback, sql_backend}
use krossdb.Uow.Sqlalchemy.Ends.{in_transaction, ends_unbound}
use krossdb.Events.SqlStore.{SqlAlchemyOutboxStore, claim}

-- The end of the transaction, by how its block ended.
abbrev pub claim_end : {A : Type 0} → ℕ → Result Exn A → List Call
claim_end n (ok _) = commit n ∷ close n ∷ []
claim_end n (raise _) = rollback n ∷ close n ∷ []

module _ (self : SqlAlchemyOutboxStore) where
  open self use {registry, respond}

  abbrev backend : Backend SqlUow
  backend = sql_backend registry respond none

  -- The unit in its block.
  abbrev unit_in : State → ℕ → Option ℕ → Uow SqlUow
  unit_in t n token = record {
    active = true;
    committed = false;
    finished = false;
    pending_events = [];
    world = in_transaction t n token;
  }

  abbrev ended_claim : ℕ → Option ℕ → Result Exn ℕ × State → Result Exn ℕ × Uow SqlUow
  ended_claim n token p =
      leave backend (continue p.0 (λ k. Uow.commit backend >> pure k) (unit_in p.1 n token))

  -- After a commit that was tried, the exit does nothing more.
  committed-world :
      (q : Result Exn Unit × SqlUow) (k : ℕ)
      → let (x, v) =
          mark_committed
            (finally (q.0, record (unit_in q.1.adapter 0 none) { world = q.1 }) finish) in
        (leave backend (continue x (λ _. pure k) v)).1.world ≡ q.1
  unfolding exit
  committed-world (ok _, w) k = refl
  committed-world (raise e, w) k = refl

  rolled_back-world :
      (t : State) (n : ℕ) (token : Option ℕ) (e : Exn)
      → (leave backend {A = ℕ} (raise e, unit_in t n token)).1.world
        ≡ (sql_rollback registry respond (in_transaction t n token)).1
  unfolding exit Uow.rollback
  rolled_back-world t n token e =
      elim (Result-cases (sql_rollback registry respond (in_transaction t n token)).0) [
        | inl (_, h) ↦ rw h refl
        | inr (x, h) ↦ rw h refl
      ]

  ended_claim-history :
      (n : ℕ) (token : Option ℕ) (p : Result Exn ℕ × State)
      → ((ended_claim n token p).1.world.adapter.history ≡ p.1.history ++ claim_end n p.0)
        × ((ended_claim n token p).1.world.adapter.active_session ≡ token)
  unfolding Uow.commit flush_events
  ended_claim-history n token (ok k, t) =
      let ends = ends_unbound registry respond t n token in
      let same = committed-world (sql_commit registry respond (in_transaction t n token)) k in
      (ap (λ w. w.adapter.history) same ∙ ends.0, ap (λ w. w.adapter.active_session) same ∙ ends.1)
  ended_claim-history n token (raise e, t) =
      let ends = ends_unbound registry respond t n token in
      let same = rolled_back-world t n token e in
      (ap (λ w. w.adapter.history) same ∙ ends.3, ap (λ w. w.adapter.active_session) same ∙ ends.4)

  -- The state in which the body of a claim runs: a session on the master with a transaction, bound
  -- to the task.
  abbrev pub claimed : String → State → State
  claimed key s = record s {
    history = (s.history ++ open_session key ∷ []) ++ begin (length s.history) ∷ [];
    active_session = some (length s.history);
  }

  claim-ended_claim :
      (body : Exec State Exn ℕ) (key : String) (s : State)
      → s.master_key ≡ some key
      → respond (s.history ++ open_session key ∷ []) (begin (length s.history)) ≡ ok tt
      → let p = ended_claim (length s.history) s.active_session (body (claimed key s)) in
        claim self body s ≡ (p.0, p.1.world.adapter)
  unfolding claim with_uow enter init sql_begin select_key request bind_session
  claim-ended_claim body key s found begun = rw (found, begun) refl

  -- A claim whose transaction begins runs its body once, with a session on the master bound to the
  -- task. Whatever the database answers to the end, the session is committed and closed if the
  -- body returned, and rolled back and closed if it raised, nothing else is called, and the task
  -- has its old binding back.
  pub claim_one_transaction :
      (body : Exec State Exn ℕ) (key : String) (s : State)
      → s.master_key ≡ some key
      → respond (s.history ++ open_session key ∷ []) (begin (length s.history)) ≡ ok tt
      → ((claim self body s).1.history
          ≡ (body (claimed key s)).1.history
            ++ claim_end (length s.history) (body (claimed key s)).0)
        × ((claim self body s).1.active_session ≡ s.active_session)
  claim_one_transaction body key s found begun =
      let (history, binding) =
        ended_claim-history (length s.history) s.active_session (body (claimed key s)) in
      let same = claim-ended_claim body key s found begun in
      (ap (λ p. p.1.history) same ∙ history, ap (λ p. p.1.active_session) same ∙ binding)
