-- ===== src/Uow/Sqlalchemy/Blocks.antt =====
-- uow/sqlalchemy_uow.py in the `async with` block of interfaces/unit_of_work.py: a rollback that
-- the block asks for itself and that raises.
use krossdb.Common.{
  ℕ, String, Option, none, some, true, false, List, [], ◌∷◌, ◌++◌, length, ok, raise, Exec, ◌>>◌,
  ◌≡◌, refl, ap, ◌∙◌,
}
use krossdb.Errors.{Exn, assertion_error, driver, RawException}
use krossdb.Errors.Mapper.{Registry}
use krossdb.Events.{OutboxRecord}
use krossdb.Adapter.Relational.{
  State, Respond, open_session, begin, rollback, close, select_key, request,
}
use krossdb.Adapter.Relational.Session.{bind_session}
use krossdb.Uow
use krossdb.Uow.{Uow, init, hook, enter, exit, leave, with_uow}
use krossdb.Uow.Sqlalchemy.{SqlUow, on_adapter, sql_begin, sql_rollback, sql_backend}
use krossdb.Uow.Sqlalchemy.Ends.{in_transaction}

-- The adapter in a block: a session on the master with a transaction, bound to the task.
abbrev pub begun : String → State → State
begun key s = record s {
  history = (s.history ++ open_session key ∷ []) ++ begin (length s.history) ∷ [];
  active_session = some (length s.history);
}

-- A unit that was not entered yet.
abbrev pub new_unit : State → Uow SqlUow
new_unit s = init (record { adapter = s; session = none; bind_token = none })

module _ (registry : Registry) (respond : Respond)
    (outbox : Option (List OutboxRecord → Exec SqlUow Exn Unit)) where
  -- A block that does some work and then rolls back.
  abbrev pub rolling_back : Exec State Exn Unit → Exec (Uow SqlUow) Exn Unit
  rolling_back work = hook (on_adapter work) >> Uow.rollback (sql_backend registry respond outbox)

  -- The unit in its block.
  abbrev unit_in : ℕ → Option ℕ → State → Uow SqlUow
  unit_in n token t = record {
    active = true;
    committed = false;
    finished = false;
    pending_events = [];
    world = in_transaction t n token;
  }

  with_uow-begun :
      (block : Exec (Uow SqlUow) Exn Unit) (key : String) (s : State)
      → s.master_key ≡ some key
      → respond (s.history ++ open_session key ∷ []) (begin (length s.history)) ≡ ok tt
      → with_uow (sql_backend registry respond outbox) block (new_unit s)
        ≡ leave
            (sql_backend registry respond outbox)
            (block (unit_in (length s.history) s.active_session (begun key s)))
  unfolding with_uow enter init sql_begin select_key request bind_session
  with_uow-begun block key s found started = rw (found, started) refl

  -- How the exit ends after such a block.
  leave-rolled_back :
      (work : Exec State Exn Unit) (n : ℕ) (token : Option ℕ) (s t : State) (e : RawException)
      → work s ≡ (ok tt, t)
      → respond t.history (rollback n) ≡ raise (driver e)
      → respond (t.history ++ rollback n ∷ []) (close n) ≡ ok tt
      → let out =
          leave (sql_backend registry respond outbox) (rolling_back work (unit_in n token s)) in
        (out.0 ≡ raise assertion_error)
        × (out.1.world.adapter.history ≡ (t.history ++ rollback n ∷ []) ++ close n ∷ [])
        × (out.1.world.adapter.active_session ≡ token)
  unfolding exit Uow.rollback sql_rollback
  leave-rolled_back work n token s t e worked failed closed =
      rw (worked, failed, closed) (refl, refl, refl)

  -- A block on a master whose transaction begins does some work, which returns, and rolls back
  -- itself. If the database raises to the rollback and its session closes, the exit of the block
  -- tries to roll back again and fails its assertion: the caller gets `AssertionError` in place of
  -- the database's exception. The database has got the one rollback and the close after the work,
  -- and the task has its old binding back.
  pub rollback_in_block :
      (work : Exec State Exn Unit) (key : String) (s : State) (t : State) (e : RawException)
      → s.master_key ≡ some key
      → respond (s.history ++ open_session key ∷ []) (begin (length s.history)) ≡ ok tt
      → work (begun key s) ≡ (ok tt, t)
      → respond t.history (rollback (length s.history)) ≡ raise (driver e)
      → respond (t.history ++ rollback (length s.history) ∷ []) (close (length s.history)) ≡ ok tt
      → let out = with_uow (sql_backend registry respond outbox) (rolling_back work) (new_unit s) in
        (out.0 ≡ raise assertion_error)
        × (out.1.world.adapter.history
            ≡ (t.history ++ rollback (length s.history) ∷ []) ++ close (length s.history) ∷ [])
        × (out.1.world.adapter.active_session ≡ s.active_session)
  rollback_in_block work key s t e found started worked failed closed =
      let same = with_uow-begun (rolling_back work) key s found started in
      let (raised, called, unbound) =
        leave-rolled_back work (length s.history) s.active_session (begun key s) t e worked failed
          closed in
      (
        ap (λ p. p.0) same ∙ raised,
        ap (λ p. p.1.world.adapter.history) same ∙ called,
        ap (λ p. p.1.world.adapter.active_session) same ∙ unbound,
      )
