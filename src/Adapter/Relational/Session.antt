-- ===== src/Adapter/Relational/Session.antt =====
-- adapters/relational/base.py: `acquire`, the session binding of a Unit of Work, and `run_read`.
use krossdb.Common.{ℕ, String, Option, none, some, ◌∷◌, Result, ok, raise, Exec, ◌>>=◌, length}
use krossdb.Errors.{Exn, cancelled}
use krossdb.Errors.Mapper.{Registry, Context, translate_exceptions}
use krossdb.Config.{RoutingRole, master}
use krossdb.Resilience.Breaker.{infrastructure_failures, guard}
use krossdb.Resilience.Retry.{AsyncRetrying, retryable_exceptions, with_retry}
use krossdb.Adapter.Relational.{
  State, Respond, open_session, commit, rollback, close, request, cell, breaker_of, select_key,
}

unfoldable pub bind_session : ℕ → State → State
bind_session session s = record s { active_session = some session }

unfoldable pub unbind_session : Option ℕ → State → State
unbind_session token s = record s { active_session = token }

-- The outcome unless the clean-up after it raised.
after : {A : Type 0} → Result Exn Unit → Result Exn A → Result Exn A
after (ok _) r = r
after (raise e) r = raise e

-- The block under the breaker of a node.
unfoldable pub guarded : {A : Type 0} → String → Exec State Exn A → Exec State Exn A
unfolding breaker_of
guarded key block = do
  b ← breaker_of key
  λ s. guard (cell key) s.config.circuit_breaker (some infrastructure_failures) block s

module _ (registry : Registry) (respond : Respond) where
  -- `finally: await session.close()`: the close runs whatever happened, and its own exception
  -- replaces the outcome.
  unfoldable pub closing : {A : Type 0} → ℕ → Result Exn A × State → Result Exn A × State
  unfolding request after
  closing session (r, s) = let (c, s') = request respond (close session) s in (after c r, s')

  -- `except Exception: rollback; raise`, else the commit under its own translation. A
  -- cancellation goes past both.
  unfoldable pub conclude : {A : Type 0} → Context → ℕ → Result Exn A × State → Result Exn A × State
  unfolding request after
  conclude context session (ok a, s) =
      let (c, s') =
        translate_exceptions registry (("op", "commit") ∷ context)
          (request respond (commit session)) s in
      (after c (ok a), s')
  conclude context session (raise cancelled, s) = (raise cancelled, s)
  conclude context session (raise e, s) =
      let (c, s') = request respond (rollback session) s in (after c (raise e), s')

  module _ {A : Type 0} (context : Context) (body : ℕ → Exec State Exn A) where
    -- The transaction that `acquire` owns outside a Unit of Work. Making a session does no I/O.
    unfoldable pub own_transaction : String → Exec State Exn A
    unfolding closing conclude
    own_transaction key s =
        let session = length s.history in
        let s' = (request respond (open_session key) s).1 in
        closing session (
          conclude (("node", key) ∷ context) session
            (translate_exceptions registry (("node", key) ∷ context) (body session) s'))

    unfoldable pub acquire_from : Option ℕ → RoutingRole → Exec State Exn A
    unfolding guarded
    acquire_from (some session) role = do
      key ← select_key master
      guarded key (translate_exceptions registry context (body session))
    acquire_from none role = do key ← select_key role; guarded key (own_transaction key)

    -- `async with adapter.acquire(role=role) as session: body`.
    unfoldable pub acquire : RoutingRole → Exec State Exn A
    unfolding acquire_from
    acquire role s = acquire_from s.active_session role s

module _ {A : Type 0} (tenacity : AsyncRetrying State A) where
  abbrev pub read_from : Option ℕ → Exec State Exn A → Exec State Exn A
  read_from (some _) fn s = fn s
  read_from none fn s = with_retry tenacity s.config.retry retryable_exceptions fn s

  -- `run_read`: no retry inside a Unit of Work.
  unfoldable pub run_read : Exec State Exn A → Exec State Exn A
  run_read fn s = read_from s.active_session fn s
