-- ===== src/Uow.antt =====
-- interfaces/unit_of_work.py: the transaction boundary over the hooks of a backend.
pub mod Protocol
pub mod Block
pub mod Sqlalchemy
mod Tests
use krossdb.Common.{
  String, Bool, true, false, Option, none, some, List, [], ◌∷◌, ◌++◌, Result, ok, raise, Exec,
  ◌>>=◌, ◌>>◌, throw, modify, if◌then◌else◌, not, throw_if,
}
use krossdb.Errors.{
  Exn, error, transaction_already_active_error, no_active_transaction_error, not_implemented_error,
}
use krossdb.Events.{DomainEvent}

-- The hooks that a concrete class implements, over its own state.
pub record Backend (S : Type 0) : Type 0 where
  pub begin : Exec S Exn Unit
  pub commit : Exec S Exn Unit
  pub rollback : Exec S Exn Unit
  pub persist_events : List DomainEvent → Exec S Exn Unit

-- The default `_persist_events`.
unfoldable pub default_persist_events : {S : Type 0} → List DomainEvent → Exec S Exn Unit
default_persist_events events = throw not_implemented_error

pub record Uow (S : Type 0) : Type 0 where
  pub active : Bool
  pub committed : Bool
  pub finished : Bool
  pub pending_events : List DomainEvent
  pub world : S

unfoldable pub init : {S : Type 0} → S → Uow S
init s = record {
  active = false;
  committed = false;
  finished = false;
  pending_events = [];
  world = s;
}

module _ {S : Type 0} where
  -- A hook runs on the backend's state.
  abbrev pub hook : {A : Type 0} → Exec S Exn A → Exec (Uow S) Exn A
  hook m u = let (r, s) = m u.world in (r, record u { world = s })

  abbrev pub finish : Uow S → Uow S
  finish u = record u { finished = true; pending_events = [] }

  unfoldable pub register_event : DomainEvent → Uow S → Uow S
  register_event event u = record u { pending_events = u.pending_events ++ event ∷ [] }

  -- `try: a finally: f`, where `f` cannot raise; and the exception `a` raises again after a
  -- clean-up that may itself raise.
  abbrev pub finally : {A : Type 0} → Result Exn A × Uow S → (Uow S → Uow S) → Result Exn A × Uow S
  finally (r, u) f = (r, f u)

  abbrev pub reraise : {A : Type 0} → Exn → Result Exn Unit × Uow S → Result Exn A × Uow S
  reraise e (ok _, u) = (raise e, u)
  reraise e (raise e', u) = (raise e', u)

  abbrev pub mark_committed : Result Exn Unit × Uow S → Result Exn Unit × Uow S
  mark_committed (ok _, u) = (ok tt, record u { committed = true })
  mark_committed (raise e, u) = (raise e, u)

-- What a `with` statement ends in: the exit's exception hides the block's.
abbrev pub outcome : {A : Type 0} → Result Exn Unit → Result Exn A → Result Exn A
outcome (ok _) r = r
outcome (raise e) r = raise e

module _ {S : Type 0} (backend : Backend S) where
  unfoldable pub enter : Exec (Uow S) Exn Unit
  enter u =
      if u.active
      then (raise (error transaction_already_active_error), u)
      else (do
        hook backend.begin
        modify (λ v. record v {
          active = true;
          committed = false;
          finished = false;
          pending_events = [];
        }))
          u

  abbrev pub flush_pending : List DomainEvent → Exec (Uow S) Exn Unit
  flush_pending [] u = (ok tt, u)
  flush_pending (e ∷ es) u =
      (hook (backend.persist_events (e ∷ es)) >> modify (λ v. record v { pending_events = [] })) u

  unfoldable pub flush_events : Exec (Uow S) Exn Unit
  flush_events u = flush_pending u.pending_events u

  -- The rest of `commit`, by how the flush ended.
  abbrev pub commit_after : Result Exn Unit × Uow S → Result Exn Unit × Uow S
  commit_after (raise e, u) = reraise e (finally (hook backend.rollback u) finish)
  commit_after (ok _, u) = mark_committed (finally (hook backend.commit u) finish)

  unfoldable pub commit : Exec (Uow S) Exn Unit
  unfolding flush_events
  commit u =
      if not u.active
      then (raise (error no_active_transaction_error), u)
      else commit_after (flush_events u)

  unfoldable pub rollback : Exec (Uow S) Exn Unit
  rollback u =
      if not u.active
      then (raise (error no_active_transaction_error), u)
      else (hook backend.rollback >> modify finish) u

  -- `__aexit__`: it returns `None`, so what the block raised goes on.
  unfoldable pub exit : Exec (Uow S) Exn Unit
  unfolding rollback
  exit u =
      finally (if u.finished then (ok tt, u) else rollback u) (λ v. record v { active = false })

  abbrev pub leave : {A : Type 0} → Result Exn A × Uow S → Result Exn A × Uow S
  leave (r, u) = let (x, v) = exit u in (outcome x r, v)

  -- `async with uow: body`.
  unfoldable pub with_uow : {A : Type 0} → Exec (Uow S) Exn A → Exec (Uow S) Exn A
  unfolding enter exit
  with_uow body = enter >> λ u. leave (body u)
