-- ===== src/Events/SqlStore.antt =====
-- events/outbox.py: `SQLAlchemyOutboxStore`, over the relational adapter. SQLAlchemy's answer to a
-- statement is a parameter, given the calls made before it, as are the text that it compiles a
-- statement to and the decoding of a row.
pub mod Claim
pub mod InUnit
mod Tests
use krossdb.Common.{
  ℕ, String, Bool, true, false, Option, none, some, List, [], ◌∷◌, ◌++◌, Result, ok, raise, Exec,
  ◌>>=◌, ◌>>◌, pure, lift, gets,
}
use krossdb.Config.{master}
use krossdb.Errors.{Exn}
use krossdb.Errors.Mapper.{Registry, Context, translate_exceptions}
use krossdb.Events.{OutboxRecord, OutboxStore}
use krossdb.Events.Outbox.{validate_fetch_args}
use krossdb.Adapter.Relational.{State, Respond, Call, execute}
use krossdb.Adapter.Relational.Session.{acquire}
use krossdb.Uow.{Uow, init, commit, hook, with_uow}
use krossdb.Uow.Sqlalchemy.{SqlUow, on_adapter, sql_backend}

-- The statements on the outbox table.
pub data Statement : Type 0 where
  insert_record : OutboxRecord → Statement
  -- Of records that are not published, with fewer attempts than the maximum, the oldest first,
  -- `FOR UPDATE SKIP LOCKED`.
  select_unpublished : ℕ → Option ℕ → Statement
  set_published : List String → ℕ → Statement
  add_attempt : List String → Statement

pub record Database : Type 0 where
  pub compiled : Statement → String
  pub rows : List Call → Statement → Result Exn (List OutboxRecord)
  pub done : List Call → Statement → Result Exn Unit
  -- The construction of an `OutboxRecord` from a row.
  pub decoded : OutboxRecord → Result Exn OutboxRecord

-- `self`, and what its calls reach.
pub record SqlAlchemyOutboxStore : Type 0 where
  pub registry : Registry
  pub respond : Respond
  pub database : Database
  pub context : Context
  pub table_name : String

module _ (self : SqlAlchemyOutboxStore) where
  open self use {registry, respond, database, context, table_name}

  -- `await session.execute(stmt)`
  abbrev pub execute_for :
      {A : Type 0} → (List Call → Statement → Result Exn A) → ℕ → Statement → Exec State Exn A
  execute_for answer session stmt s = (
    answer s.history stmt,
    record s { history = s.history ++ execute session (database.compiled stmt) ∷ [] },
  )

  -- `async with self.adapter.acquire() as session: with translate_exceptions(...)` around a block.
  abbrev pub in_session : {A : Type 0} → String → (ℕ → Exec State Exn A) → Exec State Exn A
  in_session op block =
      acquire registry respond context
        (λ session.
          translate_exceptions registry (("table", table_name) ∷ ("op", op) ∷ []) (block session))
        master

  unfoldable pub insert_each : ℕ → List OutboxRecord → Exec State Exn Unit
  insert_each session [] = pure tt
  insert_each session (r ∷ rs) =
      execute_for database.done session (insert_record r) >> insert_each session rs

  unfoldable pub save : List OutboxRecord → Exec State Exn Unit
  unfolding insert_each
  save [] = pure tt
  save (r ∷ rs) = in_session "outbox_save" (λ session. insert_each session (r ∷ rs))

  abbrev pub decode_all : List OutboxRecord → Exec State Exn (List OutboxRecord)
  decode_all [] = pure []
  decode_all (r ∷ rs) = lift (database.decoded r) >>= λ x. decode_all rs >>= λ xs. pure (x ∷ xs)

  unfoldable pub fetch_unpublished : ℕ → Option ℕ → Exec State Exn (List OutboxRecord)
  unfolding validate_fetch_args
  fetch_unpublished limit max_attempts = do
    validate_fetch_args limit max_attempts
    rows ←
        in_session "outbox_fetch"
          (λ session. execute_for database.rows session (select_unpublished limit max_attempts))
    decode_all rows

  unfoldable pub mark_published : List String → Exec State Exn Unit
  mark_published [] = pure tt
  mark_published (i ∷ is) = do
    now ← gets (λ s. s.clock)
    in_session "outbox_mark_published"
        (λ session. execute_for database.done session (set_published (i ∷ is) now))

  unfoldable pub record_failed_attempts : List String → Exec State Exn Unit
  record_failed_attempts [] = pure tt
  record_failed_attempts (i ∷ is) =
      in_session "outbox_record_failed_attempts"
        (λ session. execute_for database.done session (add_attempt (i ∷ is)))

  -- `async with SQLAlchemyUnitOfWork(self.adapter) as uow: yield; await uow.commit()`, where the
  -- unit has no outbox of its own.
  unfoldable pub claim : Exec State Exn ℕ → Exec State Exn ℕ
  claim body s =
      let backend = sql_backend registry respond none in
      let unit = init (record { adapter = s; session = none; bind_token = none }) in
      let block : Exec (Uow SqlUow) Exn ℕ =
        hook (on_adapter body) >>= λ n. commit backend >> pure n in
      let (r, u) = with_uow backend block unit in (r, u.world.adapter)

  abbrev pub sql_store : OutboxStore State
  sql_store = record {
    save = save;
    claim = claim;
    fetch_unpublished = fetch_unpublished;
    mark_published = mark_published;
    record_failed_attempts = record_failed_attempts;
  }
