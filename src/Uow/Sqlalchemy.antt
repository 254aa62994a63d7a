-- ===== src/Uow/Sqlalchemy.antt =====
-- uow/sqlalchemy_uow.py: the hooks of the Unit of Work over the relational adapter. The state is
-- the adapter's with the unit's session and its token for the binding.
pub mod Blocks
pub mod Ends
use krossdb.Common.{
  ℕ, String, Bool, true, false, Option, none, some, List, [], ◌∷◌, ◌++◌, Result, ok, raise, Exec,
  ◌>>=◌, ◌>>◌, pure, throw, modify, gets, length, map,
}
use krossdb.Errors.{Exn, assertion_error}
use krossdb.Errors.Mapper.{Registry, translate_exceptions}
use krossdb.Config.{master}
use krossdb.Events.{DomainEvent, OutboxRecord}
use krossdb.Adapter.Relational.{
  State, Respond, begin, commit, rollback, close, open_session, request, select_key,
}
use krossdb.Adapter.Relational.Session.{bind_session, unbind_session}
use krossdb.Uow.{Backend, default_persist_events}

pub record SqlUow : Type 0 where
  pub adapter : State
  pub session : Option ℕ
  pub bind_token : Option (Option ℕ)

abbrev pub on_adapter : {A : Type 0} → Exec State Exn A → Exec SqlUow Exn A
on_adapter m u = let (r, s) = m u.adapter in (r, record u { adapter = s })

-- `OutboxRecord(...)` for each event.
unfoldable pub outbox_record : DomainEvent → OutboxRecord
outbox_record e = record {
  id = e.event_id;
  event_type = e.event_type;
  payload = e.fields;
  created_at = e.occurred_at;
  published_at = none;
  attempts = 0;
}

abbrev or_assert : Option ℕ → Exec SqlUow Exn ℕ
or_assert none = throw assertion_error
or_assert (some n) = pure n

module _ (registry : Registry) (respond : Respond) where
  -- The session is stored before `session.begin()`, and bound to the task after it.
  unfoldable pub sql_begin : Exec SqlUow Exn Unit
  unfolding request bind_session
  sql_begin = do
    key ← on_adapter (select_key master)
    n ← gets (λ u. length u.adapter.history)
    modify (λ u. record u {
      adapter = (request respond (open_session key) u.adapter).1;
      session = some n;
    })
    on_adapter (request respond (begin n))
    modify (λ u. record u {
      bind_token = some u.adapter.active_session;
      adapter = bind_session n u.adapter;
    })

  unbind : Option (Option ℕ) → SqlUow → SqlUow
  unfolding unbind_session
  unbind none u = u
  unbind (some t) u = record u { adapter = unbind_session t u.adapter; bind_token = none }

  -- `self.session = None`, which a failing close does not reach.
  abbrev kept : Result Exn Unit → Option ℕ → Option ℕ
  kept (ok _) o = none
  kept (raise e) o = o

  close_session : Option ℕ → Exec SqlUow Exn Unit
  unfolding request
  close_session none u = (ok tt, u)
  close_session (some n) u =
      let (r, v) = on_adapter (request respond (close n)) u in
      (r, record v { session = kept r v.session })

  unfoldable pub teardown : Exec SqlUow Exn Unit
  unfolding unbind close_session
  teardown u = let v = unbind u.bind_token u in close_session v.session v

  -- `try: m finally: teardown`, where what the teardown raises hides what `m` raised.
  abbrev hide : Result Exn Unit → Result Exn Unit → Result Exn Unit
  hide (ok _) r = r
  hide (raise e) r = raise e

  torn_down : Result Exn Unit × SqlUow → Result Exn Unit × SqlUow
  unfolding teardown
  torn_down (r, u) = let (x, v) = teardown u in (hide x r, v)

  unfoldable pub sql_commit : Exec SqlUow Exn Unit
  unfolding torn_down translate_exceptions request
  sql_commit = do
    n ← λ u. or_assert u.session u
    λ u. torn_down (
        on_adapter
          (translate_exceptions registry
            (("connection", u.adapter.config.name) ∷ ("op", "commit") ∷ [])
            (request respond (commit n)))
          u)

  unfoldable pub sql_rollback : Exec SqlUow Exn Unit
  unfolding torn_down translate_exceptions request
  sql_rollback = do
    n ← λ u. or_assert u.session u
    λ u. torn_down (
        on_adapter
          (translate_exceptions registry
            (("connection", u.adapter.config.name) ∷ ("op", "rollback") ∷ [])
            (request respond (rollback n)))
          u)

  -- The hook for events, with or without an outbox store.
  unfoldable pub sql_persist :
      Option (List OutboxRecord → Exec SqlUow Exn Unit) → List DomainEvent → Exec SqlUow Exn Unit
  unfolding default_persist_events outbox_record
  sql_persist none events = default_persist_events events
  sql_persist (some save) events = save (map outbox_record events)

  -- The class as a backend of the abstract unit.
  abbrev pub sql_backend : Option (List OutboxRecord → Exec SqlUow Exn Unit) → Backend SqlUow
  sql_backend outbox = record {
    begin = sql_begin;
    commit = sql_commit;
    rollback = sql_rollback;
    persist_events = sql_persist outbox;
  }
