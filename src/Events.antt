-- ===== src/Events.antt =====
-- interfaces/events.py: domain events, outbox records, and the contract of an outbox store.
pub mod Outbox
pub mod SqlStore
pub mod Relay
pub mod Dispatcher
mod Tests
use krossdb.Common.{ℕ, String, Bool, false, leb, Option, none, some, List, Exec, throw}
use krossdb.Errors.{Exn, not_implemented_error}

-- `event_type` is the class's name; `fields` is the dump of the event.
pub record DomainEvent : Type 0 where
  pub event_id : String
  pub event_type : String
  pub occurred_at : ℕ
  pub fields : String

pub record OutboxRecord : Type 0 where
  pub id : String
  pub event_type : String
  pub payload : String
  pub created_at : ℕ
  pub published_at : Option ℕ
  pub attempts : ℕ

-- `max_attempts is not None and max_attempts <= 0`
abbrev pub rejects : Option ℕ → Bool
rejects none = false
rejects (some m) = leb m 0

-- What the relay and a Unit of Work ask of a store over a state `S`.
pub record OutboxStore (S : Type 0) : Type 0 where
  pub save : List OutboxRecord → Exec S Exn Unit
  pub claim : Exec S Exn ℕ → Exec S Exn ℕ
  pub fetch_unpublished : ℕ → Option ℕ → Exec S Exn (List OutboxRecord)
  pub mark_published : List String → Exec S Exn Unit
  pub record_failed_attempts : List String → Exec S Exn Unit

module _ {S : Type 0} where
  -- The defaults of the abstract class: no locking, and no counting.
  unfoldable pub default_claim : Exec S Exn ℕ → Exec S Exn ℕ
  default_claim body = body

  unfoldable pub default_record_failed_attempts : List String → Exec S Exn Unit
  default_record_failed_attempts ids = throw not_implemented_error
