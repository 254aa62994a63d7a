-- ===== src/Events/Relay/Batch.antt =====
-- One batch of the relay over the in-memory store, with a publisher that writes a log and
-- delivers exactly the records that `accepts` takes.
use krossdb.Common.{
  ℕ, ◌≤◌, String, Bool, not, Option, some, List, [], ◌∷◌, ◌++◌, ok, raise, Exec, filter, take,
  if◌then◌else◌, ◌≡◌, ◌⊎◌,
}
use krossdb.Common.Dict.{values}
use krossdb.Errors.{Exn, runtime_error}
use krossdb.Events.{OutboxRecord}
use krossdb.Events.Outbox.{Shop, eligible, change_all, stamp, bump}
use krossdb.Events.Outbox.Laws.{ids}
use krossdb.Events.Relay.{RelayConfig}

-- The world of the publisher is the log of the records it was handed.
abbrev pub Log : Type 0
Log = List OutboxRecord

abbrev pub publisher : (OutboxRecord → Bool) → OutboxRecord → Exec (Shop Log) Exn Unit
publisher accepts r s =
    (if accepts r then ok tt else raise runtime_error, record s { world = s.world ++ r ∷ [] })

module _ (accepts : OutboxRecord → Bool) where
  -- The records that a batch takes from a store.
  abbrev pub batch : RelayConfig → Shop Log → List OutboxRecord
  batch cfg s = take cfg.batch_size (filter (eligible cfg.max_attempts) (values s.records))

  abbrev pub delivered : RelayConfig → Shop Log → List String
  delivered cfg s = ids (filter accepts (batch cfg s))

  abbrev pub refused : RelayConfig → Shop Log → List String
  refused cfg s = ids (filter (λ r. not (accepts r)) (batch cfg s))

  abbrev after : RelayConfig → Shop Log → Shop Log
  after cfg s = record s {
    records =
        change_all bump (refused cfg s) (change_all (stamp s.now) (delivered cfg s) s.records);
    world = s.world ++ batch cfg s;
  }

  -- The record has a time of publication, or as many attempts as are allowed.
  abbrev pub IsDone : Option ℕ → OutboxRecord → Type 0
  IsDone max_attempts r =
      ((at : ℕ) × (r.published_at ≡ some at))
      ⊎ ((m : ℕ) × (max_attempts ≡ some m) × (m ≤ r.attempts))
