-- ===== src/Events/Outbox.antt =====
-- events/outbox.py: the in-memory store. Its state stands beside the clock and the rest of the
-- world; limits that are not positive are the number 0.
pub mod Laws
use krossdb.Common.{
  ℕ, ◌+◌, String, Bool, true, false, not, ◌&&◌, Option, none, some, List, [], ◌∷◌, Result, ok,
  raise, Exec, ◌>>=◌, ◌>>◌, pure, gets, throw_if, filter, take, ltb, leb, is_some, if◌then◌else◌,
  modify,
}
use krossdb.Common.Dict.{Dict, lookup, put, values}
use krossdb.Errors.{Exn, value_error}
use krossdb.Events.{OutboxRecord, OutboxStore, default_claim, rejects}

pub record Shop (W : Type 0) : Type 0 where
  pub records : Dict OutboxRecord
  pub now : ℕ
  pub world : W

abbrev below : ℕ → Option ℕ → Bool
below attempts none = true
below attempts (some m) = ltb attempts m

-- The condition of the list comprehension in `fetch_unpublished`.
unfoldable pub eligible : Option ℕ → OutboxRecord → Bool
eligible max_attempts r = not (is_some r.published_at) && below r.attempts max_attempts

-- `_validate_fetch_args`
unfoldable pub validate_fetch_args : {S : Type 0} → ℕ → Option ℕ → Exec S Exn Unit
validate_fetch_args limit max_attempts =
    throw_if (leb limit 0) value_error >> throw_if (rejects max_attempts) value_error

save_all : List OutboxRecord → Dict OutboxRecord → Dict OutboxRecord
save_all [] d = d
save_all (r ∷ rs) d = save_all rs (put r.id r d)

abbrev change :
    (OutboxRecord → OutboxRecord)
    → String
    → Option OutboxRecord
    → Dict OutboxRecord
    → Dict OutboxRecord
change f id none d = d
change f id (some r) d = put id (f r) d

-- `for id in ids: record = get(id); if record is not None: records[id] = f(record)`.
unfoldable pub change_all :
    (OutboxRecord → OutboxRecord) → List String → Dict OutboxRecord → Dict OutboxRecord
change_all f [] d = d
change_all f (id ∷ ids) d = change_all f ids (change f id (lookup id d) d)

unfoldable pub stamp : ℕ → OutboxRecord → OutboxRecord
stamp now r = record r { published_at = some now }

unfoldable pub bump : OutboxRecord → OutboxRecord
bump r = record r { attempts = r.attempts + 1 }

module _ {W : Type 0} where
  unfoldable pub save : List OutboxRecord → Exec (Shop W) Exn Unit
  unfolding save_all
  save rs = modify (λ s. record s { records = save_all rs s.records })

  unfoldable pub fetch_unpublished : ℕ → Option ℕ → Exec (Shop W) Exn (List OutboxRecord)
  unfolding validate_fetch_args eligible
  fetch_unpublished limit max_attempts = do
    validate_fetch_args limit max_attempts
    gets (λ s. take limit (filter (eligible max_attempts) (values s.records)))

  unfoldable pub mark_published : List String → Exec (Shop W) Exn Unit
  unfolding change_all stamp
  mark_published ids = modify (λ s. record s { records = change_all (stamp s.now) ids s.records })

  unfoldable pub record_failed_attempts : List String → Exec (Shop W) Exn Unit
  unfolding change_all bump
  record_failed_attempts ids = modify (λ s. record s { records = change_all bump ids s.records })

  -- The store as the interface, with the default `claim`.
  abbrev pub in_memory : OutboxStore (Shop W)
  in_memory = record {
    save = save;
    claim = default_claim;
    fetch_unpublished = fetch_unpublished;
    mark_published = mark_published;
    record_failed_attempts = record_failed_attempts;
  }
