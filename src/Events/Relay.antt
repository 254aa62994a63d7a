-- ===== src/Events/Relay.antt =====
-- events/relay.py: `OutboxRelay` over any store, with the publisher as an argument.
pub mod Batch
pub mod InClaim
use krossdb.Common.{
  ℕ, String, Bool, true, false, Option, none, some, List, [], ◌∷◌, ◌++◌, Result, ok, raise, Exec,
  ◌>>=◌, ◌>>◌, pure, throw, length, leb, not, if◌then◌else◌, throw_if, continue,
}
use krossdb.Errors.{Exn, library, driver, cancelled, value_error}
use krossdb.Events.{OutboxRecord, OutboxStore, rejects}

pub record RelayConfig : Type 0 where
  pub batch_size : ℕ
  pub max_attempts : Option ℕ

-- `OutboxRelay.__init__`
unfoldable pub create : ℕ → Option ℕ → Result Exn RelayConfig
create batch_size max_attempts =
    if leb batch_size 0
    then raise value_error
    else if rejects max_attempts
    then raise value_error
    else ok (record { batch_size = batch_size; max_attempts = max_attempts })

module _ {S : Type 0} (store : OutboxStore S) (publish : OutboxRecord → Exec S Exn Unit) where
  -- Where the outcome of one `publish` puts the record's id: `published` or `failed`.
  unfoldable pub sort_outcome :
      String
      → List String
      → List String
      → Result Exn Unit × S
      → Result Exn (List String × List String) × S
  sort_outcome id published failed (ok _, s) = (ok (published ++ id ∷ [], failed), s)
  sort_outcome id published failed (raise cancelled, s) = (raise cancelled, s)
  sort_outcome id published failed (raise e, s) = (ok (published, failed ++ id ∷ []), s)

  -- The loop of `run_once` over the fetched records.
  unfoldable pub publish_all :
      List OutboxRecord → List String → List String → Exec S Exn (List String × List String)
  unfolding sort_outcome
  publish_all [] published failed s = (ok (published, failed), s)
  publish_all (r ∷ rs) published failed s =
      let (out, s') = sort_outcome r.id published failed (publish r s) in
      continue out (λ p. publish_all rs p.0 p.1) s'

  abbrev pub record_failures : List String → Exec S Exn Unit
  record_failures [] = pure tt
  record_failures (id ∷ ids) = store.record_failed_attempts (id ∷ ids)

  unfoldable pub run_once : RelayConfig → Exec S Exn ℕ
  unfolding publish_all
  run_once cfg = store.claim (do
    records ← store.fetch_unpublished cfg.batch_size cfg.max_attempts
    split ← publish_all records [] []
    store.mark_published split.0
    record_failures split.1
    pure (length split.0))

  -- The number that a batch counts for in `run`; a batch that raises counts for none.
  abbrev counted : Result Exn ℕ × S → Result Exn ℕ × S
  counted (ok n, s) = (ok n, s)
  counted (raise cancelled, s) = (raise cancelled, s)
  counted (raise e, s) = (ok 0, s)

  -- `run` as far as a list of observations of `stop` goes: `true` ends the loop. It returns, for
  -- each batch, whether the loop slept after it.
  unfoldable pub rounds : RelayConfig → List Bool → Exec S Exn (List Bool)
  unfolding run_once
  rounds cfg [] s = (ok [], s)
  rounds cfg (true ∷ _) s = (ok [], s)
  rounds cfg (false ∷ stops) s =
      (do
        n ← λ t. counted (run_once cfg t)
        slept ← rounds cfg stops
        pure (not (leb cfg.batch_size n) ∷ slept))
        s

  unfoldable pub run : RelayConfig → ℕ → List Bool → Exec S Exn (List Bool)
  unfolding rounds
  run cfg poll_interval stops = throw_if (leb poll_interval 0) value_error >> rounds cfg stops
