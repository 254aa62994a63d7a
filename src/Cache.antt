-- ===== src/Cache.antt =====
-- interfaces/cache.py: `cache_aside` and `invalidate` over any cache, and core/idempotency.py:
-- `IdempotencyManager`. Encoding to JSON, decoding, and the hash of a payload are arguments, and so is
-- the type of what a cache stores.
pub mod Replay
pub mod Redis
mod Tests
use krossdb.Common.{
  ℕ, String, Bool, true, false, not, Option, none, some, Result, ok, raise, Exec, ◌>>=◌, ◌>>◌, pure,
  throw, lift, leb, ◌==◌, if◌then◌else◌,
}
use krossdb.Common.Text.{◌+++◌}
use krossdb.Errors.{Exn, error, value_error, idempotency_conflict_error}

pub record Cache (S Bytes : Type 0) : Type 0 where
  pub get : String → Exec S Exn (Option Bytes)
  pub set : String → Bytes → Option ℕ → Exec S Exn Unit
  pub delete : String → Exec S Exn Unit

module _ {S Bytes : Type 0} (cache : Cache S Bytes) where
  -- How a model is written to the cache and read back.
  module _ {T : Type 0} (encode : T → Bytes) (decode : Bytes → Result Exn T) where
    abbrev load : String → Option ℕ → Exec S Exn T → Option Bytes → Exec S Exn T
    load key ttl loader (some cached) = lift (decode cached)
    load key ttl loader none = loader >>= λ value. cache.set key (encode value) ttl >> pure value

    unfoldable pub cache_aside : String → Exec S Exn T → Option ℕ → Exec S Exn T
    cache_aside key loader ttl = cache.get key >>= load key ttl loader

  unfoldable pub invalidate : String → Exec S Exn Unit
  invalidate key = cache.delete key

pub record Manager : Type 0 where
  pub ttl_seconds : ℕ
  pub namespace : String

-- `IdempotencyManager(cache, ttl_seconds=..., namespace=...)`
unfoldable pub create : ℕ → String → Result Exn Manager
create ttl_seconds namespace =
    if leb ttl_seconds 0
    then raise value_error
    else if namespace == ""
    then raise value_error
    else ok (record { ttl_seconds = ttl_seconds; namespace = namespace })

unfoldable pub cache_key : Manager → String → String
cache_key m idempotency_key = m.namespace +++ ":" +++ idempotency_key

-- What `run` stores: the fingerprint and the result's JSON, written and read as one text.
pub record Format (Bytes : Type 0) : Type 0 where
  pub dumps : String × String → Bytes
  pub loads : Bytes → Result Exn (String × String)

module _ {S Bytes T : Type 0} (cache : Cache S Bytes) (format : Format Bytes) (encode : T → String)
    (decode : String → Result Exn T) where
  abbrev replayed : String → String × String → Result Exn T
  replayed fingerprint (stored, result) =
      if not (stored == fingerprint)
      then raise (error idempotency_conflict_error)
      else decode result

  abbrev answer : Manager → String → String → Exec S Exn T → Option Bytes → Exec S Exn T
  answer m key fingerprint operation (some cached) =
      lift (format.loads cached) >>= λ envelope. lift (replayed fingerprint envelope)
  answer m key fingerprint operation none = do
    result ← operation
    cache.set key (format.dumps (fingerprint, encode result)) (some m.ttl_seconds)
    pure result

  -- `run`, by the fingerprint of its payload, with the lock of the key held.
  unfoldable pub run : Manager → String → String → Exec S Exn T → Exec S Exn T
  unfolding cache_key
  run m idempotency_key fingerprint operation s =
      if idempotency_key == ""
      then (raise value_error, s)
      else (cache.get (cache_key m idempotency_key)
            >>= answer m (cache_key m idempotency_key) fingerprint operation)
          s
