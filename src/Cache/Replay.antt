-- ===== src/Cache/Replay.antt =====
-- A call with an idempotency key, and its replay, over a cache that keeps what it is given.
use krossdb.Common.{
  ℕ, String, false, Option, none, some, Result, ok, raise, Exec, ◌==◌, ◌≡◌, refl, ap, eq_refl,
}
use krossdb.Errors.{Exn, error, idempotency_conflict_error}
use krossdb.Cache.{Cache, Manager, Format, cache_key, run, cache_aside}

-- What the replay relies on: after a `set` the cache answers a `get` of that key, the entry not
-- having expired. What is written as JSON is read back, where a theorem says so.
pub record Keeps {S Bytes : Type 0} (cache : Cache S Bytes) : Type 0 where
  pub set_get :
      (k : String) (v : Bytes) (ttl : Option ℕ) (s : S)
      → cache.get k (cache.set k v ttl s).1 ≡ (ok (some v), (cache.set k v ttl s).1)
  pub set_ok : (k : String) (v : Bytes) (ttl : Option ℕ) (s : S) → (cache.set k v ttl s).0 ≡ ok tt

module _ {S Bytes T : Type 0} (cache : Cache S Bytes) (keeps : Keeps cache) where
  -- A first call runs the operation and returns its result. A second call with the same key and
  -- the same fingerprint returns that result and runs nothing: it leaves the state as it is,
  -- whatever operation it was given. A second call with another fingerprint is a conflict, and
  -- runs nothing either.
  pub run-replay :
      (encode : T → String) (decode : String → Result Exn T) (format : Format Bytes)
      → ((y : T) → decode (encode y) ≡ ok y)
      → ((e : String × String) → format.loads (format.dumps e) ≡ ok e)
      → (m : Manager) (key fingerprint other : String) (operation again : Exec S Exn T) (s s' : S)
        (x : T)
      → (key == "") ≡ false
      → (fingerprint == other) ≡ false
      → cache.get (cache_key m key) s ≡ (ok none, s)
      → operation s ≡ (ok x, s')
      → let first = run cache format encode decode m key fingerprint operation s in
        (first.0 ≡ ok x)
        × (run cache format encode decode m key fingerprint again first.1 ≡ (ok x, first.1))
        × (run cache format encode decode m key other again first.1
            ≡ (raise (error idempotency_conflict_error), first.1))
  unfolding run
  run-replay encode decode format decode-encode loads-dumps m key fingerprint other operation again
        s s' x k o miss ran =
      let v = format.dumps (fingerprint, encode x) in
      let ck = cache_key m key in
      let stored = keeps.set_ok ck v (some m.ttl_seconds) s' in
      let hit = keeps.set_get ck v (some m.ttl_seconds) s' in
      rw (k, miss, ran, stored)
        (
          refl,
          rw (hit, loads-dumps, eq_refl)
              (ap (λ r. (r, (cache.set ck v (some m.ttl_seconds) s').1)) (decode-encode x)),
          rw (hit, loads-dumps, o) refl,
        )

  -- A read through the cache on a miss runs the loader, returns its value, and makes the next
  -- read of the key return the same value without running a loader.
  pub cache_aside-hit :
      (encode : T → Bytes) (decode : Bytes → Result Exn T)
      → ((y : T) → decode (encode y) ≡ ok y)
      → (key : String) (ttl : Option ℕ) (loader again : Exec S Exn T) (s s' : S) (x : T)
      → cache.get key s ≡ (ok none, s)
      → loader s ≡ (ok x, s')
      → let first = cache_aside cache encode decode key loader ttl s in
        (first.0 ≡ ok x) × (cache_aside cache encode decode key again ttl first.1 ≡ (ok x, first.1))
  unfolding cache_aside
  cache_aside-hit encode decode decode-encode key ttl loader again s s' x miss ran =
      let stored = keeps.set_ok key (encode x) ttl s' in
      let hit = keeps.set_get key (encode x) ttl s' in
      rw (miss, ran, stored)
        (refl, rw hit (ap (λ r. (r, (cache.set key (encode x) ttl s').1)) (decode-encode x)))
