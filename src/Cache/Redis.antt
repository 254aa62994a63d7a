-- ===== src/Cache/Redis.antt =====
-- cache/redis_cache.py: `RedisCache`. The client is an argument, a record of its calls; a scan
-- gives the keys that match a pattern.
use text.Mathlib.TextLemmas.{append_cancel_left}
use krossdb.Common.{
  ℕ, ◌+◌, String, Bool-cases, inl, inr, Bool, false, Option, some, List, [], ◌∷◌, ok, Exec, ◌>>=◌,
  ◌>>◌, pure, ltb, ◌==◌, eq_iff, ◌≡◌, refl, arith,
}
use krossdb.Common.Text.{◌+++◌}
use krossdb.Errors.{Exn}
use krossdb.Errors.Mapper.{Registry, translate_exceptions, on_error}
use krossdb.Cache.{Cache}
use krossdb.Cache.Replay.{Keeps}

pub record Client (W Bytes : Type 0) : Type 0 where
  pub get : String → Exec W Exn (Option Bytes)
  pub set : String → Bytes → Option ℕ → Exec W Exn Unit
  pub delete : String → Exec W Exn ℕ
  pub exists : String → Exec W Exn ℕ
  pub scan_iter : String → Exec W Exn (List String)

-- `_prefixed`
abbrev pub prefixed : String → String → String
prefixed key_prefix key = key_prefix +++ ":" +++ key

module _ {W Bytes : Type 0} (registry : Registry) (client : Client W Bytes)
    (key_prefix : String) where
  abbrev pub translated : {A : Type 0} → String → Exec W Exn A → Exec W Exn A
  translated op call = translate_exceptions registry (("cache", "redis") ∷ ("op", op) ∷ []) call

  unfoldable pub exists : String → Exec W Exn Bool
  exists key = translated "exists" (client.exists (prefixed key_prefix key)) >>= λ n. pure (ltb 0 n)

  -- The loop over the scan; an exception ends it.
  abbrev pub delete_each : List String → ℕ → Exec W Exn ℕ
  delete_each [] removed = pure removed
  delete_each (key ∷ keys) removed = client.delete key >> delete_each keys (removed + 1)

  unfoldable pub clear_prefix : String → Exec W Exn ℕ
  clear_prefix prefix =
      translated "clear_prefix"
        (client.scan_iter (prefixed key_prefix (prefix +++ "*")) >>= λ keys. delete_each keys 0)

  -- The class as a cache.
  abbrev pub redis_cache : Cache W Bytes
  redis_cache = record {
    get = λ key. translated "get" (client.get (prefixed key_prefix key));
    set = λ key value ttl_seconds.
        translated "set" (client.set (prefixed key_prefix key) value ttl_seconds);
    delete = λ key. translated "delete" (client.delete (prefixed key_prefix key)) >> pure tt;
  }

-- The prefixed key determines the key.
prefixed-cancel : (p k j : String) → prefixed p k ≡ prefixed p j → k ≡ j
prefixed-cancel p k j h = append_cancel_left ":" k j (append_cancel_left p _ _ h)

prefixed-apart : (p k j : String) → (k == j) ≡ false → (prefixed p k == prefixed p j) ≡ false
prefixed-apart p k j h = elim (Bool-cases (prefixed p k == prefixed p j)) [
  | inl b ↦
      let same : k ≡ j = prefixed-cancel p k j ((eq_iff (prefixed p k) (prefixed p j)).0 b) in
      absurd (ground (arith, eq_iff k j))
  | inr b ↦ b
]

-- What a Redis client documents: a `GET` gives what the last `SET` of the key gave, if that has
-- not expired, and a `SET` of one key leaves the others.
pub record Stores {W Bytes : Type 0} (client : Client W Bytes) : Type 0 where
  pub set_ok : (k : String) (v : Bytes) (ttl : Option ℕ) (w : W) → (client.set k v ttl w).0 ≡ ok tt
  pub set_get :
      (k : String) (v : Bytes) (ttl : Option ℕ) (w : W)
      → client.get k (client.set k v ttl w).1 ≡ (ok (some v), (client.set k v ttl w).1)
  pub set_apart :
      (k j : String) (v : Bytes) (ttl : Option ℕ) (w : W)
      → (k == j) ≡ false
      → (client.get j (client.set k v ttl w).1).0 ≡ (client.get j w).0

module _ {W Bytes : Type 0} (registry : Registry) (client : Client W Bytes) (stores : Stores client)
    (key_prefix : String) where
  -- The cache answers a `get` after a `set` of the same key with the value that was set, and a
  -- `get` of every other key as it did before, whatever the prefix is and whatever the keys
  -- contain.
  pub redis_cache-set :
      (k : String) (v : Bytes) (ttl : Option ℕ) (w : W)
      → let cache = redis_cache registry client key_prefix in
        let after = (cache.set k v ttl w).1 in
        ((cache.set k v ttl w).0 ≡ ok tt)
        × (cache.get k after ≡ (ok (some v), after))
        × ((j : String) → (k == j) ≡ false → (cache.get j after).0 ≡ (cache.get j w).0)
  unfolding translate_exceptions on_error
  redis_cache-set k v ttl w = (
    rw (stores.set_ok (prefixed key_prefix k) v ttl w) refl,
    rw (stores.set_get (prefixed key_prefix k) v ttl w) refl,
    λ j h.
        rw
          (stores.set_apart (prefixed key_prefix k) (prefixed key_prefix j) v ttl w
            (prefixed-apart key_prefix k j h))
          refl,
  )

  -- So it keeps what the replay of a call relies on.
  pub redis_cache-Keeps : Keeps (redis_cache registry client key_prefix)
  redis_cache-Keeps = record {
    set_get = λ k v ttl w. (redis_cache-set k v ttl w).1;
    set_ok = λ k v ttl w. (redis_cache-set k v ttl w).0;
  }
