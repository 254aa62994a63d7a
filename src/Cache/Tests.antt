-- ===== src/Cache/Tests.antt =====
-- A replayed call, over a cache that is a dict.
use krossdb.Common.{ℕ, ◌+◌, String, none, [], ◌≡◌, refl, ok, raise, Exec, eq_refl, ap, ◌∙◌}
use krossdb.Common.Dict.{Dict, lookup, put, delete, lookup-put}
use krossdb.Errors.{Exn, error, idempotency_conflict_error}
use krossdb.Cache.{Cache, Manager, Format, run}
use krossdb.Errors.Mapper.{translate_exceptions}
use krossdb.Cache.Redis.{Client, redis_cache, Stores, redis_cache-set}
use krossdb.Cache.Replay.{Keeps, run-replay}

-- The entries, and how often the operation ran.
abbrev Memory : Type 0
Memory = Dict (String × String) × ℕ

in_dict : Cache Memory (String × String)
unfolding lookup put delete
in_dict = record {
  get = λ k s. (ok (lookup k s.0), s);
  set = λ k v ttl s. (ok tt, (put k v s.0, s.1));
  delete = λ k s. (ok tt, (delete k s.0, s.1));
}

in_dict-Keeps : Keeps in_dict
unfolding in_dict
in_dict-Keeps = record {
  set_get = λ k v ttl s. rw (lookup-put, eq_refl) refl;
  set_ok = λ k v ttl s. refl;
}

abbrev pairs : Format (String × String)
pairs = record { dumps = λ e. e; loads = ok }

abbrev manager : Manager
manager = record { ttl_seconds = 60; namespace = "idem" }

abbrev charge : Exec Memory Exn String
charge (d, n) = (ok "paid", (d, n + 1))

run-replay_example :
    let first = run in_dict pairs (λ x. x) ok manager "k" "f" charge ([], 0) in
    (first.0 ≡ ok "paid")
    × (run in_dict pairs (λ x. x) ok manager "k" "f" charge first.1 ≡ (ok "paid", first.1))
    × (run in_dict pairs (λ x. x) ok manager "k" "g" charge first.1
        ≡ (raise (error idempotency_conflict_error), first.1))
unfolding in_dict
run-replay_example =
    run-replay in_dict in_dict-Keeps (λ x. x) ok pairs (λ y. refl) (λ e. refl) manager "k" "f" "g"
      charge charge ([], 0) ([], 1) "paid" refl refl refl refl

abbrev read : Exec Memory Exn (String × String)
read (d, n) = (ok ("a", "b"), (d, n + 1))

-- Redis as a dict.
abbrev redis : Client (Dict String) String
redis = record {
  get = λ k w. (ok (lookup k w), w);
  set = λ k v ttl w. (ok tt, put k v w);
  delete = λ k w. (ok 1, delete k w);
  exists = λ k w. (ok 0, w);
  scan_iter = λ pattern w. (ok [], w);
}

redis-Stores : Stores redis
redis-Stores = record {
  set_ok = λ k v ttl w. refl;
  set_get = λ k v ttl w. rw (lookup-put, eq_refl) refl;
  set_apart = λ k j v ttl w h. ap ok (lookup-put k j v w ∙ rw h refl);
}

redis_cache-set_example :
    let cache = redis_cache [] redis "krossdb" in
    (cache.get "b" (cache.set "a" "1" none []).1).0 ≡ ok none
unfolding lookup translate_exceptions
redis_cache-set_example =
    (redis_cache-set [] redis redis-Stores "krossdb" "a" "1" none []).2 "b" refl
