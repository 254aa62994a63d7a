-- ===== src/Adapter/Relational/Selection.antt =====
-- Which node serves a call.
use krossdb.Common.{
  String, true, false, some, ok, raise, ◌≡◌, refl, ◌⊎◌, inl, inr, arith, Result-cases, Option-cases,
}
use krossdb.Config.{RoutingRole, master, replica}
use krossdb.Errors.{error, configuration_error}
use krossdb.Resilience.Breaker.{Breaker, allows_calls}
use krossdb.Adapter.Routing.{LoadBalancer, next}
use krossdb.Common.Dict.{lookup}
use krossdb.Adapter.Relational.{State, allowed_or, select_key}

-- `k` is the next choice of the balancer, and its breaker lets calls through.
pub record IsLiveReplica (s : State) (k : String) : Type 0 where
  pub balancer : LoadBalancer
  pub breaker : Breaker
  pub configured : s.replica_balancer ≡ some balancer
  pub chosen : (next balancer).0 ≡ some k
  pub known : lookup k s.breakers ≡ some breaker
  pub allowed : allows_calls s.config.circuit_breaker s.clock breaker ≡ ok true

-- A write goes to the master and leaves the balancer alone; without a master nothing is chosen.
pub select_key-master :
    (s : State)
    → (select_key master s ≡ (raise (error configuration_error), s))
      ⊎ ((m : String) × (s.master_key ≡ some m) × (select_key master s ≡ (ok m, s)))
unfolding select_key
select_key-master s = elim (Option-cases s.master_key) [
  | inl e ↦ inl (ground arith)
  | inr (m, e) ↦ inr (m, e, ground arith)
]

allowed_or_sound :
    (s t : State) (fallback key k : String)
    → allowed_or fallback key s ≡ (ok k, t)
    → (k ≡ fallback)
      ⊎ ((k ≡ key)
          × (b : Breaker) × (lookup key s.breakers ≡ some b)
          × (allows_calls s.config.circuit_breaker s.clock b ≡ ok true))
unfolding allowed_or
allowed_or_sound s t fallback key k h = elim (Option-cases (lookup key s.breakers)) [
  | inl e ↦ absurd (ground arith)
  | inr (b, e) ↦ elim (Result-cases (allows_calls s.config.circuit_breaker s.clock b)) [
    | inl (true, a) ↦ inr (ground arith, b, e, a)
    | inl (false, a) ↦ inl (ground arith)
    | inr (x, a) ↦ absurd (ground arith)
  ]
]

-- Whatever the role, the chosen node is the master, or the call is a read and the node is the
-- balancer's next replica, whose breaker lets calls through.
pub select_key_sound :
    (role : RoutingRole) (s t : State) (k : String)
    → select_key role s ≡ (ok k, t)
    → (s.master_key ≡ some k) ⊎ ((role ≡ replica) × IsLiveReplica s k)
unfolding select_key
select_key_sound master s t k h = inl (ground arith)
select_key_sound replica s t k h = elim (Option-cases s.master_key) [
  | inl e ↦ absurd (ground arith)
  | inr (m, e) ↦ elim (Option-cases s.replica_balancer) [
    | inl e' ↦ inl (ground arith)
    | inr (b, e') ↦ elim (Option-cases (next b).0) [
      | inl dry ↦ absurd (ground arith)
      | inr (key, c) ↦
          elim (allowed_or_sound (record s { replica_balancer = some (next b).1 }) t m key k
            (ground arith)) [
              | inl same ↦ inl (ground arith)
              | inr (same, br, l, a) ↦ inr (
                refl,
                record {
                  balancer = b;
                  breaker = br;
                  configured = e';
                  chosen = ground arith;
                  known = ground arith;
                  allowed = a;
                },
              )
            ]
    ]
  ]
]
