-- ===== src/Resilience/Breaker/Trips.antt =====
-- When a breaker opens, and how it recovers.
use krossdb.Common.{ℕ, zero, suc, ◌+◌, ◌<◌, ◌≤◌, ◌≡◌, refl, none, some, arith, ◌∙◌, ◌⊎◌, inl, inr}
use native.Mathlib.Decide.{dec_lt}
use krossdb.Config.{CircuitBreakerConfig}
use krossdb.Resilience.Breaker.{closed, opened, half_open, Breaker, on_success, on_failure}

-- `k` failures in a row.
unfoldable pub failures : CircuitBreakerConfig → ℕ → ℕ → Breaker → Breaker
failures cfg now zero b = b
failures cfg now (suc k) b = failures cfg now k (on_failure cfg now b)

on_failure_stays :
    (cfg : CircuitBreakerConfig) (now : ℕ) (b : Breaker)
    → b.state ≡ closed
    → b.failure_count + 1 < cfg.failure_threshold
    → ((on_failure cfg now b).state ≡ closed)
      × ((on_failure cfg now b).failure_count ≡ b.failure_count + 1)
unfolding on_failure
on_failure_stays cfg now b s h = ground arith

on_failure_opens :
    (cfg : CircuitBreakerConfig) (now : ℕ) (b : Breaker)
    → b.state ≡ closed
    → cfg.failure_threshold ≤ b.failure_count + 1
    → ((on_failure cfg now b).state ≡ opened) × ((on_failure cfg now b).opened_at ≡ some now)
unfolding on_failure
on_failure_opens cfg now b s h = ground arith

on_failure-opened :
    (cfg : CircuitBreakerConfig) (now : ℕ) (b : Breaker)
    → b.state ≡ opened
    → ((on_failure cfg now b).state ≡ opened) × ((on_failure cfg now b).opened_at ≡ b.opened_at)
unfolding on_failure
on_failure-opened cfg now b s = ground arith

failures-opened :
    (cfg : CircuitBreakerConfig) (now k : ℕ) (b : Breaker)
    → b.state ≡ opened
    → ((failures cfg now k b).state ≡ opened) × ((failures cfg now k b).opened_at ≡ b.opened_at)
unfolding failures
failures-opened cfg now zero b s = (s, refl)
failures-opened cfg now (suc k) b s =
    let (s', o) = on_failure-opened cfg now b s in
    let (t, p) = failures-opened cfg now k (on_failure cfg now b) s' in (t, p ∙ o)

failures_either :
    (cfg : CircuitBreakerConfig) (now k : ℕ) (b : Breaker)
    → b.state ≡ closed
    → b.failure_count < cfg.failure_threshold
    → let b' = failures cfg now k b in
      (b.failure_count + k < cfg.failure_threshold
        → (b'.state ≡ closed) × (b'.failure_count ≡ b.failure_count + k))
      × (cfg.failure_threshold ≤ b.failure_count + k
          → (b'.state ≡ opened) × (b'.opened_at ≡ some now))
unfolding failures
failures_either cfg now zero b s h = (λ _. (s, omega arith), λ p. absurd (omega arith))
failures_either cfg now (suc k) b s h = elim (dec_lt (b.failure_count + 1) cfg.failure_threshold) [
  | yes p ↦
      let (s', c) = on_failure_stays cfg now b s p in
      let (low, high) = failures_either cfg now k (on_failure cfg now b) s' (omega arith) in
      (λ q. let (t, d) = low (omega arith) in (t, omega arith), λ q. high (omega arith))
  | no p ↦
      let (s', o) = on_failure_opens cfg now b s (omega arith) in
      let (t, u) = failures-opened cfg now k (on_failure cfg now b) s' in
      (λ q. absurd (omega arith), λ q. (t, u ∙ o))
]

-- From a closed breaker with fewer failures than the threshold, `k` counted failures in a row
-- leave it closed with that many more failures if the sum is below the threshold, and otherwise
-- leave it open, with the opening time of the moment of the failures.
pub failures_trip :
    (cfg : CircuitBreakerConfig) (now k : ℕ) (b : Breaker)
    → b.state ≡ closed
    → b.failure_count < cfg.failure_threshold
    → let b' = failures cfg now k b in
      ((b.failure_count + k < cfg.failure_threshold)
        × (b'.state ≡ closed)
        × (b'.failure_count ≡ b.failure_count + k))
      ⊎ ((cfg.failure_threshold ≤ b.failure_count + k)
          × (b'.state ≡ opened)
          × (b'.opened_at ≡ some now))
failures_trip cfg now k b s h =
    let (low, high) = failures_either cfg now k b s h in
    elim (dec_lt (b.failure_count + k) cfg.failure_threshold) [
      | yes p ↦ let (q, r) = low p in inl (p, q, r)
      | no p ↦
          let over : cfg.failure_threshold ≤ b.failure_count + k = omega arith in
          let (q, r) = high over in inr (over, q, r)
    ]

-- A success between failures starts the count again, and the first outcome of a probe decides:
-- a success closes a half-open breaker with a count of 0, a failure opens it anew.
pub outcome_resets :
    (cfg : CircuitBreakerConfig) (now : ℕ) (b : Breaker)
    → (b.state ≡ closed → on_success now b ≡ record b { failure_count = 0 })
      × (b.state ≡ half_open
          → on_success now b ≡ record b { state = closed; failure_count = 0; opened_at = none })
      × (b.state ≡ half_open
          → on_failure cfg now b ≡ record b { state = opened; opened_at = some now })
      × (b.state ≡ opened → on_success now b ≡ b)
unfolding on_success on_failure
outcome_resets cfg now b =
    (λ h. ground arith, λ h. ground arith, λ h. ground arith, λ h. ground arith)
