-- ===== src/Resilience/Breaker/Invariant.antt =====
-- The breaker under any interleaving of calls: each call enters, and later succeeds, fails or is
-- abandoned, in any order with the steps of other calls.
use krossdb.Common.{
  ℕ, ◌<◌, ◌≤◌, ◌≡◌, true, false, none, List, [], ◌∷◌, ok, raise, arith, is_some, is_ok, ◌⊎◌, inl,
  inr, Result-cases,
}
use krossdb.Config.{CircuitBreakerConfig, accepts_breaker}
use krossdb.Errors.{error, circuit_breaker_open_error}
use krossdb.Resilience.Breaker.{
  closed, opened, half_open, Breaker, init, before_call, on_success, on_failure, on_abandoned,
  allows_calls,
}

pub data Event : Type 0 where
  entered succeeded failed abandoned : Event

unfoldable pub step : CircuitBreakerConfig → ℕ → Event → Breaker → Breaker
unfolding before_call on_success on_failure on_abandoned
step cfg now entered b = (before_call cfg now b).1
step cfg now succeeded b = on_success now b
step cfg now failed b = on_failure cfg now b
step cfg now abandoned b = on_abandoned b

unfoldable pub run : CircuitBreakerConfig → List (ℕ × Event) → Breaker → Breaker
unfolding step
run cfg [] b = b
run cfg ((now, e) ∷ es) b = run cfg es (step cfg now e b)

pub record IsValid (cfg : CircuitBreakerConfig) (b : Breaker) : Type 0 where
  pub below_threshold : b.state ≡ closed → b.failure_count < cfg.failure_threshold
  pub not_opened : b.state ≡ closed → b.opened_at ≡ none
  pub opened_known : b.state ≡ opened → is_some b.opened_at ≡ true
  pub probes_capped : b.state ≡ half_open → b.half_open_calls_in_flight ≤ cfg.half_open_max_calls

init-IsValid : (cfg : CircuitBreakerConfig) → accepts_breaker cfg ≡ true → IsValid cfg init
unfolding accepts_breaker init
init-IsValid cfg h = ground arith

pub step-IsValid :
    (cfg : CircuitBreakerConfig) (now : ℕ) (e : Event) (b : Breaker)
    → accepts_breaker cfg ≡ true
    → IsValid cfg b
    → IsValid cfg (step cfg now e b)
unfolding step accepts_breaker
step-IsValid cfg now entered b h v = ground arith
step-IsValid cfg now succeeded b h v = ground arith
step-IsValid cfg now failed b h v = ground arith
step-IsValid cfg now abandoned b h v = ground arith

run_from-IsValid :
    (cfg : CircuitBreakerConfig) (es : List (ℕ × Event)) (b : Breaker)
    → accepts_breaker cfg ≡ true
    → IsValid cfg b
    → IsValid cfg (run cfg es b)
unfolding run
run_from-IsValid cfg [] b h v = v
run_from-IsValid cfg ((now, e) ∷ es) b h v =
    run_from-IsValid cfg es (step cfg now e b) h (step-IsValid cfg now e b h v)

-- From a new breaker with an accepted configuration, any interleaving of entries, successes,
-- failures and abandoned calls keeps the invariant: closed means fewer failures than the
-- threshold and no opening time, open means that the opening time is known, and half-open means
-- at most the configured number of probes in flight.
pub run-IsValid :
    (cfg : CircuitBreakerConfig) (es : List (ℕ × Event))
    → accepts_breaker cfg ≡ true
    → IsValid cfg (run cfg es init)
run-IsValid cfg es h = run_from-IsValid cfg es init h (init-IsValid cfg h)

foretells :
    (cfg : CircuitBreakerConfig) (now : ℕ) (b : Breaker)
    → accepts_breaker cfg ≡ true
    → IsValid cfg b
    → (is_ok (allows_calls cfg now b) ≡ true)
      × (allows_calls cfg now b ≡ ok false
          → before_call cfg now b ≡ (raise (error circuit_breaker_open_error), b))
      × (allows_calls cfg now b ≡ ok true
          → (b.state ≡ half_open → b.half_open_calls_in_flight < cfg.half_open_max_calls)
          → (before_call cfg now b).0 ≡ ok tt)
unfolding allows_calls before_call accepts_breaker
foretells cfg now b h v = ground arith

-- In a valid breaker, `allows_calls` does not fail its assertion. Either it is false and the next
-- call is refused, or it is true and the next call is let through, unless the breaker is half-open
-- at its probe limit.
pub allows_calls-before_call :
    (cfg : CircuitBreakerConfig) (now : ℕ) (b : Breaker)
    → accepts_breaker cfg ≡ true
    → IsValid cfg b
    → ((allows_calls cfg now b ≡ ok false)
        × (before_call cfg now b ≡ (raise (error circuit_breaker_open_error), b)))
      ⊎ ((allows_calls cfg now b ≡ ok true)
          × (((before_call cfg now b).0 ≡ ok tt)
              ⊎ ((b.state ≡ half_open) × (cfg.half_open_max_calls ≤ b.half_open_calls_in_flight))))
unfolding allows_calls before_call
allows_calls-before_call cfg now b h v =
    let (total, refused, passed) = foretells cfg now b h v in
    elim (Result-cases (allows_calls cfg now b)) [
      | inl (false, e) ↦ inl (e, refused e)
      | inl (true, e) ↦ inr (
        e,
        elim (Result-cases (before_call cfg now b).0) [
          | inl (_, f) ↦ inl f
          | inr (x, f) ↦ inr (ground (arith, passed e))
        ],
      )
      | inr (x, e) ↦ absurd (ground arith)
    ]

-- A half-open breaker at its probe limit refuses the next call although `allows_calls` is true;
-- once one of the probes is abandoned, the next call is let through.
pub abandoned_frees_probe :
    (cfg : CircuitBreakerConfig) (now : ℕ) (b : Breaker)
    → accepts_breaker cfg ≡ true
    → b.state ≡ half_open
    → b.half_open_calls_in_flight ≡ cfg.half_open_max_calls
    → (allows_calls cfg now b ≡ ok true)
      × (before_call cfg now b ≡ (raise (error circuit_breaker_open_error), b))
      × ((before_call cfg now (on_abandoned b)).0 ≡ ok tt)
      × ((before_call cfg now (on_abandoned b)).1 ≡ b)
unfolding allows_calls before_call on_abandoned accepts_breaker
abandoned_frees_probe cfg now b h s full = ground arith
