-- ===== src/Resilience/Tests.antt =====
-- Concrete runs of the breaker and of the retry loop.
use krossdb.Common.{
  ◌⊎◌, ◌≤◌, false, ℕ, suc, zero, ◌+◌, ◌<◌, ◌≡◌, refl, true, none, some, [], ◌∷◌, Result, ok, raise,
  Exec, arith, inl,
}
use krossdb.Config.{CircuitBreakerConfig, RetryConfig, accepts_breaker}
use krossdb.Errors.{
  Exn, error, isinstance, timeout_error, duplicate_record_error, circuit_breaker_open_error,
}
use krossdb.Resilience.Breaker.{
  closed, opened, half_open, Breaker, Cell, init, infrastructure_failures, guard, before_call,
  allows_calls, counts,
}
use krossdb.Resilience.Breaker.Invariant.{
  IsValid, run, run-IsValid, allows_calls-before_call, entered, failed, abandoned,
}
use krossdb.Resilience.Breaker.Guard.{guard_closed}
use krossdb.Resilience.Retry.Bounded.{bounded}
use krossdb.Resilience.Retry.{retryable_exceptions, with_retry}
use krossdb.Resilience.Retry.Laws.{scripted, IsTransient, with_retry_runs}

abbrev limits : CircuitBreakerConfig
limits = record { failure_threshold = 2; recovery_timeout_seconds = 30; half_open_max_calls = 1 }

accepted : accepts_breaker limits ≡ true
unfolding accepts_breaker
accepted = refl

abbrev broken : Breaker
broken = record {
  state = opened;
  failure_count = 2;
  opened_at = some 100;
  half_open_calls_in_flight = 0;
}

abbrev probed : Breaker
probed = record {
  state = half_open;
  failure_count = 2;
  opened_at = some 100;
  half_open_calls_in_flight = 1;
}

run-IsValid_example : IsValid limits (
    run limits
      ((1, entered)
        ∷ (2, failed)
        ∷ (3, entered)
        ∷ (4, failed)
        ∷ (40, entered)
        ∷ (41, abandoned)
        ∷ [])
      init)
run-IsValid_example = run-IsValid limits _ accepted

allows_calls-before_call_example :
    ((allows_calls limits 140 broken ≡ ok false)
      × (before_call limits 140 broken ≡ (raise (error circuit_breaker_open_error), broken)))
    ⊎ ((allows_calls limits 140 broken ≡ ok true)
        × (((before_call limits 140 broken).0 ≡ ok tt) ⊎ ((broken.state ≡ half_open) × (1 ≤ 0))))
allows_calls-before_call_example = allows_calls-before_call limits 140 broken accepted (record {
  below_threshold = λ h. ground arith;
  not_opened = λ h. ground arith;
  opened_known = λ h. refl;
  probes_capped = λ h. ground arith;
})

-- A breaker beside a clock, which each block advances by 5.
abbrev clocked : Cell (Breaker × ℕ)
clocked = record { read = λ s. s.0; write = λ b s. (b, s.1); now = λ s. s.1 }

abbrev ends_in : Result Exn ℕ → Exec (Breaker × ℕ) Exn ℕ
ends_in r (b, n) = (r, (b, n + 5))

abbrev healthy : Breaker
healthy = record {
  state = closed;
  failure_count = 1;
  opened_at = none;
  half_open_calls_in_flight = 0;
}

guard_closed_example :
    (guard clocked limits
      (some infrastructure_failures)
      (ends_in (raise (error duplicate_record_error)))
      (healthy, 110)).1.0
    ≡ record (healthy) { failure_count = 0 }
unfolding counts
guard_closed_example =
    (guard_closed clocked limits (some infrastructure_failures)
      (ends_in (raise (error duplicate_record_error))) (healthy, 110) (λ b x. refl) (λ x. refl)
      refl).1

abbrev patience : RetryConfig
patience = record {
  max_attempts = 5;
  initial_backoff_seconds = 1;
  max_backoff_seconds = 8;
  multiplier = 2000;
  jitter = true;
}

-- Two timeouts, then a value.
abbrev third_time : ℕ → Result Exn ℕ
third_time zero = raise (error timeout_error)
third_time (suc zero) = raise (error timeout_error)
third_time (suc (suc n)) = ok (n + 42)

with_retry_runs_example :
    with_retry bounded patience retryable_exceptions (scripted third_time) 0 ≡ (ok 42, 3)
unfolding isinstance
with_retry_runs_example =
    with_retry_runs bounded patience retryable_exceptions third_time 2 early (omega arith) (inl tt)
  where
    early : (j : ℕ) → j < 2 → IsTransient retryable_exceptions (third_time j)
    early zero h = refl
    early (suc zero) h = refl
    early (suc (suc j)) h = absurd (omega arith)
