-- ===== src/Resilience/Retry.antt =====
-- resilience/retry.py: `with_retry`. The loop itself is tenacity's `AsyncRetrying`, a parameter
-- with its documented rule: an attempt that raises what the predicate accepts is followed by
-- another until the number of attempts is reached, and with `reraise=True` the last exception is
-- raised. Waiting times do not change what is called, and are left out.
pub mod Laws
pub mod Bounded
use krossdb.Common.{
  ℕ, suc, ◌+◌, ◌-◌, zero, ◌≡◌, refl, Bool, true, false, ◌&&◌, List, [], ◌∷◌, Result, ok, raise,
  Exec, ltb, if◌then◌else◌, arith,
}
use krossdb.Config.{RetryConfig}
use krossdb.Errors.{
  Kind, Exn, isinstance, connection_error, connection_timeout_error, timeout_error,
  deadlock_detected_error,
}

abbrev pub retryable_exceptions : List Kind
retryable_exceptions =
    connection_error ∷ connection_timeout_error ∷ timeout_error ∷ deadlock_detected_error ∷ []

module _ {S A : Type 0} where
  -- What follows attempt `n`: another one, or the end.
  abbrev pub next_attempt :
      (ℕ → Exec S Exn A) → (Exn → Bool) → ℕ → ℕ → Result Exn A × S → Result Exn A × S
  next_attempt again retry limit n (ok a, s) = (ok a, s)
  next_attempt again retry limit n (raise e, s) =
      if retry e && ltb n limit then again (n + 1) s else (raise e, s)

pub record AsyncRetrying (S A : Type 0) : Type 0 where
  -- The loop from attempt `n` on, with its limit, its predicate and the attempt's block.
  pub loop : ℕ → (Exn → Bool) → Exec S Exn A → ℕ → Exec S Exn A
  pub loop_step :
      (limit : ℕ) (retry : Exn → Bool) (block : Exec S Exn A) (n : ℕ) (s : S)
      → loop limit retry block n s ≡ next_attempt (loop limit retry block) retry limit n (block s)

module _ {S A : Type 0} (tenacity : AsyncRetrying S A) where
  -- The block of one attempt: both handlers raise again, so the loop sees every exception.
  attempt : Exec S Exn A → Exec S Exn A
  attempt fn s = fn s

  unfoldable pub with_retry : RetryConfig → List Kind → Exec S Exn A → Exec S Exn A
  unfolding attempt
  with_retry cfg retry_on fn s =
      tenacity.loop cfg.max_attempts (λ e. isinstance e retry_on) (attempt fn) 1 s
