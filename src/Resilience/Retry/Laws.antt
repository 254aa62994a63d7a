-- ===== src/Resilience/Retry/Laws.antt =====
-- How often a retried call runs, and what it ends in.
use krossdb.Common.{
  ℕ, suc, ◌+◌, ◌-◌, zero, ◌<◌, ◌≡◌, refl, true, false, List, [], ◌∷◌, Result, ok, raise, Exec,
  arith, ◌⊎◌, inl, inr, lt→ltb, ◌∙◌, ap,
}
use krossdb.Config.{RetryConfig}
use krossdb.Errors.{Kind, Exn, isinstance, error, krossdb_error, circuit_breaker_open_error}
use krossdb.Resilience.Retry.{retryable_exceptions, AsyncRetrying, next_attempt, with_retry}

-- A call whose `n`-th run, counted from 0, ends in `script n`; the state counts the runs.
abbrev pub scripted : {A : Type 0} → (ℕ → Result Exn A) → Exec ℕ Exn A
scripted script n = (script n, n + 1)

abbrev pub IsTransient : {A : Type 0} → List Kind → Result Exn A → Type 0
IsTransient kinds (ok _) = ⊥
IsTransient kinds (raise e) = isinstance e kinds ≡ true

abbrev pub IsFinal : {A : Type 0} → List Kind → Result Exn A → Type 0
IsFinal kinds (ok _) = Unit
IsFinal kinds (raise e) = isinstance e kinds ≡ false

module _ {A : Type 0} (tenacity : AsyncRetrying ℕ A) (cfg : RetryConfig) (kinds : List Kind)
    (script : ℕ → Result Exn A) where
  abbrev go : ℕ → ℕ → Result Exn A × ℕ
  go n s = tenacity.loop cfg.max_attempts (λ e. isinstance e kinds) (scripted script) n s

  again_from :
      (n s : ℕ) (r : Result Exn A)
      → IsTransient kinds r
      → n < cfg.max_attempts
      → next_attempt go (λ e. isinstance e kinds) cfg.max_attempts n (r, s) ≡ go (n + 1) s
  again_from n s (ok a) t h = absurd t
  again_from n s (raise x) t h = rw (t, lt→ltb _ _ h)

  ends :
      (n s : ℕ) (r : Result Exn A)
      → IsFinal kinds r ⊎ (n ≡ cfg.max_attempts)
      → next_attempt go (λ e. isinstance e kinds) cfg.max_attempts n (r, s) ≡ (r, s)
  ends n s (ok a) f = refl
  ends n s (raise x) (inl f) = rw f
  ends n s (raise x) (inr f) = ground arith

  climb :
      (d s k : ℕ)
      → k ≡ s + d
      → ((j : ℕ) → j < k → IsTransient kinds (script j))
      → k < cfg.max_attempts
      → IsFinal kinds (script k) ⊎ (k + 1 ≡ cfg.max_attempts)
      → go (s + 1) s ≡ (script k, k + 1)
  climb zero s k e t h f =
      let e' : s ≡ k = omega arith in
      rw e' (tenacity.loop_step _ _ _ (k + 1) k ∙ ends (k + 1) (k + 1) (script k) f)
  climb (suc d) s k e t h f =
      tenacity.loop_step _ _ _ (s + 1) s
      ∙ again_from (s + 1) (s + 1) (script s) (t s (omega arith)) (omega arith)
      ∙ climb d (s + 1) k (omega arith) t h f

  -- Retryable are the exceptions of the classes in `kinds` and of their subclasses, and no class is
  -- left out: `CircuitBreakerOpenError` is run again too if `kinds` names it or the root class,
  -- although the documentation of `with_retry` says that it never is. If the first `k` runs of a
  -- call end in retryable exceptions, and the next one either ends in something else or is the
  -- last one allowed, then `with_retry` ends as that run does, after
  -- exactly `k + 1` runs: it stops at the first value or fatal exception, and never runs the call
  -- more than `max_attempts` times.
  pub with_retry_runs :
      (k : ℕ)
      → ((j : ℕ) → j < k → IsTransient kinds (script j))
      → k < cfg.max_attempts
      → IsFinal kinds (script k) ⊎ (k + 1 ≡ cfg.max_attempts)
      → with_retry tenacity cfg kinds (scripted script) 0 ≡ (script k, k + 1)
  unfolding with_retry
  with_retry_runs k t h f = climb k 0 k (omega arith) t h f

-- `CircuitBreakerOpenError` is passed on after one run when `kinds` names neither it nor the root
-- class, as the default does not; and it is run again up to `max_attempts` times when `kinds`
-- names one of them, although the documentation says that it never is.
pub with_retry-circuit_breaker_open :
    {A : Type 0} (tenacity : AsyncRetrying ℕ A) (cfg : RetryConfig)
    → 0 < cfg.max_attempts
    → let refused = scripted (λ _. raise (error circuit_breaker_open_error)) in
      (with_retry tenacity cfg retryable_exceptions refused 0
        ≡ (raise (error circuit_breaker_open_error), 1))
      × (with_retry tenacity cfg (krossdb_error ∷ []) refused 0
          ≡ (raise (error circuit_breaker_open_error), cfg.max_attempts))
unfolding isinstance
with_retry-circuit_breaker_open {A} tenacity cfg h =
    let refused : ℕ → Result Exn A = λ _. raise (error circuit_breaker_open_error) in
    let last : cfg.max_attempts - 1 + 1 ≡ cfg.max_attempts = omega arith in
    (
      with_retry_runs tenacity cfg retryable_exceptions refused 0 (λ j l. elim l [ ]) h (inl refl),
      with_retry_runs tenacity cfg (krossdb_error ∷ []) refused (cfg.max_attempts - 1) (λ j l. refl)
            (omega arith) (inr last)
          ∙ ap (λ n. (raise (error circuit_breaker_open_error), n)) last,
    )
