-- ===== src/Adapter/Single/Reads.antt =====
-- What blocks under `acquire` and `run_read` leave of a view of the world.
use krossdb.Common.{
  ℕ, zero, suc, ◌+◌, ◌-◌, ◌<◌, ◌≡◌, refl, sym, ap, ◌∙◌, Bool, true, false, ◌&&◌, ltb, some, Result,
  ok, raise, Exec, ◌⊎◌, inl, inr, arith, Bool-cases, Result-cases,
}
use krossdb.Errors.{Exn, error, configuration_error}
use krossdb.Errors.Mapper.{Registry, Context, translate_exceptions}
use krossdb.Resilience.Breaker.{infrastructure_failures, before_call}
use krossdb.Resilience.Breaker.Guard.{guard_cases}
use krossdb.Resilience.Retry.{AsyncRetrying, next_attempt, with_retry}
use krossdb.Adapter.Single.{Node, cell, acquire_if, run_read}

module _ {W : Type 0} where
  -- Why `acquire` refuses with an exception: it is not connected, or its breaker lets no call by.
  abbrev pub Refuses : (W → ℕ) → Bool → Node W → Exn → Type 0
  Refuses clock false s e = e ≡ error configuration_error
  Refuses clock true s e =
      (before_call s.config.circuit_breaker (clock s.world) s.breaker).0 ≡ raise e

  -- A block under `acquire` did not run, or ran once from a state with the same world.
  pub acquire_if-cases :
      (clock : W → ℕ) (registry : Registry) {A : Type 0} (ready : Bool) (context : Context)
      (body : Exec (Node W) Exn A) (s : Node W)
      → let out = acquire_if clock registry ready context body s in
        ((e : Exn) × (out.0 ≡ raise e) × Refuses clock ready s e × (out.1.world ≡ s.world))
        ⊎ ((x : Node W) × (x.world ≡ s.world)
            × (out.1.world ≡ (body x).1.world)
            × (out.0 ≡ (translate_exceptions registry context body x).0))
  unfolding acquire_if translate_exceptions
  acquire_if-cases clock registry false context body s = inl (_, refl, refl, refl)
  acquire_if-cases clock registry true context body s =
      elim (guard_cases (cell clock) s.config.circuit_breaker (some infrastructure_failures)
        (translate_exceptions registry context body) s) [
          | inl (e, b, h, why) ↦ inl (e, ap (λ p. p.0) h, why, ap (λ p. p.1.world) h)
          | inr (b, b', h, _) ↦
              inr (record s { breaker = b }, refl, ap (λ p. p.1.world) h, ap (λ p. p.0) h)
        ]

  module _ {A V : Type 0} (tenacity : AsyncRetrying (Node W) A) (view : W → V)
      (fn : Exec (Node W) Exn A) (reads : (s : Node W) → view (fn s).1.world ≡ view s.world) where
    next_attempt-view :
        (again : ℕ → Exec (Node W) Exn A) (retry : Exn → Bool) (limit n : ℕ)
        (p : Result Exn A × Node W)
        → ((t : Node W) → n < limit → view (again (n + 1) t).1.world ≡ view t.world)
        → view (next_attempt again retry limit n p).1.world ≡ view p.1.world
    next_attempt-view again retry limit n (ok a, s) h = refl
    next_attempt-view again retry limit n (raise e, s) h =
        elim (Bool-cases (retry e && ltb n limit)) [
          | inl b ↦ rw b (h s (ground arith))
          | inr b ↦ rw b refl
        ]

    loop-view :
        (retry : Exn → Bool) (limit d n : ℕ) (s : Node W)
        → limit - n ≡ d
        → view (tenacity.loop limit retry fn n s).1.world ≡ view s.world
    loop-view retry limit zero n s h =
        ap (λ p. view p.1.world) (tenacity.loop_step limit retry fn n s)
        ∙ next_attempt-view (tenacity.loop limit retry fn) retry limit n (fn s)
            (λ t l. absurd (omega arith))
        ∙ reads s
    loop-view retry limit (suc d) n s h =
        ap (λ p. view p.1.world) (tenacity.loop_step limit retry fn n s)
        ∙ next_attempt-view (tenacity.loop limit retry fn) retry limit n (fn s)
            (λ t l. loop-view retry limit d (n + 1) t (omega arith))
        ∙ reads s

    -- A read that leaves a view of the world leaves it under `run_read` too, however often it is
    -- tried.
    pub run_read-view : (s : Node W) → view (run_read tenacity fn s).1.world ≡ view s.world
    unfolding run_read with_retry
    run_read-view s =
        loop-view _ s.config.retry.max_attempts (s.config.retry.max_attempts - 1) 1 s refl

  module _ {A : Type 0} (tenacity : AsyncRetrying (Node W) A) (fn : Exec (Node W) Exn A)
      (Good : A → Type 0) (sound : (s : Node W) (a : A) → (fn s).0 ≡ ok a → Good a) where
    next_attempt-Good :
        (again : ℕ → Exec (Node W) Exn A) (retry : Exn → Bool) (limit n : ℕ) (s : Node W) (a : A)
        → ((t : Node W) → n < limit → (again (n + 1) t).0 ≡ ok a → Good a)
        → (next_attempt again retry limit n (fn s)).0 ≡ ok a
        → Good a
    next_attempt-Good again retry limit n s a later h = elim (Result-cases (fn s).0) [
      | inl (b, e) ↦
          sound s a (e ∙ (sym (ap (λ r. (next_attempt again retry limit n (r, (fn s).1)).0) e) ∙ h))
      | inr (x, e) ↦ elim (Bool-cases (retry x && ltb n limit)) [
        | inl b ↦ later (fn s).1 (ground arith) (ground arith)
        | inr b ↦ absurd (ground arith)
      ]
    ]

    loop-Good :
        (retry : Exn → Bool) (limit d n : ℕ) (s : Node W) (a : A)
        → limit - n ≡ d
        → (tenacity.loop limit retry fn n s).0 ≡ ok a
        → Good a
    loop-Good retry limit zero n s a e h =
        next_attempt-Good (tenacity.loop limit retry fn) retry limit n s a
          (λ t l _. absurd (omega arith))
          (sym (ap (λ p. p.0) (tenacity.loop_step limit retry fn n s)) ∙ h)
    loop-Good retry limit (suc d) n s a e h =
        next_attempt-Good (tenacity.loop limit retry fn) retry limit n s a
          (λ t l g. loop-Good retry limit d (n + 1) t a (omega arith) g)
          (sym (ap (λ p. p.0) (tenacity.loop_step limit retry fn n s)) ∙ h)

    -- What `run_read` returns, one of its attempts returned.
    pub run_read-Good : (s : Node W) (a : A) → (run_read tenacity fn s).0 ≡ ok a → Good a
    unfolding run_read with_retry
    run_read-Good s a h =
        loop-Good _ s.config.retry.max_attempts (s.config.retry.max_attempts - 1) 1 s a refl h
