-- ===== src/Resilience/Breaker/Guard.antt =====
-- The guard around a block: what runs, what is counted, and what the caller sees.
use krossdb.Common.{
  if◌then◌else◌, none, leb, ◌+◌, ap₂, ℕ, ◌-◌, ◌<◌, ◌≡◌, refl, some, Option, List, Result, ok, raise,
  arith, Exec, ap, ◌∙◌, ◌⊎◌, inl, inr, Result-cases,
}
use krossdb.Config.{CircuitBreakerConfig}
use krossdb.Errors.{Kind, Exn, cancelled, library, driver, error, circuit_breaker_open_error}
use krossdb.Resilience.Breaker.{
  closed, opened, half_open, Breaker, Cell, guard, proceed, settle, counts, before_call, on_success,
  on_failure, on_abandoned,
}

before_call-closed :
    (cfg : CircuitBreakerConfig) (now : ℕ) (b : Breaker)
    → b.state ≡ closed
    → before_call cfg now b ≡ (ok tt, b)
unfolding before_call
before_call-closed cfg now b h = ground arith

-- A timed-out open breaker becomes half-open with this call as its one probe.
abbrev pub probing : Breaker → Breaker
probing b = record b { state = half_open; half_open_calls_in_flight = 1 }

on_success-closed :
    (now : ℕ) (b : Breaker) → b.state ≡ closed → on_success now b ≡ record b { failure_count = 0 }
unfolding on_success
on_success-closed now b h = ground arith

on_abandoned-closed : (b : Breaker) → b.state ≡ closed → on_abandoned b ≡ b
unfolding on_abandoned
on_abandoned-closed b h = ground arith

before_call-early :
    (cfg : CircuitBreakerConfig) (now : ℕ) (b : Breaker) {t : ℕ}
    → b.state ≡ opened
    → b.opened_at ≡ some t
    → now - t < cfg.recovery_timeout_seconds
    → before_call cfg now b ≡ (raise (error circuit_breaker_open_error), b)
unfolding before_call
before_call-early cfg now b h o early = ground arith

-- A closed breaker after one failure more: below the threshold it stays closed, and with the last
-- one it opens.
abbrev pub failed_once : CircuitBreakerConfig → ℕ → Breaker → Breaker
failed_once cfg now b =
    if leb cfg.failure_threshold (b.failure_count + 1)
    then record b { state = opened; failure_count = b.failure_count + 1; opened_at = some now }
    else record b { failure_count = b.failure_count + 1 }

on_failure-closed :
    (cfg : CircuitBreakerConfig) (now : ℕ) (b : Breaker)
    → b.state ≡ closed
    → on_failure cfg now b ≡ failed_once cfg now b
unfolding on_failure
on_failure-closed cfg now b h = ground arith

-- A closed breaker after a block, by how it ended.
abbrev pub closed_after :
    {A : Type 0} → CircuitBreakerConfig → Option (List Kind) → ℕ → Result Exn A → Breaker → Breaker
closed_after cfg types now (ok a) b = record b { failure_count = 0 }
closed_after cfg types now (raise cancelled) b = b
closed_after cfg types now (raise e) b =
    if counts types e then failed_once cfg now b else record b { failure_count = 0 }

-- A probing breaker after a block.
abbrev pub probed_after : {A : Type 0} → Option (List Kind) → ℕ → Result Exn A → Breaker → Breaker
probed_after types now (ok a) b = record b { state = closed; failure_count = 0; opened_at = none }
probed_after types now (raise cancelled) b = record b { half_open_calls_in_flight = 0 }
probed_after types now (raise e) b =
    if counts types e
    then record b { state = opened; opened_at = some now }
    else record b { state = closed; failure_count = 0; opened_at = none }

module _ (A : Type 0) (cfg : CircuitBreakerConfig) (types : Option (List Kind)) (now : ℕ)
    (b : Breaker) where
  settle-closed :
      (r : Result Exn A)
      → b.state ≡ closed
      → settle cfg types now r b ≡ closed_after cfg types now r b
  unfolding settle
  settle-closed (ok a) h = on_success-closed now b h
  settle-closed (raise cancelled) h = on_abandoned-closed b h
  settle-closed (raise (library e)) h =
      ap₂ (λ x y. if counts types (library e) then x else y) (on_failure-closed cfg now b h)
        (on_success-closed now b h)
  settle-closed (raise (driver e)) h =
      ap₂ (λ x y. if counts types (driver e) then x else y) (on_failure-closed cfg now b h)
        (on_success-closed now b h)

module _ {S A : Type 0} (cell : Cell S) (cfg : CircuitBreakerConfig) (types : Option (List Kind))
    (body : Exec S Exn A) (s : S) where
  open cell use {read, write, now}

  -- While an open breaker's timeout has not passed, the guard fails fast: the block does not run,
  -- the breaker is written back as it was, and the caller gets `CircuitBreakerOpenError`.
  pub guard_fails_fast :
      {t : ℕ}
      → (read s).state ≡ opened
      → (read s).opened_at ≡ some t
      → now s - t < cfg.recovery_timeout_seconds
      → guard cell cfg types body s ≡ (raise (error circuit_breaker_open_error), write (read s) s)
  unfolding guard
  guard_fails_fast h o early =
      ap (proceed cell cfg types body s) (before_call-early cfg (now s) (read s) h o early)

  guard_entered :
      (b : Breaker)
      → before_call cfg (now s) (read s) ≡ (ok tt, b)
      → let (r, s') = body (write b s) in
        guard cell cfg types body s ≡ (r, write (settle cfg types (now s') r (read s')) s')
  unfolding guard
  guard_entered b h = ap (proceed cell cfg types body s) h

  -- `write` is what `read` sees, and the block leaves the breaker alone.
  module _ (read-write : (b : Breaker) (x : S) → read (write b x) ≡ b)
      (apart : (x : S) → read (body x).1 ≡ read x) where
    guard_passes :
        (b : Breaker)
        → before_call cfg (now s) (read s) ≡ (ok tt, b)
        → let ran = body (write b s) in
          guard cell cfg types body s ≡ (ran.0, write (settle cfg types (now ran.1) ran.0 b) ran.1)
    guard_passes b h =
        let ran = body (write b s) in
        guard_entered b h
        ∙ ap (λ x. (ran.0, write (settle cfg types (now ran.1) ran.0 x) ran.1))
            (apart (write b s) ∙ read-write b s)

    -- What a call through a closed breaker does, if nothing else writes the breaker while its block
    -- runs: the caller gets what the block ends in. A block that returns, or that raises what is
    -- not counted, leaves the breaker closed with a count of 0, so a rejected constraint never
    -- opens it; a counted exception is one failure more, which opens the breaker from that moment
    -- if it reaches the threshold and leaves it closed otherwise; and a cancelled block leaves the
    -- breaker as it was.
    pub guard_closed :
        (read s).state ≡ closed
        → let out = guard cell cfg types body s in
          let ran = body (write (read s) s) in
          (out.0 ≡ ran.0) × (read out.1 ≡ closed_after cfg types (now ran.1) ran.0 (read s))
    guard_closed h =
        let ran = body (write (read s) s) in
        rw (guard_passes (read s) (before_call-closed cfg (now s) (read s) h))
          (refl, read-write _ ran.1 ∙ settle-closed A cfg types (now ran.1) (read s) ran.0 h)

module _ {S A : Type 0} (cell : Cell S) (cfg : CircuitBreakerConfig) (types : Option (List Kind))
    (body : Exec S Exn A) (s : S) where
  open cell use {write}

  -- A guard either refuses, or runs the block once and hands on what it ends in; beyond that it
  -- only writes the breaker.
  pub guard_cases :
      ((e : Exn) × (b : Breaker) × (guard cell cfg types body s ≡ (raise e, write b s))
        × ((before_call cfg (cell.now s) (cell.read s)).0 ≡ raise e))
      ⊎ ((b b' : Breaker) × (guard cell cfg types body s
            ≡ ((body (write b s)).0, write b' (body (write b s)).1))
          × ((before_call cfg (cell.now s) (cell.read s)).0 ≡ ok tt))
  unfolding guard
  guard_cases = elim (Result-cases (before_call cfg (cell.now s) (cell.read s)).0) [
    | inl (_, h) ↦ inr (
      _,
      _,
      ap
          (λ (r : Result Exn Unit).
            proceed cell cfg types body s (r, (before_call cfg (cell.now s) (cell.read s)).1))
          h,
      h,
    )
    | inr (e, h) ↦ inl (
      e,
      _,
      ap
          (λ (r : Result Exn Unit).
            proceed cell cfg types body s (r, (before_call cfg (cell.now s) (cell.read s)).1))
          h,
      h,
    )
  ]
