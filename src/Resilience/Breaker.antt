-- ===== src/Resilience/Breaker.antt =====
-- resilience/circuit_breaker.py: one breaker, the guard around a block, and the registry. The
-- clock is an argument; each method holds the lock throughout, so it is one step.
pub mod Invariant
pub mod Trips
pub mod Guard
use krossdb.Common.{
  ℕ, suc, ◌+◌, ◌-◌, ◌<◌, String, Bool, true, false, Option, none, some, List, [], ◌∷◌, Result, ok,
  raise, Exec, ◌>>=◌, ◌>>◌, ltb, leb, if◌then◌else◌, ◌==◌,
}
use krossdb.Config.{CircuitBreakerConfig}
use krossdb.Errors.{
  Kind, Exn, cancelled, error, circuit_breaker_open_error, connection_error,
  connection_timeout_error, timeout_error, assertion_error, isinstance,
}

pub data CircuitState : Type 0 where
  closed opened half_open : CircuitState

pub record Breaker : Type 0 where
  pub state : CircuitState
  pub failure_count : ℕ
  pub opened_at : Option ℕ
  pub half_open_calls_in_flight : ℕ

unfoldable pub init : Breaker
init = record { state = closed; failure_count = 0; opened_at = none; half_open_calls_in_flight = 0 }

abbrev same_state : CircuitState → CircuitState → Bool
same_state closed closed = true
same_state opened opened = true
same_state half_open half_open = true
same_state _ _ = false

abbrev enter : ℕ → CircuitState → Breaker → Breaker
enter now closed b = record b { state = closed; failure_count = 0; opened_at = none }
enter now opened b = record b { state = opened; opened_at = some now }
enter now half_open b = record b { state = half_open; half_open_calls_in_flight = 0 }

unfoldable pub transition : ℕ → CircuitState → Breaker → Breaker
transition now new b = if same_state new b.state then b else enter now new b

abbrev timed_out : CircuitBreakerConfig → ℕ → ℕ → Bool
timed_out cfg now since = leb cfg.recovery_timeout_seconds (now - since)

abbrev allows : CircuitBreakerConfig → ℕ → CircuitState → Option ℕ → Result Exn Bool
allows cfg now opened none = raise assertion_error
allows cfg now opened (some since) = ok (timed_out cfg now since)
allows cfg now _ _ = ok true

-- The property `allows_calls`, with its assertion.
unfoldable pub allows_calls : CircuitBreakerConfig → ℕ → Breaker → Result Exn Bool
allows_calls cfg now b = allows cfg now b.state b.opened_at

-- The first half of `_before_call`: an open breaker recovers or refuses.
abbrev recover : CircuitBreakerConfig → ℕ → CircuitState → Option ℕ → Exec Breaker Exn Unit
recover cfg now opened none b = (raise assertion_error, b)
recover cfg now opened (some since) b =
    if timed_out cfg now since
    then (ok tt, transition now half_open b)
    else (raise (error circuit_breaker_open_error), b)
recover cfg now _ _ b = (ok tt, b)

-- The second half: a half-open breaker counts its probes.
abbrev probe : CircuitBreakerConfig → CircuitState → Exec Breaker Exn Unit
probe cfg half_open b =
    if leb cfg.half_open_max_calls b.half_open_calls_in_flight
    then (raise (error circuit_breaker_open_error), b)
    else (ok tt, record b { half_open_calls_in_flight = b.half_open_calls_in_flight + 1 })
probe cfg _ b = (ok tt, b)

unfoldable pub before_call : CircuitBreakerConfig → ℕ → Exec Breaker Exn Unit
unfolding transition
before_call cfg now b = (recover cfg now b.state b.opened_at >> λ b'. probe cfg b'.state b') b

abbrev succeed : ℕ → CircuitState → Breaker → Breaker
succeed now half_open b = transition now closed b
succeed now closed b = record b { failure_count = 0 }
succeed now opened b = b

unfoldable pub on_success : ℕ → Breaker → Breaker
unfolding transition
on_success now b = succeed now b.state b

abbrev fail : CircuitBreakerConfig → ℕ → CircuitState → Breaker → Breaker
fail cfg now half_open b = transition now opened b
fail cfg now _ b =
    let b' = record b { failure_count = b.failure_count + 1 } in
    if leb cfg.failure_threshold b'.failure_count then transition now opened b' else b'

unfoldable pub on_failure : CircuitBreakerConfig → ℕ → Breaker → Breaker
unfolding transition
on_failure cfg now b = fail cfg now b.state b

abbrev abandon : CircuitState → Breaker → Breaker
abandon half_open b =
    if ltb 0 b.half_open_calls_in_flight
    then record b { half_open_calls_in_flight = b.half_open_calls_in_flight - 1 }
    else b
abandon _ b = b

unfoldable pub on_abandoned : Breaker → Breaker
on_abandoned b = abandon b.state b

abbrev pub infrastructure_failures : List Kind
infrastructure_failures = connection_error ∷ connection_timeout_error ∷ timeout_error ∷ []

-- Where a state keeps the breaker object, and the clock.
pub record Cell (S : Type 0) : Type 0 where
  pub read : S → Breaker
  pub write : Breaker → S → S
  pub now : S → ℕ

-- `failure_types is None or isinstance(exc, failure_types)`
unfoldable pub counts : Option (List Kind) → Exn → Bool
unfolding isinstance
counts none e = true
counts (some kinds) e = isinstance e kinds

-- The `except` and `else` clauses of `guard`, by how the block ended.
unfoldable pub settle :
    {A : Type 0} → CircuitBreakerConfig → Option (List Kind) → ℕ → Result Exn A → Breaker → Breaker
unfolding on_success on_failure on_abandoned counts
settle cfg types now (ok a) b = on_success now b
settle cfg types now (raise cancelled) b = on_abandoned b
settle cfg types now (raise e) b = if counts types e then on_failure cfg now b else on_success now b

module _ {S A : Type 0} (cell : Cell S) (cfg : CircuitBreakerConfig) where
  open cell use {read, write, now}

  -- The block, once the breaker has answered the entry.
  proceed : Option (List Kind) → Exec S Exn A → S → Result Exn Unit × Breaker → Result Exn A × S
  unfolding settle
  proceed types body s (raise e, b) = (raise e, write b s)
  proceed types body s (ok _, b) =
      let (r, s') = body (write b s) in (r, write (settle cfg types (now s') r (read s')) s')

  -- `async with breaker.guard(failure_types=types): body`.
  unfoldable pub guard : Option (List Kind) → Exec S Exn A → Exec S Exn A
  unfolding proceed before_call
  guard types body s = proceed types body s (before_call cfg (now s) (read s))

  -- `call`: every exception counts as a failure.
  unfoldable pub call : Exec S Exn A → Exec S Exn A
  unfolding guard
  call fn = guard none fn

-- The registry: breakers by name, each with the configuration it was created with.
abbrev pub Registry : Type 0
Registry = List (String × CircuitBreakerConfig × Breaker)

unfoldable pub get_or_create :
    String → CircuitBreakerConfig → Registry → (CircuitBreakerConfig × Breaker) × Registry
unfolding init
get_or_create name cfg [] = ((cfg, init), (name, cfg, init) ∷ [])
get_or_create name cfg ((n, c, b) ∷ r) =
    if n == name
    then ((c, b), (n, c, b) ∷ r)
    else let (found, rest) = get_or_create name cfg r in (found, (n, c, b) ∷ rest)
