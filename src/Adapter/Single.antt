-- ===== src/Adapter/Single.antt =====
-- What the adapters of one node share: interfaces/adapter.py's `run_read`, and the bodies that
-- adapters/document/mongodb.py and adapters/vector/qdrant.py have in common. The state of the
-- driver and of the server is a world of its own, which also has the clock.
pub mod Reads
use krossdb.Common.{
  ℕ, String, Bool, true, false, not, some, List, [], ◌∷◌, Result, ok, raise, Exec, ◌>>=◌, ◌>>◌,
  pure, throw, gets, modify, if◌then◌else◌,
}
use krossdb.Errors.{Exn, library, driver, cancelled, error, configuration_error}
use krossdb.Errors.Mapper.{Registry, Context, translate_exceptions}
use krossdb.Config.{ConnectionConfig}
use krossdb.Resilience.Breaker.{Breaker, Cell, infrastructure_failures, guard, call}
use krossdb.Resilience.Retry.{AsyncRetrying, retryable_exceptions, with_retry}
use krossdb.Adapter.Relational.Lifecycle.{HealthStatus, healthy, unhealthy, HealthCheckResult}

pub record Node (W : Type 0) : Type 0 where
  pub config : ConnectionConfig
  pub breaker : Breaker
  pub client : Bool
  pub database : Bool
  pub connected : Bool
  pub world : W

module _ {W : Type 0} where
  -- A call of the driver.
  abbrev pub on_world : {A : Type 0} → Exec W Exn A → Exec (Node W) Exn A
  on_world m s = let (r, w) = m s.world in (r, record s { world = w })

  abbrev pub cell : (W → ℕ) → Cell (Node W)
  cell clock = record {
    read = λ s. s.breaker;
    write = λ b s. record s { breaker = b };
    now = λ s. clock s.world;
  }

  module _ (clock : W → ℕ) (registry : Registry) where
    -- `acquire` around a block, once the adapter has found itself connected or not.
    unfoldable pub acquire_if :
        {A : Type 0} → Bool → Context → Exec (Node W) Exn A → Exec (Node W) Exn A
    acquire_if ready context body s =
        if not ready
        then (raise (error configuration_error), s)
        else guard (cell clock) s.config.circuit_breaker (some infrastructure_failures)
            (translate_exceptions registry context body) s

    -- The first ping of `connect`: translated, retried, and counted by the breaker.
    unfoldable pub first_ping :
        AsyncRetrying (Node W) Unit → Exec W Exn Unit → Exec (Node W) Exn Unit
    first_ping tenacity ping s =
        let context = ("connection", s.config.name) ∷ ("op", "connect") ∷ [] in
        call (cell clock) s.config.circuit_breaker
          (with_retry tenacity s.config.retry retryable_exceptions
            (translate_exceptions registry context (on_world ping)))
          s

    abbrev status : Result Exn Unit × Node W → Result Exn HealthCheckResult × Node W
    status (ok _, s) = (ok (record { status = healthy; checked_nodes = 1 }), s)
    status (raise cancelled, s) = (raise cancelled, s)
    status (raise e, s) = (ok (record { status = unhealthy; checked_nodes = 1 }), s)

    -- `health_check`, less the latency and the text of the detail.
    unfoldable pub health_check : Exec W Exn Unit → Exec (Node W) Exn HealthCheckResult
    health_check ping s =
        let context = ("connection", s.config.name) ∷ ("op", "health_check") ∷ [] in
        if not s.client
        then (ok (record { status = unhealthy; checked_nodes = 0 }), s)
        else status (translate_exceptions registry context (on_world ping) s)

  -- `run_read` of the base class.
  unfoldable pub run_read :
      {A : Type 0} → AsyncRetrying (Node W) A → Exec (Node W) Exn A → Exec (Node W) Exn A
  run_read tenacity fn s = with_retry tenacity s.config.retry retryable_exceptions fn s
