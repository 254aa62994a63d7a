-- ===== src/Adapter/Qdrant.antt =====
-- adapters/vector/qdrant.py. `ping` is `get_collections` and `close` is the client's `close`.
use krossdb.Common.{ℕ, true, false, [], ◌∷◌, ok, Exec, ◌>>◌, modify, if◌then◌else◌}
use krossdb.Errors.{Exn}
use krossdb.Errors.Mapper.{Registry}
use krossdb.Config.{master_nodes}
use krossdb.Resilience.Retry.{AsyncRetrying}
use krossdb.Adapter.Mongo.{first}
use krossdb.Adapter.Relational.Lifecycle.{HealthCheckResult}
use krossdb.Adapter.Single.{Node, on_world, acquire_if, first_ping, health_check}

module _ {W : Type 0} (clock : W → ℕ) (registry : Registry) where
  unfoldable pub connect : AsyncRetrying (Node W) Unit → Exec W Exn Unit → Exec (Node W) Exn Unit
  connect tenacity ping = do
    (λ s. (first (master_nodes s.config), s))
    modify (λ s. record s { client = true })
    first_ping clock registry tenacity ping
    modify (λ s. record s { connected = true })

  -- If closing the client raises, the adapter keeps it.
  unfoldable pub disconnect : Exec W Exn Unit → Exec (Node W) Exn Unit
  disconnect close = do
    (λ s. if s.client then on_world close s else (ok tt, s))
    modify (λ s. record s { client = false; connected = false })

  unfoldable pub acquire : {A : Type 0} → Exec (Node W) Exn A → Exec (Node W) Exn A
  acquire body s =
      acquire_if clock registry s.client
        (("adapter", "qdrant") ∷ ("connection", s.config.name) ∷ []) body s

  unfoldable pub check : Exec W Exn Unit → Exec (Node W) Exn HealthCheckResult
  check ping = health_check clock registry ping
