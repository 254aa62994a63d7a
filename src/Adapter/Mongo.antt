-- ===== src/Adapter/Mongo.antt =====
-- adapters/document/mongodb.py. `open_client` is what the driver finds out from the DSN when it
-- makes the client: whether there is a default database. `ping` is the command of that name.
use krossdb.Common.{
  ℕ, String, Bool, true, false, not, List, [], ◌∷◌, Result, ok, raise, Exec, ◌>>=◌, ◌>>◌, gets,
  modify, throw_if,
}
use krossdb.Errors.{Exn, error, configuration_error}
use krossdb.Errors.Mapper.{Registry}
use krossdb.Config.{NodeConfig, master_nodes}
use krossdb.Errors.{runtime_error}
use krossdb.Resilience.Retry.{AsyncRetrying}
use krossdb.Adapter.Relational.Lifecycle.{HealthCheckResult}
use krossdb.Adapter.Single.{Node, acquire_if, first_ping, health_check}

-- `master_nodes[0]`
abbrev pub first : List NodeConfig → Result Exn NodeConfig
first [] = raise runtime_error
first (n ∷ _) = ok n

module _ {W : Type 0} (clock : W → ℕ) (registry : Registry) where
  module _ (open_client : String → Bool) (tenacity : AsyncRetrying (Node W) Unit)
      (ping : Exec W Exn Unit) where
    unfoldable pub connect : Exec (Node W) Exn Unit
    connect = do
      n ← (λ s. (first (master_nodes s.config), s))
      modify (λ s. record s { client = true; database = open_client n.dsn })
      found ← gets (λ s. s.database)
      throw_if (not found) (error configuration_error)
      first_ping clock registry tenacity ping
      modify (λ s. record s { connected = true })

  -- Closing a Motor client does no I/O and raises nothing.
  unfoldable pub disconnect : Exec (Node W) Exn Unit
  disconnect = modify (λ s. record s { client = false; database = false; connected = false })

  unfoldable pub acquire : {A : Type 0} → Exec (Node W) Exn A → Exec (Node W) Exn A
  acquire body s =
      acquire_if clock registry s.database
        (("adapter", "mongodb") ∷ ("connection", s.config.name) ∷ []) body s

  unfoldable pub check : Exec W Exn Unit → Exec (Node W) Exn HealthCheckResult
  check ping = health_check clock registry ping
