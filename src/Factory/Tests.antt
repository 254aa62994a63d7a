-- ===== src/Factory/Tests.antt =====
-- A factory of two connections, the second of which is down.
use krossdb.Common.{String, List, [], ◌∷◌, refl, ok, raise, ◌==◌, if◌then◌else◌, arith}
use krossdb.Config.Defaults.{connection_config, node_config}
use krossdb.Config.{ConnectionConfig, sqlite}
use krossdb.Errors.{runtime_error}
use krossdb.Factory.{connect, disconnect, Respond, create, connect_all}
use krossdb.Factory.Outcomes.{AllOrNone}
use krossdb.Factory.AllOrNone.{connect_all-AllOrNone}

abbrev connection : String → ConnectionConfig
connection name = connection_config name sqlite (node_config "sqlite+aiosqlite://" ∷ [])

abbrev two : List ConnectionConfig
two = connection "up" ∷ connection "down" ∷ []

abbrev half : Respond
half history (connect n) = if n == "down" then raise runtime_error else ok tt
half history (disconnect n) = ok tt

connect_all-AllOrNone_example :
    AllOrNone half
      (λ _. ok tt)
      two
      (connect_all half (λ _. ok tt) (record { configs = two; adapters = []; history = [] }))
unfolding create
connect_all-AllOrNone_example =
    connect_all-AllOrNone half (λ _. ok tt) (λ h n e. ground arith) two
      (record { configs = two; adapters = []; history = [] }) refl
