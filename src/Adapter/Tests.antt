-- ===== src/Adapter/Tests.antt =====
-- Concrete choices, sessions and probes.
use krossdb.Common.{ℕ, none, some, true, [], ◌∷◌, ◌≡◌, refl, ok, raise, ◌⊎◌, ◌*◌, Exec}
use krossdb.Config.Defaults.{connection_config, node_config}
use krossdb.Config.{ConnectionConfig, sqlite, master, replica}
use krossdb.Errors.{Exn, runtime_error}
use krossdb.Resilience.Breaker.{init, allows_calls}
use krossdb.Adapter.Routing.{LoadBalancer, create, expand, next}
use krossdb.Adapter.Routing.Fairness.{draw, times, weight_of, fair_share}
use krossdb.Adapter.Relational.{State, Respond, execute, request, select_key}
use krossdb.Adapter.Relational.Selection.{IsLiveReplica, select_key_sound}
use krossdb.Adapter.Relational.Session.{acquire}
use krossdb.Adapter.Relational.Transactions.{Owns, acquire_unbound}

abbrev two_to_one : LoadBalancer
two_to_one = record { sequence = "a" ∷ "a" ∷ "b" ∷ []; pass = "a" ∷ "a" ∷ "b" ∷ [] }

fair_share_example : times "a" (draw (4 * 3) two_to_one).0 ≡ 8
unfolding create expand weight_of
fair_share_example = fair_share ("a" ∷ "b" ∷ []) (2 ∷ 1 ∷ []) two_to_one "a" 4 refl

abbrev config : ConnectionConfig
config = connection_config "db" sqlite (node_config "sqlite+aiosqlite://" ∷ [])

-- A connected adapter with a master, and one replica that is closed.
abbrev connected_state : State
connected_state = record {
  config = config;
  engines = "m" ∷ "r" ∷ [];
  breakers = ("m", init) ∷ ("r", init) ∷ [];
  replica_balancer = some (record { sequence = "r" ∷ []; pass = "r" ∷ [] });
  master_key = some "m";
  connected = true;
  active_session = none;
  clock = 0;
  history = [];
}

select_key_sound_example :
    (connected_state.master_key ≡ some "r")
    ⊎ ((replica ≡ replica) × IsLiveReplica connected_state "r")
unfolding select_key init allows_calls next
select_key_sound_example = select_key_sound replica connected_state _ "r" refl

-- Every call succeeds.
abbrev fine : Respond
fine history c = ok tt

abbrev insert : ℕ → Exec State Exn Unit
insert n s = request fine (execute n "INSERT") s

acquire_unbound_example :
    Owns [] fine [] insert master connected_state (acquire [] fine [] insert master connected_state)
acquire_unbound_example = acquire_unbound [] fine [] insert master connected_state refl

abbrev bound_state : State
bound_state = record (connected_state) { active_session = some 7 }

-- Every call fails with an exception of the driver.
abbrev refused : Respond
refused history c = raise runtime_error
