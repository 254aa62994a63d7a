-- ===== src/Adapter/Relational.antt =====
-- adapters/relational/base.py: the adapter's state, its calls to SQLAlchemy, and the choice of a
-- node. SQLAlchemy is an argument: `respond` answers each call, given the calls made before it,
-- and the state keeps the history of the calls.
pub mod Session
pub mod Lifecycle
pub mod Selection
pub mod Admission
pub mod Transactions
pub mod Bound
pub mod Probes
use krossdb.Common.{
  ℕ, zero, suc, ◌+◌, ◌/◌, ◌%◌, String, Bool, true, false, Option, none, some, List, [], ◌∷◌, ◌++◌,
  Result, ok, raise, Exec, ◌>>=◌, ◌>>◌, pure, throw, gets, modify, lift, length, any, ◌==◌,
  if◌then◌else◌, ltb, map,
}
use krossdb.Common.Dict.{lookup, put}
use krossdb.Errors.{Exn, error, configuration_error, key_error, runtime_error}
use krossdb.Errors.Mapper.{Registry}
use krossdb.Config.{ConnectionConfig, RoutingRole, master, replica}
use krossdb.Resilience.Breaker.{Breaker, Cell, init, allows_calls}
use krossdb.Adapter.Routing.{LoadBalancer, next}

-- A session is named by the length of the history at which it was opened.
pub data Call : Type 0 where
  create_engine ping dispose : String → Call
  open_session : String → Call
  begin commit rollback close : ℕ → Call
  begin_nested release rollback_to : ℕ → Call
  execute : ℕ → String → Call

pub record State : Type 0 where
  pub config : ConnectionConfig
  pub engines : List String
  pub breakers : List (String × Breaker)
  pub replica_balancer : Option LoadBalancer
  pub master_key : Option String
  pub connected : Bool
  pub active_session : Option ℕ
  pub clock : ℕ
  pub history : List Call

abbrev pub Respond : Type 0
Respond = List Call → Call → Result Exn Unit

-- One call to SQLAlchemy.
unfoldable pub request : Respond → Call → Exec State Exn Unit
request respond c s = (respond s.history c, record s { history = s.history ++ c ∷ [] })

abbrev or_init : Option Breaker → Breaker
or_init none = init
or_init (some b) = b

-- The breaker object of a node; the callers below have looked the key up before.
unfoldable pub cell : String → Cell State
unfolding lookup put
cell k = record {
  read = λ s. or_init (lookup k s.breakers);
  write = λ b s. record s { breakers = put k b s.breakers };
  now = λ s. s.clock;
}

abbrev found : Option Breaker → Result Exn Breaker
found none = raise key_error
found (some b) = ok b

-- `self._breakers[key]`
unfoldable pub breaker_of : String → Exec State Exn Breaker
unfolding lookup
breaker_of k s = (found (lookup k s.breakers), s)

abbrev choose_master : Option String → Exec State Exn String
choose_master none = throw (error configuration_error)
choose_master (some k) = pure k

-- `key if self._breakers[key].allows_calls else self._master_key`
allowed_or : String → String → Exec State Exn String
unfolding breaker_of
allowed_or fallback key = do
  b ← breaker_of key
  now ← gets (λ s. s.clock)
  cfg ← gets (λ s. s.config)
  allowed ← lift (allows_calls cfg.circuit_breaker now b)
  pure (if allowed then key else fallback)

abbrev choose_next : String → Option String × LoadBalancer → Exec State Exn String
choose_next fallback (none, b) s = throw runtime_error s
choose_next fallback (some key, b) s =
    allowed_or fallback key (record s { replica_balancer = some b })

abbrev choose : RoutingRole → Option LoadBalancer → String → Exec State Exn String
choose master balancer key = pure key
choose replica none key = pure key
choose replica (some b) key = choose_next key (next b)

unfoldable pub select_key : RoutingRole → Exec State Exn String
unfolding allowed_or
select_key role s = (choose_master s.master_key >>= choose role s.replica_balancer) s
