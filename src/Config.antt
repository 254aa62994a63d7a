-- ===== src/Config.antt =====
-- core/config.py and core/enums.py: the configuration models and what their validators accept.
-- Seconds are whole units of a clock fine enough for the configured values, and `multiplier` is
-- in thousandths.
pub mod Defaults
pub mod Files
pub mod Laws
use krossdb.Common.{
  ℕ, String, Bool, true, false, Option, none, some, List, [], ◌∷◌, ◌&&◌, not, ltb, leb, filter, any,
  all, length,
}

pub data DatabaseKind : Type 0 where
  postgresql mysql sqlite mongodb qdrant : DatabaseKind

pub data RoutingRole : Type 0 where
  master replica : RoutingRole

pub record RetryConfig : Type 0 where
  pub max_attempts : ℕ
  pub initial_backoff_seconds : ℕ
  pub max_backoff_seconds : ℕ
  pub multiplier : ℕ
  pub jitter : Bool

pub record CircuitBreakerConfig : Type 0 where
  pub failure_threshold : ℕ
  pub recovery_timeout_seconds : ℕ
  pub half_open_max_calls : ℕ

pub record PoolConfig : Type 0 where
  pub min_size : ℕ
  pub max_size : ℕ
  pub max_overflow : ℕ
  pub connect_timeout_seconds : ℕ
  pub pool_recycle_seconds : ℕ

pub record NodeConfig : Type 0 where
  pub dsn : String
  pub role : RoutingRole
  pub weight : ℕ

pub record ConnectionConfig : Type 0 where
  pub name : String
  pub kind : DatabaseKind
  pub nodes : List NodeConfig
  pub pool : PoolConfig
  pub retry : RetryConfig
  pub circuit_breaker : CircuitBreakerConfig
  pub echo : Bool
  pub isolation_level : Option String

-- The `Field` bounds of each model.
unfoldable pub accepts_retry : RetryConfig → Bool
accepts_retry c =
    leb 1 c.max_attempts
    && leb c.max_attempts 20
    && ltb 0 c.initial_backoff_seconds
    && ltb 0 c.max_backoff_seconds
    && ltb 1000 c.multiplier

unfoldable pub accepts_breaker : CircuitBreakerConfig → Bool
accepts_breaker c =
    leb 1 c.failure_threshold && ltb 0 c.recovery_timeout_seconds && leb 1 c.half_open_max_calls

-- The bounds and `_validate_sizes`.
unfoldable pub accepts_pool : PoolConfig → Bool
accepts_pool c =
    leb 1 c.max_size
    && ltb 0 c.connect_timeout_seconds
    && ltb 0 c.pool_recycle_seconds
    && not (ltb c.max_size c.min_size)

unfoldable pub accepts_node : NodeConfig → Bool
accepts_node n = leb 1 n.weight

abbrev pub is_master : RoutingRole → Bool
is_master master = true
is_master replica = false

unfoldable pub master_nodes : ConnectionConfig → List NodeConfig
master_nodes c = filter (λ n. is_master n.role) c.nodes

unfoldable pub replica_nodes : ConnectionConfig → List NodeConfig
replica_nodes c = filter (λ n. not (is_master n.role)) c.nodes

-- The parts' models, `min_length=1` and `_require_master`.
unfoldable pub accepts_connection : ConnectionConfig → Bool
unfolding accepts_node accepts_pool accepts_retry accepts_breaker
accepts_connection c =
    leb 1 (length c.nodes)
    && all accepts_node c.nodes
    && accepts_pool c.pool
    && accepts_retry c.retry
    && accepts_breaker c.circuit_breaker
    && any (λ n. is_master n.role) c.nodes
