-- ===== src/Config/Defaults.antt =====
-- core/config.py: the defaults of the models, with seconds in tenths.
use krossdb.Common.{String, true, false, ◌&&◌, none, List, leb, any, all, length, ◌≡◌, arith}
use krossdb.Config.{
  DatabaseKind, master, RetryConfig, CircuitBreakerConfig, PoolConfig, NodeConfig, ConnectionConfig,
  is_master, accepts_node, accepts_connection,
}

abbrev pub default_retry : RetryConfig
default_retry = record {
  max_attempts = 5;
  initial_backoff_seconds = 2;
  max_backoff_seconds = 100;
  multiplier = 2000;
  jitter = true;
}

abbrev pub default_circuit_breaker : CircuitBreakerConfig
default_circuit_breaker = record {
  failure_threshold = 5;
  recovery_timeout_seconds = 300;
  half_open_max_calls = 1;
}

abbrev pub default_pool : PoolConfig
default_pool = record {
  min_size = 1;
  max_size = 10;
  max_overflow = 5;
  connect_timeout_seconds = 50;
  pool_recycle_seconds = 18000;
}

-- `NodeConfig(dsn=...)`
abbrev pub node_config : String → NodeConfig
node_config dsn = record { dsn = dsn; role = master; weight = 1 }

-- `ConnectionConfig(name=..., kind=..., nodes=...)`
abbrev pub connection_config : String → DatabaseKind → List NodeConfig → ConnectionConfig
connection_config name kind nodes = record {
  name = name;
  kind = kind;
  nodes = nodes;
  pool = default_pool;
  retry = default_retry;
  circuit_breaker = default_circuit_breaker;
  echo = false;
  isolation_level = none;
}

-- The defaults are within the bounds: such a connection is accepted if its nodes are, and one of
-- them is a master.
pub accepts-connection_config :
    (name : String) (kind : DatabaseKind) (nodes : List NodeConfig)
    → accepts_connection (connection_config name kind nodes)
      ≡ (leb 1 (length nodes) && all accepts_node nodes && any (λ n. is_master n.role) nodes)
unfolding accepts_connection
accepts-connection_config name kind nodes = ground arith
