-- ===== src/Config/Laws.antt =====
-- What a validated connection guarantees to the adapters.
use krossdb.Common.{
  ◌+◌, ◌<◌, Bool, true, not, ◌≡◌, ◌≢◌, List, [], ◌∷◌, filter, any, all, length, arith,
}
use krossdb.Config.{
  NodeConfig, ConnectionConfig, is_master, master_nodes, replica_nodes, accepts_connection,
  accepts_node,
}

filter-any :
    (ns : List NodeConfig)
    → any (λ n. is_master n.role) ns ≡ true
    → filter (λ (n : NodeConfig). is_master n.role) ns ≢ []
filter-any [] h = cc
filter-any (n ∷ ns) h = ground (arith, filter-any ns)

split :
    (ns : List NodeConfig)
    → length (filter (λ (n : NodeConfig). is_master n.role) ns)
        + length (filter (λ (n : NodeConfig). not (is_master n.role)) ns)
      ≡ length ns
split [] = omega arith
split (n ∷ ns) = ground (arith, split ns)

all-filter :
    (p q : NodeConfig → Bool) (ns : List NodeConfig) → all p ns ≡ true → all p (filter q ns) ≡ true
all-filter p q [] h = h
all-filter p q (n ∷ ns) h = ground (arith, all-filter p q ns)

-- A connection that the models accept has a master node, its masters and replicas are all its
-- nodes, each replica has a weight of at least 1, and the breaker's threshold and the number of
-- attempts are at least 1.
pub accepts_connection_sound :
    (c : ConnectionConfig)
    → accepts_connection c ≡ true
    → (master_nodes c ≢ [])
      × (length (master_nodes c) + length (replica_nodes c) ≡ length c.nodes)
      × (all accepts_node (replica_nodes c) ≡ true)
      × (0 < c.circuit_breaker.failure_threshold)
      × (0 < c.retry.max_attempts)
unfolding accepts_connection master_nodes replica_nodes
accepts_connection_sound c h = (
  filter-any c.nodes (ground arith),
  split c.nodes,
  all-filter accepts_node _ c.nodes (ground arith),
  ground arith,
  ground arith,
)
