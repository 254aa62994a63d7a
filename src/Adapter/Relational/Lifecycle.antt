-- ===== src/Adapter/Relational/Lifecycle.antt =====
-- adapters/relational/base.py: `connect`, `disconnect`, and the health check.
use krossdb.Common.{
  ℕ, zero, suc, ◌+◌, String, Bool, true, false, Option, none, some, List, [], ◌∷◌, ◌++◌, Result, ok,
  raise, Exec, ◌>>=◌, ◌>>◌, pure, throw, continue, gets, lift, modify, length, any, ◌==◌,
  if◌then◌else◌, map,
}
use krossdb.Common.Text.{decimal, ◌+++◌}
use krossdb.Errors.{Exn, cancelled, error, configuration_error}
use krossdb.Config.{NodeConfig, RoutingRole, master, replica}
use krossdb.Resilience.Breaker.{init, call}
use krossdb.Resilience.Retry.{AsyncRetrying, retryable_exceptions, with_retry}
use krossdb.Adapter.Routing.{create}
use krossdb.Common.Dict.{put}
use krossdb.Adapter.Relational.{
  State, Respond, create_engine, ping, dispose, request, cell, breaker_of,
}

abbrev role_name : RoutingRole → String
role_name master = "master"
role_name replica = "replica"

pub data HealthStatus : Type 0 where
  healthy degraded unhealthy : HealthStatus

pub record HealthCheckResult : Type 0 where
  pub status : HealthStatus
  pub checked_nodes : ℕ

-- `f"{config_name}:{node.role}:{index}"`
unfoldable pub node_key : String → NodeConfig → ℕ → String
unfolding decimal
node_key name node index = name +++ ":" +++ role_name node.role +++ ":" +++ decimal index

abbrev first_master : RoutingRole → String → Option String → Option String
first_master master key none = some key
first_master _ key m = m

-- The entries that one node adds to the adapter's dictionaries, where a new key goes last.
add_node : String → RoutingRole → State → State
add_node key role s = record s {
  engines = if any (λ k. k == key) s.engines then s.engines else s.engines ++ key ∷ [];
  breakers = put key init s.breakers;
  master_key = first_master role key s.master_key;
}

module _ (respond : Respond) where
  -- The loop over `enumerate(self.config.nodes)`.
  add_nodes : ℕ → List NodeConfig → Exec State Exn Unit
  unfolding request add_node
  add_nodes i [] s = (ok tt, s)
  add_nodes i (node ∷ nodes) s =
      let key = node_key s.config.name node i in
      (request respond (create_engine key) >> λ s'.
      add_nodes (i + 1) nodes (add_node key node.role s'))
        s

  abbrev replica_entry : RoutingRole → String × ℕ → List (String × ℕ) → List (String × ℕ)
  replica_entry replica e es = e ∷ es
  replica_entry master e es = es

  replica_entries : String → ℕ → List NodeConfig → List (String × ℕ)
  replica_entries name i [] = []
  replica_entries name i (n ∷ ns) =
      replica_entry n.role (node_key name n i, n.weight) (replica_entries name (i + 1) ns)

  balance : List (String × ℕ) → Exec State Exn Unit
  balance [] s = (ok tt, s)
  balance (e ∷ es) s =
      (do
        b ← lift (create (map (λ p. p.0) (e ∷ es)) (map (λ p. p.1) (e ∷ es)))
        modify (λ s. record s { replica_balancer = some b }))
        s

  module _ (tenacity : AsyncRetrying State Unit) where
    -- `_ping`: connect and `SELECT 1`, under the retry policy.
    unfoldable pub ping_node : String → Exec State Exn Unit
    ping_node key s =
        with_retry tenacity s.config.retry retryable_exceptions (request respond (ping key)) s

    unfoldable pub verify_node : String → Exec State Exn Unit
    unfolding ping_node
    verify_node key = do
      b ← breaker_of key
      λ s. call (cell key) s.config.circuit_breaker (ping_node key) s

    abbrev require_master : Option String → Exec State Exn String
    require_master none = throw (error configuration_error)
    require_master (some k) = pure k

    unfoldable pub connect : Exec State Exn Unit
    unfolding add_nodes replica_entries balance verify_node
    connect = do
      config ← gets (λ s. s.config)
      add_nodes 0 config.nodes
      key ← (λ s. require_master s.master_key s)
      balance (replica_entries config.name 0 config.nodes)
      verify_node key
      modify (λ s. record s { connected = true })

    -- How a probe ended: `except Exception` takes all but a cancellation.
    unfoldable pub probed : Result Exn Unit × State → Result Exn Bool × State
    probed (ok _, s) = (ok true, s)
    probed (raise cancelled, s) = (raise cancelled, s)
    probed (raise e, s) = (ok false, s)

    -- The replicas that do not answer, each asked once.
    unfoldable pub count_down : String → List String → ℕ → Exec State Exn ℕ
    unfolding request probed
    count_down master_key [] n s = (ok n, s)
    count_down master_key (k ∷ ks) n s =
        let skipped = count_down master_key ks n s in
        let (up, s') = probed (request respond (ping k) s) in
        let asked = continue up (λ b. count_down master_key ks (if b then n else n + 1)) s' in
        if k == master_key then skipped else asked

    abbrev pub status_of : ℕ → HealthStatus
    status_of zero = healthy
    status_of (suc _) = degraded

    unfoldable pub report : String → Bool → Exec State Exn HealthCheckResult
    unfolding count_down
    report key false s = (ok (record { status = unhealthy; checked_nodes = length s.engines }), s)
    report key true s =
        (do
          down ← count_down key s.engines 0
          pure (record { status = status_of down; checked_nodes = length s.engines }))
          s

    unfoldable pub not_connected : Exec State Exn HealthCheckResult
    not_connected = pure (record { status = unhealthy; checked_nodes = 0 })

    unfoldable pub check_from : Option String → Exec State Exn HealthCheckResult
    unfolding probed report verify_node not_connected
    check_from none s = not_connected s
    check_from (some key) s =
        if any (λ k. k == key) s.engines
        then (let (up, s') = probed (verify_node key s) in continue up (report key) s')
        else not_connected s

    -- `health_check`, less the latency and the text of the detail.
    unfoldable pub health_check : Exec State Exn HealthCheckResult
    unfolding check_from
    health_check s = check_from s.master_key s

  dispose_all : List String → Exec State Exn Unit
  unfolding request
  dispose_all [] s = (ok tt, s)
  dispose_all (k ∷ ks) s = (request respond (dispose k) >> dispose_all ks) s

  unfoldable pub disconnect : Exec State Exn Unit
  unfolding dispose_all
  disconnect s =
      (dispose_all s.engines
          >> modify (λ t. record t {
            engines = [];
            breakers = [];
            replica_balancer = none;
            master_key = none;
            connected = false;
          }))
        s
