-- ===== src/Adapter/Relational/Probes.antt =====
-- The probes of the master: the ping under the retry policy, and the health check.
use krossdb.Common.{
  ◌⊎◌, String, Bool, true, false, Option, none, some, [], ◌∷◌, ◌++◌, Result, ok, raise, ◌≡◌, ◌∙◌,
  any, ◌==◌,
}
use krossdb.Errors.{Exn, RawException, driver, cancelled, isinstance}
use krossdb.Resilience.Retry.{AsyncRetrying, with_retry}
use krossdb.Adapter.Relational.{State, Respond, ping, request}
use krossdb.Adapter.Relational.Lifecycle.{
  HealthCheckResult, healthy, degraded, unhealthy, ping_node, verify_node,
}

module _ (respond : Respond) (tenacity : AsyncRetrying State Unit) where
  -- A ping that fails with a driver's exception is made once, whatever the retry policy allows:
  -- the exception is not translated here, so it is none of the retryable classes, and it leaves
  -- the adapter as it is.
  pub ping_not_retried :
      (key : String) (s : State) (e : RawException)
      → respond s.history (ping key) ≡ raise (driver e)
      → ping_node respond tenacity key s
        ≡ (raise (driver e), record s { history = s.history ++ ping key ∷ [] })
  unfolding ping_node request isinstance with_retry
  ping_not_retried key s e h = tenacity.loop_step _ _ _ 1 s ∙ rw h

  -- The master answered: the report is of a database that is up, unless the check is cancelled as
  -- it asks the replicas.
  abbrev pub Answers : Result Exn HealthCheckResult → Type 0
  Answers (ok r) = (r.status ≡ healthy) ⊎ (r.status ≡ degraded)
  Answers (raise cancelled) = Unit
  Answers (raise _) = ⊥

  -- The report is of a database that is down.
  abbrev pub IsDown : Result Exn HealthCheckResult → Type 0
  IsDown (ok r) = r.status ≡ unhealthy
  IsDown (raise _) = ⊥

  -- The report by how the ping of the master ended.
  abbrev pub Verified : Result Exn Unit → Result Exn HealthCheckResult → Type 0
  Verified (ok _) out = Answers out
  Verified (raise cancelled) out = out ≡ raise cancelled
  Verified (raise _) out = IsDown out

  abbrev IfThere : Bool → String → State → Result Exn HealthCheckResult → Type 0
  IfThere true key s out = Verified (verify_node respond tenacity key s).0 out
  IfThere false key s out = IsDown out

  -- The report by the master's key: there is none, it has no engine, or its node is asked.
  abbrev pub Checks : Option String → State → Result Exn HealthCheckResult → Type 0
  Checks none s out = IsDown out
  Checks (some key) s out = IfThere (any (λ k. k == key) s.engines) key s out
