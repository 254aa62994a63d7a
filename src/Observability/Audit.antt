-- ===== src/Observability/Audit.antt =====
-- observability/audit.py, and `AuditRecord` of models/base.py. An entity's id is its text, and the
-- time of an entry is left out.
pub mod Trail
use krossdb.Common.{
  ℕ, ◌+◌, String, Bool, Option, none, some, List, [], ◌∷◌, Exec, ok, ◌>>=◌, gets, ◌==◌,
  if◌then◌else◌,
}
use krossdb.Common.Dict.{Dict}
use krossdb.Errors.{Exn}
use krossdb.Observability.Context.{Task, get_correlation_id}
use krossdb.Observability.Logging.{Value, text, null}
use krossdb.Observability.Logging.Chain.{Structlog, Configuration, log}

pub record AuditRecord : Type 0 where
  pub id : String
  pub entity_type : String
  pub entity_id : String
  pub action : String
  pub actor : Option String
  pub tenant_id : Option String
  pub correlation_id : Option String
  pub before : Option (Dict Value)
  pub after : Option (Dict Value)

-- The keyword arguments of `AuditTrailRecorder.record`.
pub record Mutation : Type 0 where
  pub entity_type : String
  pub entity_id : String
  pub action : String
  pub before : Option (Dict Value)
  pub after : Option (Dict Value)
  pub actor : Option String

-- `actor or self._default_actor`
unfoldable pub actor_or : Option String → Option String → Option String
actor_or none default_actor = default_actor
actor_or (some a) default_actor = if a == "" then default_actor else some a

abbrev pub optional_text : Option String → Value
optional_text none = null
optional_text (some t) = text t

-- `AbstractAuditSink`
abbrev pub AuditSink : Type 0 → Type 0
AuditSink P = AuditRecord → Exec (Task P) Exn Unit

module _ {P : Type 0} (uuid4 : ℕ → String) where
  -- `LoggingAuditSink.record`, at the level of `info`.
  unfoldable pub logging_sink : Structlog → Configuration → AuditSink P
  logging_sink structlog c entry = log uuid4 structlog c 20 "audit_trail" (
      ("entity_type", text entry.entity_type)
      ∷ ("entity_id", text entry.entity_id)
      ∷ ("action", text entry.action)
      ∷ ("actor", optional_text entry.actor)
      ∷ ("tenant_id", optional_text entry.tenant_id)
      ∷ ("correlation_id", optional_text entry.correlation_id)
      ∷ [])

  -- The entry's own id is random.
  abbrev pub new_id : Exec (Task P) Exn String
  new_id s = (ok (uuid4 s.minted), record s { minted = s.minted + 1 })

  -- `AuditTrailRecorder(sink, actor=default_actor).record(...)`
  unfoldable pub audit : AuditSink P → Option String → Mutation → Exec (Task P) Exn Unit
  unfolding actor_or
  audit sink default_actor m = do
    tenant ← gets (λ s. s.tenant_id)
    correlation ← get_correlation_id uuid4
    id ← new_id
    sink (record {
      id = id;
      entity_type = m.entity_type;
      entity_id = m.entity_id;
      action = m.action;
      actor = actor_or m.actor default_actor;
      tenant_id = tenant;
      correlation_id = some correlation;
      before = m.before;
      after = m.after;
    })
