-- ===== src/Observability/Audit/Trail.antt =====
-- observability/audit.py: the entry that a sink gets, and the line that the logging sink prints.
use krossdb.Common.{
  ℕ, ◌+◌, String, Bool, Option, none, some, [], ◌∷◌, ◌++◌, ◌≡◌, refl, ltb, All, ok, if◌then◌else◌,
  ◌∙◌,
}
use krossdb.Common.Dict.{Dict}
use krossdb.Observability.Context.{Task}
use krossdb.Observability.Context.Scopes.{
  ambient_id, ambient, get_correlation_id_lem, ambient-keeps, ambient-set,
}
use krossdb.Observability.Logging.{Value}
use krossdb.Observability.Logging.Masking.{Named, Clean}
use krossdb.Observability.Logging.Chain.{Structlog, configure_logging}
use krossdb.Observability.Logging.Chain.Lines.{KeepsProper, log-Clean}
use krossdb.Observability.Audit.{
  AuditRecord, AuditSink, Mutation, actor_or, optional_text, audit, logging_sink,
}

optional_text-Named : (o : Option String) → Named (optional_text o)
optional_text-Named none = tt
optional_text-Named (some t) = tt

module _ {P : Type 0} (uuid4 : ℕ → String) where
  -- The entry of a mutation in a task.
  abbrev pub entry_of : Option String → Mutation → Task P → AuditRecord
  entry_of default_actor m s = record {
    id = uuid4 (ambient uuid4 s).minted;
    entity_type = m.entity_type;
    entity_id = m.entity_id;
    action = m.action;
    actor = actor_or m.actor default_actor;
    tenant_id = s.tenant_id;
    correlation_id = some (ambient_id uuid4 s);
    before = m.before;
    after = m.after;
  }

  abbrev pub identified : Task P → Task P
  identified s = record (ambient uuid4 s) { minted = (ambient uuid4 s).minted + 1 }

  -- The sink gets one entry, with the tenant and the correlation id of the task.
  pub audit_lem :
      (sink : AuditSink P) (default_actor : Option String) (m : Mutation) (s : Task P)
      → audit uuid4 sink default_actor m s ≡ sink (entry_of default_actor m s) (identified s)
  unfolding audit
  audit_lem sink default_actor m s = rw (get_correlation_id_lem uuid4 s) refl

  ambient-identified : (s : Task P) → ambient uuid4 (identified s) ≡ identified s
  ambient-identified s =
      ambient-set uuid4 (ambient_id uuid4 s) (identified s) (ambient-keeps uuid4 s).5

  -- With the logging sink, a recorded mutation prints one line if `info` is logged and none
  -- otherwise. The line renders an event in which every secret is masked, but for what
  -- `format_exc_info` adds after the masking. Nothing else changes but for the ids that are drawn.
  pub audit-logging_sink :
      (structlog : Structlog) (keeps : KeepsProper structlog) (json_output : Bool) (level : ℕ)
      (default_actor : Option String) (m : Mutation) (s : Task P)
      → (d : Dict Value) × All (Clean structlog.sub_email structlog.sub_card) d
        × (audit uuid4
              (logging_sink uuid4 structlog (configure_logging json_output level))
              default_actor
              m
              s
            ≡ (
              ok tt,
              if ltb 20 level then identified s else record (identified s) {
                lines =
                    s.lines
                    ++ structlog.render
                        (configure_logging json_output level).renderer
                        (structlog.formatted d)
                      ∷ [];
              },
            ))
  unfolding logging_sink
  audit-logging_sink structlog keeps json_output level default_actor m s =
      let e : AuditRecord = entry_of default_actor m s in
      let (d, clean, _, given) =
        log-Clean uuid4 structlog keeps json_output level 20 "audit_trail" _ (identified s) (
          refl,
          (
            tt,
            (tt, (tt, (optional_text-Named e.actor, (optional_text-Named e.tenant_id, (tt, tt))))),
          ),
        ) in
      (
        d,
        clean,
        audit_lem _ default_actor m s
            ∙ given
            ∙ rw (ambient-identified s, (ambient-keeps uuid4 s).0) refl,
      )
