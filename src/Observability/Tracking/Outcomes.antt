-- ===== src/Observability/Tracking/Outcomes.antt =====
-- observability/metrics.py and observability/tracing.py: what the two wrappers record of a block,
-- and that they leave its outcome alone.
use krossdb.Common.{ℕ, String, Option, none, [], ◌∷◌, ◌++◌, ◌≡◌, refl, Exec}
use krossdb.Common.Dict.{Dict}
use krossdb.Errors.{Exn}
use krossdb.Observability.Context.{Task, Span, operation_counter, operation_latency}
use krossdb.Observability.Context.Scopes.{ambient_id, ambient, get_correlation_id_lem}
use krossdb.Observability.Tracking.{
  merge, caught, failed, set_attributes, marked, track_latency, traced_operation,
}

module _ {P A : Type 0} (uuid4 : ℕ → String) (ended : Option Exn → Span → Span) where
  -- A block that is traced and measured runs once, in its task with the correlation id set, and
  -- ends as it would. Every outcome is counted and timed; only an exception, not a cancellation, is
  -- counted as an error and marks the span, whose attributes hold the correlation id. What the
  -- block itself measured and traced stays before.
  pub track_latency-traced_operation :
      (operation name : String) (attributes : Dict String) (body : Exec (Task P) Exn A) (s : Task P)
      → track_latency operation attributes (traced_operation uuid4 ended name attributes body) s ≡ (
        (body (ambient uuid4 s)).0,
        record (body (ambient uuid4 s)).1 {
          spans =
              (body (ambient uuid4 s)).1.spans
              ++ ended (caught (body (ambient uuid4 s)).0) (
                  marked (caught (body (ambient uuid4 s)).0) (record {
                    name = name;
                    attributes =
                        set_attributes attributes
                          (("krossdb.correlation_id", ambient_id uuid4 s) ∷ []);
                    error = none;
                    exceptions = [];
                  }))
                ∷ [];
          measurements =
              (body (ambient uuid4 s)).1.measurements
              ++ failed
                  (body (ambient uuid4 s)).0
                  (merge (("operation", operation) ∷ []) attributes)
              ++ record {
                instrument = operation_counter;
                attributes = merge (("operation", operation) ∷ []) attributes;
              }
                ∷ record {
                  instrument = operation_latency;
                  attributes = merge (("operation", operation) ∷ []) attributes;
                }
                ∷ [];
        },
      )
  unfolding track_latency traced_operation
  track_latency-traced_operation operation name attributes body s =
      rw (get_correlation_id_lem uuid4 s) refl
