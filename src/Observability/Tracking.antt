-- ===== src/Observability/Tracking.antt =====
-- observability/metrics.py and observability/tracing.py. A latency that is recorded is left out.
-- What OpenTelemetry does to a span as its block ends is a parameter.
pub mod Outcomes
use krossdb.Common.{
  ℕ, String, Option, none, some, List, [], ◌∷◌, ◌++◌, Result, ok, raise, Exec, ◌>>=◌,
}
use krossdb.Common.Dict.{Dict, put}
use krossdb.Common.Text.{◌+++◌}
use krossdb.Errors.{Exn, cancelled}
use krossdb.Observability.Context.{
  Task, Measurement, Span, operation_counter, operation_errors, operation_latency,
  get_correlation_id,
}

-- `{**d, **attributes}`
unfoldable pub merge : Dict String → Dict String → Dict String
merge d [] = d
merge d ((k, v) ∷ attributes) = merge (put k v d) attributes

-- What `except Exception` catches of an outcome.
abbrev pub caught : {A : Type 0} → Result Exn A → Option Exn
caught (ok _) = none
caught (raise cancelled) = none
caught (raise e) = some e

abbrev pub failed : {A : Type 0} → Result Exn A → Dict String → List Measurement
failed (ok _) attrs = []
failed (raise cancelled) attrs = []
failed (raise e) attrs = record { instrument = operation_errors; attributes = attrs } ∷ []

-- Each key is set under the library's prefix.
unfoldable pub set_attributes : Dict String → Dict String → Dict String
set_attributes [] d = d
set_attributes ((k, v) ∷ attributes) d = set_attributes attributes (put ("krossdb." +++ k) v d)

abbrev pub marked : Option Exn → Span → Span
marked none span = span
marked (some e) span = record span { error = some e; exceptions = span.exceptions ++ e ∷ [] }

module _ {P A : Type 0} where
  -- `async with track_latency(operation, **attributes): body`
  unfoldable pub track_latency : String → Dict String → Exec (Task P) Exn A → Exec (Task P) Exn A
  unfolding merge
  track_latency operation attributes body s =
      let attrs = merge (("operation", operation) ∷ []) attributes in
      let (r, t) = body s in
      (
        r,
        record t {
          measurements =
              t.measurements
              ++ failed r attrs
              ++ record { instrument = operation_counter; attributes = attrs }
                ∷ record { instrument = operation_latency; attributes = attrs }
                ∷ [];
        },
      )

  -- `async with traced_operation(name, **attributes): body`; the span is exported as it ends.
  unfoldable pub traced_operation :
      (ℕ → String)
      → (Option Exn → Span → Span)
      → String
      → Dict String
      → Exec (Task P) Exn A
      → Exec (Task P) Exn A
  unfolding set_attributes
  traced_operation uuid4 ended name attributes body = get_correlation_id uuid4 >>= λ id s.
      let attrs = set_attributes attributes (("krossdb.correlation_id", id) ∷ []) in
      let (r, t) = body s in
      let span : Span = record { name = name; attributes = attrs; error = none; exceptions = [] } in
      (r, record t { spans = t.spans ++ ended (caught r) (marked (caught r) span) ∷ [] })
