-- ===== src/Observability/Context.antt =====
-- core/context.py: the correlation id of a task. `uuid4 n` is the n-th random id that the task
-- asks for; `own` is the state of what runs in the task.
pub mod Scopes
use krossdb.Common.{
  ℕ, ◌+◌, String, Bool, true, false, Option, none, some, List, Result, ok, raise, Exec, ◌==◌,
  if◌then◌else◌,
}
use krossdb.Common.Dict.{Dict}
use krossdb.Errors.{Exn}

-- A counter of observability/metrics.py that was added to, or its histogram.
pub data Instrument : Type 0 where
  operation_counter operation_errors operation_latency : Instrument

pub record Measurement : Type 0 where
  pub instrument : Instrument
  pub attributes : Dict String

-- A client span of observability/tracing.py.
pub record Span : Type 0 where
  pub name : String
  pub attributes : Dict String
  pub error : Option Exn
  pub exceptions : List Exn

-- The context variables of the task, and what it has logged, measured and traced, oldest first.
pub record Task (P : Type 0) : Type 0 where
  pub correlation_id : Option String
  pub tenant_id : Option String
  pub minted : ℕ
  pub lines : List String
  pub measurements : List Measurement
  pub spans : List Span
  pub own : P

module _ {P : Type 0} (uuid4 : ℕ → String) where
  abbrev pub mint : Task P → Task P
  mint s = record s { minted = s.minted + 1 }

  abbrev pub or_minted : Option String → Exec (Task P) Exn String
  or_minted (some current) s = (ok current, s)
  or_minted none s = (
    ok (uuid4 s.minted),
    record s { minted = s.minted + 1; correlation_id = some (uuid4 s.minted) },
  )

  unfoldable pub get_correlation_id : Exec (Task P) Exn String
  get_correlation_id s = or_minted s.correlation_id s

  unfoldable pub set_correlation_id : String → Exec (Task P) Exn Unit
  set_correlation_id value s = (ok tt, record s { correlation_id = some value })

  -- `correlation_id or str(uuid.uuid4())`
  unfoldable pub value_or_uuid4 : Option String → Exec (Task P) Exn String
  value_or_uuid4 none s = (ok (uuid4 s.minted), mint s)
  value_or_uuid4 (some v) s = if v == "" then (ok (uuid4 s.minted), mint s) else (ok v, s)

  abbrev pub with_value :
      {A : Type 0}
      → (String → Exec (Task P) Exn A)
      → Option String
      → Result Exn String
      → Exec (Task P) Exn A
  with_value body old (raise e) s = (raise e, s)
  with_value body old (ok value) s =
      let (r, t) = body value (record s { correlation_id = some value }) in
      (r, record t { correlation_id = old })

  -- `with correlation_scope(correlation_id) as value: body`
  unfoldable pub correlation_scope :
      {A : Type 0} → Option String → (String → Exec (Task P) Exn A) → Exec (Task P) Exn A
  unfolding value_or_uuid4
  correlation_scope correlation_id body s =
      let (value, t) = value_or_uuid4 correlation_id s in with_value body s.correlation_id value t
