-- ===== src/Observability/Logging/Chain.antt =====
-- core/logging.py: `configure_logging`, the processor that adds the ambient ids, and the way of an
-- event through the configured processors. structlog's own processors and its renderers are
-- parameters; the chain hands each processor the result of the one before it, and prints what the
-- last one renders.
pub mod Lines
use krossdb.Common.{
  ℕ, String, Bool, true, false, Option, none, some, List, [], ◌∷◌, ◌++◌, ltb, Result, ok, raise,
  Exec, ◌>>=◌, ◌>>◌, pure, lift, gets, modify, length, is_some, if◌then◌else◌,
}
use krossdb.Common.Dict.{Dict, put, has}
use krossdb.Errors.{Exn}
use krossdb.Observability.Context.{Task, get_correlation_id}
use krossdb.Observability.Logging.{Value, text, mask_sensitive_data}

pub data Processor : Type 0 where
  merge_contextvars inject_context add_log_level time_stamper : Processor
  stack_info_renderer mask_sensitive format_exc_info : Processor

pub data Renderer : Type 0 where
  json_renderer console_renderer : Renderer

pub record Configuration : Type 0 where
  pub processors : List Processor
  pub renderer : Renderer
  pub level : ℕ

-- `configure_logging(json_output=..., level=...)`
unfoldable pub configure_logging : Bool → ℕ → Configuration
configure_logging json_output level = record {
  processors =
      merge_contextvars ∷ inject_context ∷ add_log_level ∷ time_stamper ∷ stack_info_renderer
      ∷ mask_sensitive ∷ format_exc_info ∷ [];
  renderer = if json_output then json_renderer else console_renderer;
  level = level;
}

-- What is not in this repository.
pub record Structlog : Type 0 where
  pub merged : Dict Value → Dict Value
  pub leveled : Dict Value → Dict Value
  pub stacked : Dict Value → Dict Value
  pub formatted : Dict Value → Dict Value
  -- The clock is read at each line.
  pub stamped : ℕ → Dict Value → Dict Value
  pub render : Renderer → Dict Value → String
  pub sub_email : String → String
  pub sub_card : String → String

-- `event_dict.setdefault(key, value)`
unfoldable pub setdefault : String → Value → Dict Value → Dict Value
setdefault key value d = if has key d then d else put key value d

abbrev pub with_tenant : Option String → Dict Value → Dict Value
with_tenant none d = d
with_tenant (some t) d = setdefault "tenant_id" (text t) d

module _ {P : Type 0} (uuid4 : ℕ → String) (structlog : Structlog) where
  open structlog use {merged, leveled, stacked, formatted, stamped, render, sub_email, sub_card}

  -- `_inject_context`: the id is asked for, and minted, also when the event has one.
  unfoldable pub inject_context_into : Dict Value → Exec (Task P) Exn (Dict Value)
  unfolding setdefault
  inject_context_into event_dict = get_correlation_id uuid4 >>= λ id s.
      (ok (with_tenant s.tenant_id (setdefault "correlation_id" (text id) event_dict)), s)

  abbrev pub process : Processor → Dict Value → Exec (Task P) Exn (Dict Value)
  process merge_contextvars d = pure (merged d)
  process inject_context d = inject_context_into d
  process add_log_level d = pure (leveled d)
  process time_stamper d = gets (λ s. stamped (length s.lines) d)
  process stack_info_renderer d = pure (stacked d)
  process mask_sensitive d = lift (mask_sensitive_data sub_email sub_card d)
  process format_exc_info d = pure (formatted d)

  unfoldable pub process_all : List Processor → Dict Value → Exec (Task P) Exn (Dict Value)
  unfolding inject_context_into
  process_all [] d = pure d
  process_all (p ∷ ps) d = process p d >>= process_all ps

  -- A call of a logger's method at a level; below the configured one it does nothing.
  unfoldable pub log : Configuration → ℕ → String → Dict Value → Exec (Task P) Exn Unit
  unfolding process_all
  log c level event kw =
      let printed =
        process_all c.processors (put "event" (text event) kw)
        >>= (λ d. modify (λ s. record s { lines = s.lines ++ render c.renderer d ∷ [] })) in
      if ltb level c.level then pure tt else printed
