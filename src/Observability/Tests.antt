-- ===== src/Observability/Tests.antt =====
-- A task that logs an event with secrets, and the limits of the masking.
use krossdb.Common.{
  ℕ, String, Bool, true, none, some, [], ◌∷◌, ◌≡◌, refl, ◌==◌, ok, raise, if◌then◌else◌,
}
use krossdb.Common.Dict.{Dict, put}
use krossdb.Errors.{type_error}
use krossdb.Observability.Context.{Task, correlation_scope, get_correlation_id}
use krossdb.Observability.Logging.{
  Value, text, mapping, null, end, field, name, number, is_sensitive, mask_sensitive_data,
}
use krossdb.Observability.Logging.Chain.{Structlog}
use krossdb.Observability.Logging.Chain.Lines.{KeepsProper}

abbrev uuid4 : ℕ → String
uuid4 n = "5f0c"

-- Substitutions that replace a whole text.
abbrev sub_email : String → String
sub_email t = if t == "ann@example.org" then "***REDACTED***" else t

abbrev sub_card : String → String
sub_card t = t

abbrev structlog : Structlog
structlog = record {
  merged = λ d. d;
  leveled = λ d. d;
  stacked = λ d. d;
  formatted = λ d. d;
  stamped = λ n d. d;
  render = λ r d. "line";
  sub_email = sub_email;
  sub_card = sub_card;
}

abbrev keeps : KeepsProper structlog
keeps = record { merged = λ d h. h; leveled = λ d h. h; stamped = λ n d h. h; stacked = λ d h. h }

abbrev task : Task Bool
task = record {
  correlation_id = none;
  tenant_id = none;
  minted = 0;
  lines = [];
  measurements = [];
  spans = [];
  own = true;
}

abbrev login : Dict Value
login =
    ("user", text "ann@example.org")
    ∷ ("API-Key", text "k1")
    ∷ (
      "request",
      mapping (field (name "Password") (text "p1") (field (name "path") (text "/") end)),
    )
    ∷ []

masked_login :
    mask_sensitive_data sub_email sub_card login
    ≡ ok (
        ("user", text "***REDACTED***")
        ∷ ("API-Key", text "***REDACTED***")
        ∷ (
          "request",
          mapping (
              field (name "Password") (text "***REDACTED***") (field (name "path") (text "/") end)),
        )
        ∷ [])
unfolding mask_sensitive_data is_sensitive put
masked_login = refl

-- A dict in a nested dict is left as it is.
unmasked_below :
    mask_sensitive_data sub_email sub_card (
      ("a", mapping (field (name "b") (mapping (field (name "password") (text "p1") end)) end))
      ∷ [])
    ≡ ok (
        ("a", mapping (field (name "b") (mapping (field (name "password") (text "p1") end)) end))
        ∷ [])
unfolding mask_sensitive_data is_sensitive put
unmasked_below = refl

-- A number as the key of a nested dict makes the call of the logger raise.
number_key :
    mask_sensitive_data sub_email sub_card (("rows", mapping (field (number 7) null end)) ∷ [])
    ≡ raise type_error
unfolding mask_sensitive_data is_sensitive put
number_key = refl

scoped_id :
    (correlation_scope uuid4 (some "req-1") (λ v. get_correlation_id uuid4) task).0 ≡ ok "req-1"
unfolding correlation_scope get_correlation_id
scoped_id = refl
