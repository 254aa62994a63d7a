-- ===== src/Observability/Logging.antt =====
-- core/logging.py: the two processors of this file and the chain of processors that a log line
-- goes through. structlog's processors are parameters, and so are the substitutions of the two
-- patterns in a text.
pub mod Chain
pub mod Loop
pub mod Masking
use krossdb.Common.{
  ℕ, String, Bool, ◌&&◌, ◌||◌, List, [], ◌∷◌, map, any, leb, nat_eq, ◌+◌, Result, ok, raise,
  and_then, if◌then◌else◌,
}
use krossdb.Common.Dict.{Dict, put}
use krossdb.Common.Text.{codes, contains, ◌+++◌}
use krossdb.Errors.{Exn, type_error}

-- The key of a nested dict; `search` takes texts only.
pub data Key : Type 0 where
  name : String → Key
  number : ℕ → Key

-- The value of an event's field; what `other` stands for is neither a text nor a dict.
mutual
  pub data Value : Type 0 where
    text : String → Value
    mapping : Fields → Value
    null : Value
    other : ℕ → Value

  pub data Fields : Type 0 where
    end : Fields
    field : Key → Value → Fields → Fields

-- A `str` under `re.IGNORECASE`: the letters that match a small Latin one.
unfoldable pub folded : ℕ → ℕ
folded c =
    if leb b'A' c && leb c b'Z'
    then c + 32
    else if nat_eq c 0x130 || nat_eq c 0x131
    then b'i'
    else if nat_eq c 0x17F
    then b's'
    else if nat_eq c 0x212A
    then b'k'
    else c

-- An alternative of the pattern: a word, or two with `[_-]?` between them.
pub data Alternative : Type 0 where
  word : String → Alternative
  joined : String → String → Alternative

abbrev spellings : Alternative → List String
spellings (word w) = w ∷ []
spellings (joined v w) = (v +++ w) ∷ (v +++ "_" +++ w) ∷ (v +++ "-" +++ w) ∷ []

abbrev sensitive_words : List Alternative
sensitive_words =
    word "password"
    ∷ word "passwd"
    ∷ word "secret"
    ∷ word "token"
    ∷ joined "api" "key"
    ∷ joined "access" "key"
    ∷ joined "private" "key"
    ∷ word "ssn"
    ∷ joined "social" "security"
    ∷ joined "credit" "card"
    ∷ word "cvv"
    ∷ word "authorization"
    ∷ []

-- `_SENSITIVE_KEY_PATTERN.search(key)`
unfoldable pub is_sensitive : String → Bool
unfolding folded contains
is_sensitive key =
    let folds = map folded (codes key) in
    any (λ a. any (λ w. contains (codes w) folds) (spellings a)) sensitive_words

abbrev pub redacted_text : String
redacted_text = "***REDACTED***"

abbrev pub as_mapping : Result Exn Fields → Result Exn Value
as_mapping (ok fs) = ok (mapping fs)
as_mapping (raise e) = raise e

module _ (sub_email sub_card : String → String) where
  -- `_mask_value`
  unfoldable pub mask_value : Value → Value
  mask_value (text t) = text (sub_card (sub_email t))
  mask_value v = v

  abbrev pub field_value : String → Value → Value
  field_value k v = if is_sensitive k then text redacted_text else mask_value v

  -- The comprehension over a nested dict.
  unfoldable pub mask_fields : Fields → Result Exn Fields
  unfolding mask_value
  mask_fields end = ok end
  mask_fields (field (number n) v fs) = raise type_error
  mask_fields (field (name k) v fs) = elim (mask_fields fs) [
    | ok rest ↦ ok (field (name k) (field_value k v) rest)
    | raise e ↦ raise e
  ]

  abbrev pub mask_open : Value → Result Exn Value
  mask_open (mapping fs) = as_mapping (mask_fields fs)
  mask_open v = ok (mask_value v)

  -- What the loop of `_mask_sensitive_data` assigns to a key.
  unfoldable pub mask_field : String → Value → Result Exn Value
  unfolding mask_fields
  mask_field key value = if is_sensitive key then ok (text redacted_text) else mask_open value

  -- The loop, over a copy of the items.
  unfoldable pub mask_each : List (String × Value) → Dict Value → Result Exn (Dict Value)
  unfolding mask_field
  mask_each [] event_dict = ok event_dict
  mask_each ((key, value) ∷ items) event_dict =
      and_then (mask_field key value) (λ v. mask_each items (put key v event_dict))

  unfoldable pub mask_sensitive_data : Dict Value → Result Exn (Dict Value)
  unfolding mask_each
  mask_sensitive_data event_dict = mask_each event_dict event_dict
