-- ===== src/Repository/Criteria.antt =====
-- interfaces/repository.py: operators, filters and their evaluation on an entity in Python. The
-- values are those of JSON's scalars, and lists of them for the operators on sets.
pub mod Relational
pub mod Mongo
pub mod Qdrant
use Prim.Native.Nat.{Ordering}
use Prim.Native.String
use krossdb.Common.{
  ℕ, String, Bool, true, false, not, Option, none, some, List, [], ◌∷◌, Result, ok, raise, ltb,
  nat_eq, any, map, ◌==◌,
}
use krossdb.Common.Dict.{Dict, lookup}
use krossdb.Common.Text.{codes, contains, decimal, ◌+++◌}
use krossdb.Errors.{Exn, type_error}

pub data Value : Type 0 where
  null : Value
  bool : Bool → Value
  num : ℕ → Value
  text : String → Value

pub data Operand : Type 0 where
  one : Value → Operand
  many : List Value → Operand

pub data Operator : Type 0 where
  eq ne gt gte lt lte in_ not_in contains_ is_null : Operator

pub record FieldFilter : Type 0 where
  pub field : String
  pub operator : Operator
  pub value : Operand

abbrev pub Specification : Type 0
Specification = List FieldFilter

pub data Criteria : Type 0 where
  absent : Criteria
  mapping : List (String × Operand) → Criteria
  specification : Specification → Criteria

-- `_normalize_criteria`
unfoldable pub normalize_criteria : Criteria → List FieldFilter
normalize_criteria absent = []
normalize_criteria (mapping items) =
    map (λ kv. record { field = kv.0; operator = eq; value = kv.1 }) items
normalize_criteria (specification filters) = filters

-- An entity by its attributes; a missing one reads as `None`.
abbrev pub Entity : Type 0
Entity = Dict Value

abbrev or_null : Option Value → Value
or_null none = null
or_null (some v) = v

unfoldable pub attribute : Entity → String → Value
unfolding lookup
attribute entity field = or_null (lookup field entity)

-- `True` and `False` compare as 1 and 0.
abbrev as_num : Bool → ℕ
as_num true = 1
as_num false = 0

unfoldable pub value_eq : Value → Value → Bool
value_eq null null = true
value_eq (bool a) (bool b) = nat_eq (as_num a) (as_num b)
value_eq (bool a) (num n) = nat_eq (as_num a) n
value_eq (num n) (bool b) = nat_eq n (as_num b)
value_eq (num m) (num n) = nat_eq m n
value_eq (text s) (text t) = s == t
value_eq _ _ = false

-- `a < b`, which raises on values of different sorts.
unfoldable pub value_lt : Value → Value → Result Exn Bool
value_lt (bool a) (bool b) = ok (ltb (as_num a) (as_num b))
value_lt (bool a) (num n) = ok (ltb (as_num a) n)
value_lt (num n) (bool b) = ok (ltb n (as_num b))
value_lt (num m) (num n) = ok (ltb m n)
value_lt (text s) (text t) = ok (elim (String.compare s t) [ Ordering.lt ↦ true | _ ↦ false ])
value_lt _ _ = raise type_error

abbrev negate : Result Exn Bool → Result Exn Bool
negate (ok b) = ok (not b)
negate (raise e) = raise e

-- `actual is not None and test`
abbrev present : Value → Result Exn Bool → Result Exn Bool
present null test = ok false
present _ test = test

-- A comparison with an operand; a list is no operand of an order.
abbrev compare_with : (Value → Result Exn Bool) → Operand → Result Exn Bool
compare_with test (one v) = test v
compare_with test (many _) = raise type_error

abbrev pub equals : Value → Operand → Bool
equals actual (one v) = value_eq actual v
equals actual (many _) = false

-- `actual in value`
abbrev member : Value → Operand → Result Exn Bool
member actual (many vs) = ok (any (value_eq actual) vs)
member (text a) (one (text v)) = ok (contains (codes a) (codes v))
member _ (one _) = raise type_error

-- `str(value)`
unfoldable pub show : Value → String
show null = "None"
show (bool true) = "True"
show (bool false) = "False"
show (num n) = decimal n
show (text s) = s

-- `repr(value)`, for texts without quotes, backslashes and control characters.
repr : Value → String
unfolding show
repr (text s) = "'" +++ s +++ "'"
repr v = show v

-- The items of a list as `str` joins them.
joined : List Value → String
unfolding repr
joined [] = ""
joined (v ∷ []) = repr v
joined (v ∷ w ∷ vs) = repr v +++ ", " +++ joined (w ∷ vs)

unfoldable pub show_operand : Operand → String
unfolding show joined
show_operand (one v) = show v
show_operand (many vs) = "[" +++ joined vs +++ "]"

-- `bool(value)`
unfoldable pub truthy : Operand → Bool
truthy (one null) = false
truthy (one (bool b)) = b
truthy (one (num n)) = not (nat_eq n 0)
truthy (one (text s)) = not (s == "")
truthy (many []) = false
truthy (many (_ ∷ _)) = true

abbrev is_none : Value → Bool
is_none null = true
is_none _ = false

abbrev same : Bool → Bool → Bool
same true b = b
same false b = not b

evaluate : Operator → Value → Operand → Result Exn Bool
unfolding value_eq value_lt show show_operand truthy contains
evaluate eq actual v = ok (equals actual v)
evaluate ne actual v = ok (not (equals actual v))
evaluate gt actual v = present actual (compare_with (λ x. value_lt x actual) v)
evaluate gte actual v = present actual (negate (compare_with (value_lt actual) v))
evaluate lt actual v = present actual (compare_with (value_lt actual) v)
evaluate lte actual v = present actual (negate (compare_with (λ x. value_lt x actual) v))
evaluate in_ actual v = member actual v
evaluate not_in actual v = negate (member actual v)
evaluate contains_ actual v =
    present actual (ok (contains (codes (show_operand v)) (codes (show actual))))
evaluate is_null actual v = ok (same (is_none actual) (truthy v))

-- `_matches_field_filter`
unfoldable pub matches_field_filter : Entity → FieldFilter → Result Exn Bool
unfolding evaluate attribute
matches_field_filter entity filt = evaluate filt.operator (attribute entity filt.field) filt.value

abbrev all_of : Result Exn Bool → Result Exn Bool → Result Exn Bool
all_of (ok true) rest = rest
all_of (ok false) rest = ok false
all_of (raise e) rest = raise e

matches_all : Entity → List FieldFilter → Result Exn Bool
unfolding matches_field_filter
matches_all entity [] = ok true
matches_all entity (f ∷ fs) = all_of (matches_field_filter entity f) (matches_all entity fs)

-- `_matches_criteria`
unfoldable pub matches_criteria : Entity → Criteria → Result Exn Bool
unfolding matches_all normalize_criteria
matches_criteria entity criteria = matches_all entity (normalize_criteria criteria)
