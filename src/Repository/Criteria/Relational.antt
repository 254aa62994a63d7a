-- ===== src/Repository/Criteria/Relational.antt =====
-- repositories/relational_repository.py: `_condition_for_filter`, `_apply_criteria` and
-- `_apply_extra_criteria`, for a table with given columns.
use krossdb.Common.{
  String, Bool, true, false, Option, none, some, List, [], ◌∷◌, ◌++◌, Result, ok, raise, any, ◌==◌,
  if◌then◌else◌,
}
use krossdb.Errors.{Exn, key_error}
use krossdb.Repository.Criteria.{
  Operand, Operator, FieldFilter, Specification, Criteria, bool, one, eq, ne, gt, gte, lt, lte, in_,
  not_in, contains_, is_null, normalize_criteria,
}

-- SQLAlchemy's expressions on a column.
pub data Condition : Type 0 where
  equal not_equal greater greater_equal less less_equal member no_member containing :
      String → Operand → Condition
  null_column not_null_column : String → Condition

-- `value is False`
abbrev pub is_false : Operand → Bool
is_false (one (bool false)) = true
is_false _ = false

abbrev condition : Operator → String → Operand → Condition
condition eq column value = equal column value
condition ne column value = not_equal column value
condition gt column value = greater column value
condition gte column value = greater_equal column value
condition lt column value = less column value
condition lte column value = less_equal column value
condition in_ column value = member column value
condition not_in column value = no_member column value
condition contains_ column value = containing column value
condition is_null column value =
    if is_false value then not_null_column column else null_column column

-- `table.c[field]` raises `KeyError` on a column that the table has not.
unfoldable pub condition_for_filter : List String → FieldFilter → Result Exn Condition
condition_for_filter columns filt =
    if any (λ c. c == filt.field) columns
    then ok (condition filt.operator filt.field filt.value)
    else raise key_error

abbrev and_where : Result Exn Condition → List Condition → Result Exn (List Condition)
and_where (ok c) stmt = ok (stmt ++ c ∷ [])
and_where (raise e) stmt = raise e

abbrev pub bind_where :
    Result Exn (List Condition)
    → (List Condition → Result Exn (List Condition))
    → Result Exn (List Condition)
bind_where (ok stmt) f = f stmt
bind_where (raise e) f = raise e

-- The loop of `stmt.where(...)`; a statement is its conditions.
unfoldable pub apply_filters :
    List String → List FieldFilter → List Condition → Result Exn (List Condition)
unfolding condition_for_filter
apply_filters columns [] stmt = ok stmt
apply_filters columns (f ∷ fs) stmt =
    bind_where (and_where (condition_for_filter columns f) stmt) (apply_filters columns fs)

unfoldable pub apply_criteria :
    List String → Criteria → List Condition → Result Exn (List Condition)
unfolding apply_filters
apply_criteria columns criteria stmt = apply_filters columns (normalize_criteria criteria) stmt

abbrev pub or_empty : Option Specification → List FieldFilter
or_empty none = []
or_empty (some fs) = fs

unfoldable pub apply_extra_criteria :
    List String → Option Specification → List Condition → Result Exn (List Condition)
unfolding apply_filters
apply_extra_criteria columns extra_criteria stmt =
    apply_filters columns (or_empty extra_criteria) stmt
