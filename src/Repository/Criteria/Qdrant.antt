-- ===== src/Repository/Criteria/Qdrant.antt =====
-- repositories/vector_repository.py: `_add_condition`, `_criteria_to_filter` and
-- `_points_selector`, and what the filters they build select. The client's models are taken to
-- accept every value that a filter has; what they refuse, such as a match of `None`, is not modelled.
use krossdb.Common.{
  String, Bool, true, not, ◌&&◌, Option, none, some, List, [], ◌∷◌, ◌++◌, all, all-append,
  if◌then◌else◌, ◌≡◌, refl, ◌∙◌, arith, Bool-cases, inl, inr,
}
use krossdb.Repository.Criteria.{
  Operand, Operator, FieldFilter, Specification, Criteria, eq, ne, gt, gte, lt, lte, in_, not_in,
  contains_, is_null, truthy, show_operand, normalize_criteria,
}

-- The client's conditions. `match_any` takes what `list(value)` gives.
pub data Condition : Type 0 where
  match_value match_except match_any range_gt range_gte range_lt range_lte :
      String → Operand → Condition
  match_text : String → String → Condition
  is_null_condition : String → Condition
  has_id : List String → Condition

pub record Lists : Type 0 where
  pub must : List Condition
  pub must_not : List Condition

abbrev require : Condition → Lists → Lists
require c ls = record ls { must = ls.must ++ c ∷ [] }

abbrev forbid : Condition → Lists → Lists
forbid c ls = record ls { must_not = ls.must_not ++ c ∷ [] }

-- `_add_condition` by the operator.
abbrev add : Operator → String → Operand → Lists → Lists
add eq field v ls = require (match_value field v) ls
add ne field v ls = require (match_except field v) ls
add in_ field v ls = require (match_any field v) ls
add not_in field v ls = forbid (match_any field v) ls
add gt field v ls = require (range_gt field v) ls
add gte field v ls = require (range_gte field v) ls
add lt field v ls = require (range_lt field v) ls
add lte field v ls = require (range_lte field v) ls
add contains_ field v ls = require (match_text field (show_operand v)) ls
add is_null field v ls =
    if truthy v then require (is_null_condition field) ls else forbid (is_null_condition field) ls

unfoldable pub add_condition : FieldFilter → Lists → Lists
add_condition filt ls = add filt.operator filt.field filt.value ls

unfoldable pub add_all : List FieldFilter → Lists → Lists
unfolding add_condition
add_all [] ls = ls
add_all (f ∷ fs) ls = add_all fs (add_condition f ls)

-- `Filter(must=must or None, must_not=must_not or None)`
abbrev filter_of : List FieldFilter → Option Lists
filter_of [] = none
filter_of (f ∷ fs) = some (add_all (f ∷ fs) (record { must = []; must_not = [] }))

unfoldable pub criteria_to_filter : Criteria → Option Lists
unfolding add_all
criteria_to_filter criteria = filter_of (normalize_criteria criteria)

-- A selector names points, or is a filter.
pub data Selector : Type 0 where
  ids : List String → Selector
  by_filter : Lists → Selector

unfoldable pub points_selector : String → Option Specification → Selector
unfolding add_all
points_selector id none = ids (id ∷ [])
points_selector id (some []) = ids (id ∷ [])
points_selector id (some (f ∷ fs)) =
    by_filter (add_all (f ∷ fs) (record { must = has_id (id ∷ []) ∷ []; must_not = [] }))

-- Qdrant's reading of the conditions on a point: a filter selects it if every condition of
-- `must` holds and none of `must_not` does, and a named point is selected by its id.
module _ {Point : Type 0} (holds : Point → Condition → Bool) (p : Point) where
  abbrev pub selects_lists : Lists → Bool
  selects_lists ls = all (holds p) ls.must && all (λ c. not (holds p c)) ls.must_not

  abbrev pub selects_filter : Option Lists → Bool
  selects_filter none = true
  selects_filter (some ls) = selects_lists ls

  abbrev pub selects : Selector → Bool
  selects (ids is) = holds p (has_id is)
  selects (by_filter ls) = selects_lists ls

  -- What one filter asks of a point.
  abbrev asks : Operator → String → Operand → Bool
  asks eq field v = holds p (match_value field v)
  asks ne field v = holds p (match_except field v)
  asks in_ field v = holds p (match_any field v)
  asks not_in field v = not (holds p (match_any field v))
  asks gt field v = holds p (range_gt field v)
  asks gte field v = holds p (range_gte field v)
  asks lt field v = holds p (range_lt field v)
  asks lte field v = holds p (range_lte field v)
  asks contains_ field v = holds p (match_text field (show_operand v))
  asks is_null field v =
      if truthy v
      then holds p (is_null_condition field)
      else not (holds p (is_null_condition field))

  abbrev pub asked : FieldFilter → Bool
  asked f = asks f.operator f.field f.value

  selects-require :
      (c : Condition) (ls : Lists)
      → selects_lists (record ls { must = ls.must ++ c ∷ [] }) ≡ (selects_lists ls && holds p c)
  selects-require c ls = ground (arith, all-append (holds p) ls.must (c ∷ []))

  selects-forbid :
      (c : Condition) (ls : Lists)
      → selects_lists (record ls { must_not = ls.must_not ++ c ∷ [] })
        ≡ (selects_lists ls && not (holds p c))
  selects-forbid c ls = ground (arith, all-append (λ x. not (holds p x)) ls.must_not (c ∷ []))

  selects-add :
      (o : Operator) (field : String) (v : Operand) (ls : Lists)
      → selects_lists (add o field v ls) ≡ (selects_lists ls && asks o field v)
  selects-add eq field v ls = selects-require _ ls
  selects-add ne field v ls = selects-require _ ls
  selects-add in_ field v ls = selects-require _ ls
  selects-add not_in field v ls = selects-forbid _ ls
  selects-add gt field v ls = selects-require _ ls
  selects-add gte field v ls = selects-require _ ls
  selects-add lt field v ls = selects-require _ ls
  selects-add lte field v ls = selects-require _ ls
  selects-add contains_ field v ls = selects-require _ ls
  selects-add is_null field v ls = elim (Bool-cases (truthy v)) [
    | inl e ↦ rw e (selects-require _ ls)
    | inr e ↦ rw e (selects-forbid _ ls)
  ]

  pub selects-add_all :
      (fs : List FieldFilter) (ls : Lists)
      → selects_lists (add_all fs ls) ≡ (selects_lists ls && all asked fs)
  unfolding add_all
  selects-add_all [] ls = ground arith
  selects-add_all (f ∷ fs) ls =
      ground
        (arith, selects-add_all fs (add_condition f ls), selects-add f.operator f.field f.value ls)

  -- The filter built from criteria selects a point exactly if the point has what each of the
  -- filters asks, and without criteria every point is selected.
  pub criteria_to_filter_exact :
      (criteria : Criteria)
      → selects_filter (criteria_to_filter criteria) ≡ all asked (normalize_criteria criteria)
  unfolding criteria_to_filter
  criteria_to_filter_exact criteria = cases (normalize_criteria criteria)
    where
      cases : (fs : List FieldFilter) → selects_filter (filter_of fs) ≡ all asked fs
      cases [] = refl
      cases (f ∷ fs) = selects-add_all (f ∷ fs) (record { must = []; must_not = [] })

  -- The selector of a scoped write selects a point exactly if it is the one named and it has
  -- what each extra filter asks.
  pub points_selector_exact :
      (id : String) (extra_criteria : Option Specification)
      → selects (points_selector id extra_criteria) ≡ (
          holds p (has_id (id ∷ []))
          && all asked (elim extra_criteria [ none ↦ [] | some fs ↦ fs ]))
  unfolding points_selector
  points_selector_exact id none = ground arith
  points_selector_exact id (some []) = ground arith
  points_selector_exact id (some (f ∷ fs)) =
      selects-add_all (f ∷ fs) (record { must = has_id (id ∷ []) ∷ []; must_not = [] })
      ∙ ground arith
