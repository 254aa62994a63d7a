-- ===== src/Repository/Criteria/Mongo.antt =====
-- repositories/document_repository.py: `_clause_for_filter` and `_criteria_to_query`.
pub mod Exact
use krossdb.Common.{
  String, Bool, true, false, not, ◌&&◌, Option, none, some, List, [], ◌∷◌, ◌++◌, map, all, ◌==◌,
  if◌then◌else◌,
}
use krossdb.Common.Dict.{Dict, lookup, put, has}
use krossdb.Repository.Criteria.{
  Value, Operand, Operator, FieldFilter, Criteria, null, one, eq, ne, gt, gte, lt, lte, in_, not_in,
  contains_, is_null, truthy, show_operand, normalize_criteria,
}

-- The argument of an operator: a value, or `re.escape(text)`.
pub data Argument : Type 0 where
  plain : Operand → Argument
  escaped : String → Argument

-- A clause is a value to be equal to, or a dict of operators.
pub data Clause : Type 0 where
  scalar : Operand → Clause
  operators : Dict Argument → Clause

abbrev single : String → Argument → Clause
single name argument = operators ((name, argument) ∷ [])

unfoldable pub clause_for_filter : FieldFilter → Clause
unfolding truthy show_operand
clause_for_filter filt = elim filt.operator [
  | eq ↦ scalar filt.value
  | is_null ↦ if truthy filt.value then scalar (one null) else single "$ne" (plain (one null))
  | contains_ ↦ single "$regex" (escaped (show_operand filt.value))
  | ne ↦ single "$ne" (plain filt.value)
  | gt ↦ single "$gt" (plain filt.value)
  | gte ↦ single "$gte" (plain filt.value)
  | lt ↦ single "$lt" (plain filt.value)
  | lte ↦ single "$lte" (plain filt.value)
  | in_ ↦ single "$in" (plain filt.value)
  | not_in ↦ single "$nin" (plain filt.value)
]

-- `existing.keys().isdisjoint(clause)`
unfoldable pub disjoint : Dict Argument → Dict Argument → Bool
unfolding has
disjoint existing clause = all (λ e. not (has e.0 existing)) clause

-- `{**existing, **clause}`
unfoldable pub merge : Dict Argument → Dict Argument → Dict Argument
merge existing [] = existing
merge existing ((name, argument) ∷ clause) = merge (put name argument existing) clause

-- The loop's state: the query so far, and the clauses that go under `$and`.
pub record Built : Type 0 where
  pub query : Dict Clause
  pub extra_clauses : List (String × Clause)

abbrev extra : String → Clause → Built → Built
extra field clause b = record b { extra_clauses = b.extra_clauses ++ (field, clause) ∷ [] }

-- One filter's clause, by the clause that its field has.
abbrev place : String → Option Clause → Clause → Built → Built
place field none clause b = record b { query = put field clause b.query }
place field (some (operators existing)) (operators clause) b =
    if disjoint existing clause
    then record b { query = put field (operators (merge existing clause)) b.query }
    else extra field (operators clause) b
place field (some (operators existing)) (scalar v) b = extra field (scalar v) b
place field (some (scalar v)) clause b = extra field clause b

unfoldable pub place_all : List FieldFilter → Built → Built
unfolding clause_for_filter
place_all [] b = b
place_all (f ∷ fs) b = place_all fs (place f.field (lookup f.field b.query) (clause_for_filter f) b)

pub data Query : Type 0 where
  fields : Dict Clause → Query
  conjunction : List (Dict Clause) → Query

-- The query as it is returned: `$and` only if there are clauses for it.
abbrev assemble : Dict Clause → List (String × Clause) → Query
assemble query [] = fields query
assemble [] (c ∷ cs) = conjunction (map (λ e. e ∷ []) (c ∷ cs))
assemble (q ∷ qs) (c ∷ cs) = conjunction ((q ∷ qs) ∷ map (λ e. e ∷ []) (c ∷ cs))

unfoldable pub criteria_to_query : Criteria → Query
unfolding place_all
criteria_to_query criteria =
    let b = place_all (normalize_criteria criteria) (record { query = []; extra_clauses = [] }) in
    assemble b.query b.extra_clauses
