-- ===== src/Repository/Criteria/Mongo/Exact.antt =====
-- What the query built from criteria selects.
use krossdb.Common.{
  String, Bool, true, ◌&&◌, Option, none, some, List, [], ◌∷◌, ◌++◌, map, all, all-append, ◌==◌,
  ◌≡◌, refl, ap, ◌∙◌, arith, eq_iff, Bool-cases, inl, inr,
}
use krossdb.Common.Dict.{Dict, lookup, put}
use krossdb.Repository.Criteria.{FieldFilter, Criteria, normalize_criteria}
use krossdb.Repository.Criteria.Mongo.{
  Argument, Clause, scalar, operators, clause_for_filter, disjoint, merge, Built, place, place_all,
  Query, fields, conjunction, assemble, criteria_to_query,
}

-- MongoDB's reading of a clause on a field of a document: the operators of one dict hold together
-- exactly if those of its parts do.
pub record Semantics (Document : Type 0) : Type 0 where
  pub holds : Document → String → Clause → Bool
  pub holds-merge :
      (d : Document) (field : String) (xs ys : Dict Argument)
      → disjoint xs ys ≡ true
      → holds d field (operators (merge xs ys))
        ≡ (holds d field (operators xs) && holds d field (operators ys))

module _ {Document : Type 0} (mongo : Semantics Document) (d : Document) where
  abbrev pub entry : String × Clause → Bool
  entry e = mongo.holds d e.0 e.1

  -- A document matches a dict of fields, and a `$and`, if it matches each part.
  abbrev pub selects : Query → Bool
  selects (fields query) = all entry query
  selects (conjunction queries) = all (λ q. all entry q) queries

  all-put-new :
      (field : String) (c : Clause) (q : Dict Clause)
      → lookup field q ≡ none
      → all entry (put field c q) ≡ (all entry q && entry (field, c))
  unfolding lookup put
  all-put-new field c [] h = ground arith
  all-put-new field c ((j, x) ∷ q) h = elim (Bool-cases (j == field)) [
    | inl e ↦ absurd (ground arith)
    | inr e ↦ ground (arith, all-put-new field c q (ground arith))
  ]

  all-put-merge :
      (field : String) (old c new : Clause) (q : Dict Clause)
      → lookup field q ≡ some old
      → entry (field, new) ≡ (entry (field, old) && entry (field, c))
      → all entry (put field new q) ≡ (all entry q && entry (field, c))
  unfolding lookup put
  all-put-merge field old c new [] h m = absurd (ground arith)
  all-put-merge field old c new ((j, x) ∷ q) h m = elim (Bool-cases (j == field)) [
    | inl e ↦ ground (arith, (eq_iff j field).0 e)
    | inr e ↦ ground (arith, all-put-merge field old c new q (ground arith) m)
  ]

  -- What the loop's state requires.
  abbrev required : Built → Bool
  required b = all entry b.query && all entry b.extra_clauses

  required-extra :
      (field : String) (c : Clause) (b : Built)
      → required (record b { extra_clauses = b.extra_clauses ++ (field, c) ∷ [] })
        ≡ (required b && entry (field, c))
  required-extra field c b = ground (arith, all-append entry b.extra_clauses ((field, c) ∷ []))

  required-place :
      (field : String) (o : Option Clause) (c : Clause) (b : Built)
      → lookup field b.query ≡ o
      → required (place field o c b) ≡ (required b && entry (field, c))
  required-place field none c b h = ground (arith, all-put-new field c b.query h)
  required-place field (some (operators xs)) (operators ys) b h =
      elim (Bool-cases (disjoint xs ys)) [
        | inl e ↦ rw e (
            ground (
              arith,
              all-put-merge field (operators xs) (operators ys) (operators (merge xs ys)) b.query h
                  (mongo.holds-merge d field xs ys e),
            ))
        | inr e ↦ rw e (required-extra field (operators ys) b)
      ]
  required-place field (some (operators xs)) (scalar v) b h = required-extra field (scalar v) b
  required-place field (some (scalar v)) c b h = required-extra field c b

  abbrev pub clause_holds : FieldFilter → Bool
  clause_holds f = mongo.holds d f.field (clause_for_filter f)

  required-place_all :
      (fs : List FieldFilter) (b : Built)
      → required (place_all fs b) ≡ (required b && all clause_holds fs)
  unfolding place_all
  required-place_all [] b = ground arith
  required-place_all (f ∷ fs) b = ground (
    arith,
    required-place_all fs (place f.field (lookup f.field b.query) (clause_for_filter f) b),
    required-place f.field (lookup f.field b.query) (clause_for_filter f) b refl,
  )

  all-singletons :
      (es : List (String × Clause)) → all (λ q. all entry q) (map (λ e. e ∷ []) es) ≡ all entry es
  all-singletons [] = refl
  all-singletons (e ∷ es) = ground (arith, all-singletons es)

  selects-assemble :
      (q : Dict Clause) (es : List (String × Clause))
      → selects (assemble q es) ≡ (all entry q && all entry es)
  selects-assemble q [] = ground arith
  selects-assemble [] (e ∷ es) = all-singletons (e ∷ es)
  selects-assemble (x ∷ q) (e ∷ es) = ap (λ b. all entry (x ∷ q) && b) (all-singletons (e ∷ es))

  -- The query built from any criteria selects a document exactly if the clause of each filter,
  -- taken alone, does: two filters on the same field never overwrite each other, whether their
  -- clauses are merged or put under `$and`.
  pub criteria_to_query_exact :
      (criteria : Criteria)
      → selects (criteria_to_query criteria) ≡ all clause_holds (normalize_criteria criteria)
  unfolding criteria_to_query
  criteria_to_query_exact criteria =
      let b = place_all (normalize_criteria criteria) (record { query = []; extra_clauses = [] }) in
      selects-assemble b.query b.extra_clauses
      ∙ required-place_all (normalize_criteria criteria) (record { query = []; extra_clauses = [] })
