-- ===== src/Adapter/Routing.antt =====
-- adapters/relational/routing.py: weighted round robin. `itertools.cycle` keeps the sequence and
-- what is left of the current pass over it.
pub mod Fairness
use krossdb.Common.{
  ℕ, String, Bool, true, false, not, ◌&&◌, ◌||◌, Option, none, some, List, [], ◌∷◌, ◌++◌, Result,
  ok, raise, length, ltb, nat_eq, any, replicate, ◌==◌, if◌then◌else◌, filter,
}
use krossdb.Errors.{Exn, error, configuration_error}

pub record LoadBalancer : Type 0 where
  pub sequence : List String
  pub pass : List String

-- `expanded.extend([key] * weight)` over `zip(keys, weights)`.
unfoldable pub expand : List String → List ℕ → List String
expand (k ∷ ks) (w ∷ ws) = replicate w k ++ expand ks ws
expand [] _ = []
expand (k ∷ ks) [] = []

abbrev is_empty : List String → Bool
is_empty [] = true
is_empty (_ ∷ _) = false

-- `LoadBalancer(keys, weights)`.
unfoldable pub create : List String → List ℕ → Result Exn LoadBalancer
unfolding expand
create keys weights =
    if not (nat_eq (length keys) (length weights))
    then raise (error configuration_error)
    else if is_empty keys
    then raise (error configuration_error)
    else if any (λ w. ltb w 1) weights
    then raise (error configuration_error)
    else ok (record { sequence = expand keys weights; pass = expand keys weights })

abbrev advance : List String → List String → Option String × LoadBalancer
advance (k ∷ rest) seq = (some k, record { sequence = seq; pass = rest })
advance [] [] = (none, record { sequence = []; pass = [] })
advance [] (k ∷ rest) = (some k, record { sequence = k ∷ rest; pass = rest })

-- `next`; `none` stands for the `StopIteration` of an empty cycle.
unfoldable pub next : LoadBalancer → Option String × LoadBalancer
next b = advance b.pass b.sequence

-- The first occurrence of each text, in order.
distinct_after : List String → List String → List String
distinct_after seen [] = []
distinct_after seen (k ∷ ks) = elim (any (λ j. j == k) seen) [
  | true ↦ distinct_after seen ks
  | false ↦ k ∷ distinct_after (k ∷ seen) ks
]

-- The property `keys`: `list(dict.fromkeys(sequence))`.
unfoldable pub keys : LoadBalancer → List String
unfolding distinct_after
keys b = distinct_after [] b.sequence
