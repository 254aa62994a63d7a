-- ===== src/Adapter/Routing/Fairness.antt =====
-- Over whole passes, each key is chosen in proportion to its weight.
use krossdb.Common.{
  ℕ, zero, suc, ◌+◌, ◌*◌, String, Bool, false, Option, none, some, List, [], ◌∷◌, ◌++◌, ok, length,
  replicate, ◌==◌, if◌then◌else◌, ◌≡◌, refl, arith, count, map, Bool-cases, inl, inr, ◌⊎◌,
  count-append, ap, ap₂, ◌∙◌, eq_refl, eq_iff, sym,
}
use Prim.Native.Nat.add
use krossdb.Adapter.Routing.{LoadBalancer, expand, create, next}

-- `n` choices in a row, and the balancer after them.
unfoldable pub draw : ℕ → LoadBalancer → List (Option String) × LoadBalancer
draw zero b = ([], b)
draw (suc n) b = let (k, b') = next b in let (ks, b'') = draw n b' in (k ∷ ks, b'')

chosen : Option String → String → Bool
chosen none k = false
chosen (some j) k = j == k

-- The weights configured for a key, added up.
unfoldable pub weight_of : String → List String → List ℕ → ℕ
weight_of k (j ∷ ks) (w ∷ ws) = if j == k then w + weight_of k ks ws else weight_of k ks ws
weight_of k [] _ = 0
weight_of k (j ∷ ks) [] = 0

pub times : String → List (Option String) → ℕ
unfolding chosen
times k = count (λ o. chosen o k)

-- What is left of a pass is handed out in order.
draw_pass :
    (seq xs : List String)
    → draw (length xs) (record { sequence = seq; pass = xs })
      ≡ (map some xs, record { sequence = seq; pass = [] })
unfolding draw next
draw_pass seq [] = refl
draw_pass seq (x ∷ xs) =
    ap (λ (r : List (Option String) × LoadBalancer). (some x ∷ r.0, r.1)) (draw_pass seq xs)

-- An exhausted pass starts again.
draw_whole :
    (k : String) (rest p : List String)
    → (p ≡ k ∷ rest) ⊎ (p ≡ [])
    → draw (length (k ∷ rest)) (record { sequence = k ∷ rest; pass = p })
      ≡ (map some (k ∷ rest), record { sequence = k ∷ rest; pass = [] })
unfolding draw next
draw_whole k rest p (inl e) = rw e (draw_pass (k ∷ rest) (k ∷ rest))
draw_whole k rest p (inr e) = rw e (draw_pass (k ∷ rest) (k ∷ rest))

times-draw :
    (k : String) (m n : ℕ) (b : LoadBalancer)
    → times k (draw (m + n) b).0 ≡ times k (draw m b).0 + times k (draw n (draw m b).1).0
unfolding draw times
times-draw k zero n b = rw add.zero (omega arith)
times-draw k (suc m) n b = rw add.suc (ground (arith, times-draw k m n (next b).1))

times-map : (k : String) (xs : List String) → times k (map some xs) ≡ count (λ j. j == k) xs
unfolding times
times-map k [] = refl
times-map k (x ∷ xs) = ground (arith, times-map k xs)

count-replicate_self : (k : String) (n : ℕ) → count (λ j. j == k) (replicate n k) ≡ n
count-replicate_self k zero = refl
count-replicate_self k (suc n) = ground (arith, count-replicate_self k n, eq_refl k)

count-replicate_ne :
    (j k : String) (n : ℕ) → (j == k) ≡ false → count (λ i. i == k) (replicate n j) ≡ 0
count-replicate_ne j k zero h = refl
count-replicate_ne j k (suc n) h = ground (arith, count-replicate_ne j k n h)

count-expand :
    (k : String) (ks : List String) (ws : List ℕ)
    → count (λ j. j == k) (expand ks ws) ≡ weight_of k ks ws
unfolding expand weight_of
count-expand k [] ws = refl
count-expand k (j ∷ ks) [] = refl
count-expand k (j ∷ ks) (w ∷ ws) = elim (Bool-cases (j == k)) [
  | inl e ↦ ground (
    arith,
    count-append (λ i. i == k) (replicate w j) (expand ks ws),
    count-expand k ks ws,
    count-replicate_self k w,
    (eq_iff j k).0 e,
  )
  | inr e ↦ ground (
    arith,
    count-append (λ i. i == k) (replicate w j) (expand ks ws),
    count-expand k ks ws,
    count-replicate_ne j k w e,
  )
]

passes :
    (j k : String) (rest p : List String) (m : ℕ)
    → (p ≡ k ∷ rest) ⊎ (p ≡ [])
    → times j (draw (m * length (k ∷ rest)) (record { sequence = k ∷ rest; pass = p })).0
      ≡ m * count (λ i. i == j) (k ∷ rest)
unfolding draw times
passes j k rest p zero h =
    let s : LoadBalancer = record { sequence = k ∷ rest; pass = p } in
    let z : 0 * length (k ∷ rest) ≡ 0 = omega arith in
    ap (λ t. times j (draw t s).0) z ∙ omega arith
passes j k rest p (suc m) h =
    let s : LoadBalancer = record { sequence = k ∷ rest; pass = p } in
    let n = length (k ∷ rest) in
    let whole = draw_whole k rest p h in
    let more : suc m * n ≡ n + m * n = omega arith in
    ap (λ t. times j (draw t s).0) more
    ∙ times-draw j n (m * n) s
    ∙ ap (λ (r : List (Option String) × LoadBalancer). times j r.0 + times j (draw (m * n) r.1).0)
        whole
    ∙ ap₂ (λ a b. a + b) (times-map j (k ∷ rest)) (passes j k rest [] m (inr refl))
    ∙ grind arith

create_parts :
    (ks : List String) (ws : List ℕ) (b : LoadBalancer)
    → create ks ws ≡ ok b
    → (k : String) × (rest : List String) × (expand ks ws ≡ k ∷ rest)
      × (b ≡ record { sequence = k ∷ rest; pass = k ∷ rest })
unfolding create
create_parts [] ws b h = absurd (ground arith)
create_parts (k ∷ ks) [] b h = absurd (ground arith)
create_parts (k ∷ ks) (zero ∷ ws) b h = absurd (ground arith)
create_parts (k ∷ ks) (suc w ∷ ws) b h = (k, replicate w k ++ expand ks ws, refl, ground arith)

-- A balancer that could be made hands out, over any number of whole passes, each key exactly as
-- often as the weights configured for it say.
pub fair_share :
    (ks : List String) (ws : List ℕ) (b : LoadBalancer) (k : String) (m : ℕ)
    → create ks ws ≡ ok b
    → times k (draw (m * length b.sequence) b).0 ≡ m * weight_of k ks ws
fair_share ks ws b k m h =
    let (j, rest, e, eb) = create_parts ks ws b h in
    rw eb (
      passes k j rest (j ∷ rest) m (inl refl)
      ∙ ap (λ (xs : List String). m * count (λ i. i == k) xs) (sym e)
      ∙ ap (λ c. m * c) (count-expand k ks ws))
