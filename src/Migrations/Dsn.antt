-- ===== src/Migrations/Dsn.antt =====
-- migrations/support.py: what `sync_dsn_from_async` keeps of a connection string.
use Prim.Native.Char.{Char}
use text.Mathlib.TextLemmas.{nil-append, cons-append, append_assoc}
use krossdb.Common.{
  ℕ, zero, suc, String, Bool, true, false, not, ◌&&◌, none, some, List, [], ◌∷◌, All, ◌==◌, eq_iff,
  ok, raise, ◌≡◌, refl, sym, ap, ap₂, ◌∙◌, inl, inr, arith, Bool-cases, Option-cases,
}
use krossdb.Common.Dict.{lookup}
use krossdb.Common.Text.{◌+++◌}
use mathlib.Core.Path.{subst}
use krossdb.Errors.{error, configuration_error}
use krossdb.Migrations.{
  sync_driver_map, take_text, drop_text, before, partition, with_scheme, rewritten,
  sync_dsn_from_async,
}

take-drop : (n : ℕ) (s : String) → take_text n s +++ drop_text n s ≡ s
unfolding take_text drop_text
take-drop zero s = nil-append s
take-drop (suc n) String.[] = refl
take-drop (suc n) (String.◌∷◌ c s) =
    cons-append c (take_text n s) (drop_text n s) ∙ ap (String.◌∷◌ c) (take-drop n s)

-- A text that starts with a separator is the separator and what follows.
starts : (sep s : String) (n : ℕ) → (take_text n s == sep) ≡ true → s ≡ sep +++ drop_text n s
starts sep s n b =
    sym (take-drop n s) ∙ ap (λ t. t +++ drop_text n s) ((eq_iff (take_text n s) sep).0 b)

-- The parts and the separator are the whole.
partition-join :
    (dsn scheme rest : String)
    → partition dsn ≡ some (scheme, rest)
    → dsn ≡ scheme +++ "://" +++ rest
unfolding partition
partition-join String.[] scheme rest h = absurd (ground arith)
partition-join (String.◌∷◌ c s) scheme rest h =
    elim (Bool-cases (take_text 3 (String.◌∷◌ c s) == "://")) [
      | inl b ↦
          let at_once : "" ≡ scheme = ground arith in
          let follows : drop_text 3 (String.◌∷◌ c s) ≡ rest = ground arith in
          starts "://" (String.◌∷◌ c s) 3 b
          ∙ sym (nil-append _)
          ∙ ap₂ (λ x y. x +++ "://" +++ y) at_once follows
      | inr b ↦ elim (Option-cases (partition s)) [
        | inl e ↦ absurd (ground arith)
        | inr ((x, y), e) ↦
            let longer : String.◌∷◌ c x ≡ scheme = ground arith in
            let follows : y ≡ rest = ground arith in
            ap (String.◌∷◌ c) (partition-join s x y e)
            ∙ sym (cons-append c x _)
            ∙ ap₂ (λ x y. x +++ "://" +++ y) longer follows
      ]
    ]

abbrev no_colon : String → Bool
no_colon String.[] = true
no_colon (String.◌∷◌ c s) = not (String.◌∷◌ c "" == ":") && no_colon s

separated : (rest : String) → "://" +++ rest ≡ String.◌∷◌ ":" (String.◌∷◌ "/" (String.◌∷◌ "/" rest))
separated rest =
    cons-append ":" "//" rest
    ∙ ap (String.◌∷◌ ":") (
        cons-append "/" "/" rest
        ∙ ap (String.◌∷◌ "/") (cons-append "/" "" rest ∙ ap (String.◌∷◌ "/") (nil-append rest)))

-- A scheme without a colon is what stands before the separator.
partition-scheme :
    (scheme rest : String)
    → no_colon scheme ≡ true
    → partition (scheme +++ "://" +++ rest) ≡ some (scheme, rest)
unfolding partition take_text drop_text
partition-scheme String.[] rest h = ap partition (nil-append _ ∙ separated rest) ∙ refl
partition-scheme (String.◌∷◌ c s) rest h =
    let whole = s +++ "://" +++ rest in
    ap partition (cons-append c s _)
    ∙ rw (other c whole (ground arith)) (ap (before c) (partition-scheme s rest (ground arith)))
  where
    other :
        (c : Char) (t : String)
        → (String.◌∷◌ c "" == ":") ≡ false
        → (take_text 3 (String.◌∷◌ c t) == "://") ≡ false
    other c t h = elim (Bool-cases (take_text 3 (String.◌∷◌ c t) == "://")) [
      | inr b ↦ b
      | inl b ↦
          let same : String.◌∷◌ c "" ≡ ":" =
            ap (take_text 1) ((eq_iff (take_text 3 (String.◌∷◌ c t)) "://").0 b) in
          absurd (ground (arith, eq_iff (String.◌∷◌ c "") ":"))
    ]

lookup-All :
    (P : String → Type 0) (k v : String) (d : List (String × String))
    → All (λ e. P e.1) d
    → lookup k d ≡ some v
    → P v
unfolding lookup
lookup-All P k v [] ps h = absurd (ground arith)
lookup-All P k v ((j, w) ∷ d) (p, ps) h = elim (Bool-cases (j == k)) [
  | inl b ↦ let same : w ≡ v = ground arith in subst P same p
  | inr b ↦ lookup-All P k v d ps (ground arith)
]

-- A DSN with a scheme that has no known driver is refused.
unknown :
    (scheme rest : String)
    → no_colon scheme ≡ true
    → lookup scheme sync_driver_map ≡ none
    → sync_dsn_from_async (scheme +++ "://" +++ rest) ≡ raise (error configuration_error)
unfolding sync_dsn_from_async
unknown scheme rest plain h =
    ap rewritten (partition-scheme scheme rest plain) ∙ ap (with_scheme rest) h

abbrev Refused : String → Type 0
Refused scheme =
    (rest : String)
    → sync_dsn_from_async (scheme +++ "://" +++ rest) ≡ raise (error configuration_error)

own_schemes : All (λ e. Refused e.1) sync_driver_map
unfolding sync_driver_map lookup
own_schemes =
    let postgresql : Refused "postgresql+psycopg" =
      λ rest. unknown "postgresql+psycopg" rest refl refl in
    let mysql : Refused "mysql+pymysql" = λ rest. unknown "mysql+pymysql" rest refl refl in
    (postgresql, (postgresql, (mysql, (mysql, ((λ rest. unknown "sqlite" rest refl refl), tt)))))

with_scheme-join :
    (rest sync d : String) → with_scheme rest (some sync) ≡ ok d → d ≡ sync +++ "://" +++ rest
with_scheme-join rest sync d h = elim (Bool-cases (sync == "sqlite")) [
  | inl b ↦
      let same : d ≡ "sqlite://" +++ rest = ground arith in
      same
      ∙ append_assoc "sqlite" "://" rest
      ∙ ap (λ x. x +++ "://" +++ rest) (sym ((eq_iff sync "sqlite").0 b))
  | inr b ↦ ground arith
]

-- A connection string that is rewritten is a scheme, "://" and a rest. What is given has the driver
-- that the table names for the scheme, and the rest unchanged, to the last character; and it is
-- itself refused, since no driver that the table gives is a scheme that the table takes.
pub sync_dsn_from_async-join :
    (dsn d : String)
    → sync_dsn_from_async dsn ≡ ok d
    → ((scheme : String) × (rest : String) × (sync : String) × (dsn ≡ scheme +++ "://" +++ rest)
        × (lookup scheme sync_driver_map ≡ some sync)
        × (d ≡ sync +++ "://" +++ rest))
      × (sync_dsn_from_async d ≡ raise (error configuration_error))
unfolding sync_dsn_from_async
sync_dsn_from_async-join dsn d h = elim (Option-cases (partition dsn)) [
  | inl e ↦ absurd (ground arith)
  | inr ((scheme, rest), e) ↦ elim (Option-cases (lookup scheme sync_driver_map)) [
    | inl l ↦ absurd (ground arith)
    | inr (sync, l) ↦
        let given : d ≡ sync +++ "://" +++ rest =
          with_scheme-join rest sync d (sym (ap rewritten e ∙ ap (with_scheme rest) l) ∙ h) in
        (
          (scheme, rest, sync, partition-join dsn scheme rest e, l, given),
          ap sync_dsn_from_async given
              ∙ lookup-All Refused scheme sync sync_driver_map own_schemes l rest,
        )
  ]
]
