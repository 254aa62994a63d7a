-- ===== src/Observability/Logging/Masking.antt =====
-- core/logging.py: what the masking processor leaves in an event.
use mathlib.Core.Path.{subst}
use krossdb.Common.{
  if◌then◌else◌, String, true, [], ◌∷◌, ◌≡◌, refl, ap, ◌∙◌, All, Result, ok, raise, and_then,
  Result-cases, inl, inr, Bool-cases, arith,
}
use krossdb.Common.Dict.{Dict, keys}
use krossdb.Errors.{Exn}
use krossdb.Factory.{distinct}
use krossdb.Observability.Logging.{
  name, number, Value, text, mapping, null, other, Fields, end, field, is_sensitive, redacted_text,
  mask_value, mask_fields, field_value, as_mapping, mask_open, mask_field, mask_sensitive_data,
}
use krossdb.Observability.Logging.Loop.{masked, mask_sensitive_data-masked}

-- The keys of a nested dict are texts.
abbrev pub NamedFields : Fields → Type 0
NamedFields end = Unit {0}
NamedFields (field (name k) v fs) = NamedFields fs
NamedFields (field (number n) v fs) = ⊥

abbrev pub Named : Value → Type 0
Named (mapping fs) = NamedFields fs
Named v = Unit {0}

module _ (sub_email sub_card : String → String) where
  -- No secret: a sensitive key has the mask, and a text has been through the substitutions.
  abbrev pub Hidden : String → Value → Type 0 → Type 0
  Hidden k v P = if is_sensitive k then v ≡ text redacted_text else P

  abbrev pub Substituted : Value → Type 0
  Substituted v = (u : Value) × (v ≡ mask_value sub_email sub_card u)

  abbrev pub CleanNested : Fields → Type 0
  CleanNested end = Unit {0}
  CleanNested (field (number n) v fs) = ⊥
  CleanNested (field (name k) v fs) = Hidden k v (Substituted v) × CleanNested fs

  abbrev pub CleanOpen : Value → Type 0
  CleanOpen (mapping fs) = CleanNested fs
  CleanOpen v = Substituted v

  abbrev pub Clean : String × Value → Type 0
  Clean (k, v) = Hidden k v (CleanOpen v)

  field_value-Hidden :
      (k : String) (v : Value)
      → Hidden k
          (field_value sub_email sub_card k v)
          (Substituted (field_value sub_email sub_card k v))
  field_value-Hidden k v = elim (Bool-cases (is_sensitive k)) [
    | inl hidden ↦ rw hidden refl
    | inr shown ↦ rw shown (v, refl)
  ]

  mask_fields-CleanNested :
      (fs gs : Fields) → mask_fields sub_email sub_card fs ≡ ok gs → CleanNested gs
  unfolding mask_fields
  mask_fields-CleanNested end gs h = let e : end ≡ gs = cc in subst CleanNested e tt
  mask_fields-CleanNested (field (number n) v fs) gs h = cc
  mask_fields-CleanNested (field (name k) v fs) gs h =
      elim (Result-cases (mask_fields sub_email sub_card fs)) [
        | inr (e, raised) ↦ cc
        | inl (rest, given) ↦
            let e : field (name k) (field_value sub_email sub_card k v) rest ≡ gs = cc in
            subst CleanNested e (field_value-Hidden k v, mask_fields-CleanNested fs rest given)
      ]

  as_mapping-CleanOpen :
      (r : Result Exn Fields) (w : Value)
      → ((fs : Fields) → r ≡ ok fs → CleanNested fs)
      → as_mapping r ≡ ok w
      → CleanOpen w
  as_mapping-CleanOpen (ok fs) w clean h =
      let e : mapping fs ≡ w = cc in subst CleanOpen e (clean fs refl)
  as_mapping-CleanOpen (raise x) w clean h = cc

  mask_open-CleanOpen : (v w : Value) → mask_open sub_email sub_card v ≡ ok w → CleanOpen w
  unfolding mask_value
  mask_open-CleanOpen (mapping fs) w h =
      as_mapping-CleanOpen (mask_fields sub_email sub_card fs) w (mask_fields-CleanNested fs) h
  mask_open-CleanOpen (text t) w h =
      let e : text (sub_card (sub_email t)) ≡ w = cc in subst CleanOpen e (text t, refl)
  mask_open-CleanOpen null w h = let e : null ≡ w = cc in subst CleanOpen e (null, refl)
  mask_open-CleanOpen (other n) w h = let e : other n ≡ w = cc in subst CleanOpen e (other n, refl)

  mask_field-Clean :
      (k : String) (v w : Value) → mask_field sub_email sub_card k v ≡ ok w → Clean (k, w)
  unfolding mask_field
  mask_field-Clean k v w h = elim (Bool-cases (is_sensitive k)) [
    | inl hidden ↦ rw hidden (ground arith)
    | inr shown ↦ rw shown (mask_open-CleanOpen v w (ground arith))
  ]

  -- What every entry of the single pass went through.
  masked-Clean :
      (d e : Dict Value) → masked sub_email sub_card d ≡ ok e → (keys e ≡ keys d) × All Clean e
  unfolding masked
  masked-Clean [] e h = let p : [] ≡ e = cc in subst (λ e. (keys e ≡ []) × All Clean e) p (refl, tt)
  masked-Clean ((k, v) ∷ d) e h =
      go (mask_field sub_email sub_card k v) (masked sub_email sub_card d) e (mask_field-Clean k v)
        (masked-Clean d) h
    where
      go :
          (r : Result Exn Value) (rest : Result Exn (Dict Value)) (e : Dict Value)
          → ((w : Value) → r ≡ ok w → Clean (k, w))
          → ((c : Dict Value) → rest ≡ ok c → (keys c ≡ keys d) × All Clean c)
          → and_then r (λ w. and_then rest (λ c. ok ((k, w) ∷ c))) ≡ ok e
          → (keys e ≡ k ∷ keys d) × All Clean e
      go (raise x) rest e first others h = cc
      go (ok w) (raise x) e first others h = cc
      go (ok w) (ok c) e first others h =
          let p : (k, w) ∷ c ≡ e = cc in
          subst (λ e. (keys e ≡ k ∷ keys d) × All Clean e) p
            (ap (λ ks. k ∷ ks) (others c refl).0, (first w refl, (others c refl).1))

  mask_fields-NamedFields :
      (fs : Fields) → NamedFields fs → (gs : Fields) × (mask_fields sub_email sub_card fs ≡ ok gs)
  unfolding mask_fields
  mask_fields-NamedFields end h = (end, refl)
  mask_fields-NamedFields (field (name k) v fs) h =
      let (rest, given) = mask_fields-NamedFields fs h in
      (field (name k) (field_value sub_email sub_card k v) rest, rw given refl)
  mask_fields-NamedFields (field (number n) v fs) h = absurd h

  mask_open-Named : (v : Value) → Named v → (w : Value) × (mask_open sub_email sub_card v ≡ ok w)
  mask_open-Named (mapping fs) h =
      let (gs, given) = mask_fields-NamedFields fs h in (mapping gs, ap as_mapping given)
  mask_open-Named (text t) h = (mask_value sub_email sub_card (text t), refl)
  mask_open-Named null h = (mask_value sub_email sub_card null, refl)
  mask_open-Named (other n) h = (mask_value sub_email sub_card (other n), refl)

  mask_field-Named :
      (k : String) (v : Value) → Named v → (w : Value) × (mask_field sub_email sub_card k v ≡ ok w)
  unfolding mask_field
  mask_field-Named k v h = elim (Bool-cases (is_sensitive k)) [
    | inl hidden ↦ (text redacted_text, rw hidden refl)
    | inr open_ ↦ let (w, given) = mask_open-Named v h in (w, rw open_ given)
  ]

  masked-Named :
      (d : Dict Value)
      → All (λ f. Named f.1) d
      → (e : Dict Value) × (masked sub_email sub_card d ≡ ok e)
  unfolding masked
  masked-Named [] h = ([], refl)
  masked-Named ((k, v) ∷ d) h =
      let (w, given) = mask_field-Named k v h.0 in
      let (e, rest) = masked-Named d h.1 in ((k, w) ∷ e, rw (given, rest) refl)

  -- On an event whose nested dicts have texts as keys, the processor returns. Its result has the
  -- keys of the event in their order; a field with a sensitive key has the mask, and so has one
  -- in a dict that is a field's value, and every other text, there and on top, is what the
  -- substitutions make of a text.
  pub mask_sensitive_data-Clean :
      (d : Dict Value)
      → distinct (keys d) ≡ true
      → All (λ f. Named f.1) d
      → (e : Dict Value) × (mask_sensitive_data sub_email sub_card d ≡ ok e)
        × (keys e ≡ keys d)
        × All Clean e
  mask_sensitive_data-Clean d h named =
      let (e, given) = masked-Named d named in
      let (same, clean) = masked-Clean d e given in
      (e, mask_sensitive_data-masked sub_email sub_card d h ∙ given, same, clean)
