-- ===== src/Observability/Logging/Loop.antt =====
-- core/logging.py: the loop of the masking processor, which writes to the dict that it reads,
-- against a single pass.
use krossdb.Common.{
  String, true, false, [], ◌∷◌, ◌++◌, ◌≡◌, refl, sym, ap, ◌∙◌, Result, ok, raise, and_then,
  and_then-ok, Result-cases, inl, inr, ◌==◌, arith, eq_iff, append_assoc, any,
}
use krossdb.Common.Dict.{Dict, put, keys}
use krossdb.Errors.{Exn}
use krossdb.Factory.{distinct}
use krossdb.Observability.Logging.{Value, mask_field, mask_each, mask_sensitive_data}

-- A key is not among those of a dict.
abbrev Fresh : String → Dict Value → Type 0
Fresh k d = any (λ j. j == k) (keys d) ≡ false

-- Assigning to the key after some others replaces its value where it stands.
put-append :
    (k : String) (v w : Value) (d e : Dict Value)
    → Fresh k d
    → put k v (d ++ (k, w) ∷ e) ≡ d ++ (k, v) ∷ e
unfolding put
put-append k v w [] e h = ground (arith, eq_iff k k)
put-append k v w ((j, u) ∷ d) e h = ground (arith, put-append k v w d e)

-- The key that comes after some distinct others is not one of them.
any-after :
    (j k : String) (v : Value) (d e : Dict Value)
    → any (λ y. y == j) (keys (d ++ (k, v) ∷ e)) ≡ false
    → (j == k) ≡ false
any-after j k v [] e h = ground (arith, eq_iff k j, eq_iff j k)
any-after j k v ((i, u) ∷ d) e h = ground (arith, any-after j k v d e)

distinct-Fresh :
    (k : String) (v : Value) (d e : Dict Value)
    → distinct (keys (d ++ (k, v) ∷ e)) ≡ true
    → Fresh k d
distinct-Fresh k v [] e h = refl
distinct-Fresh k v ((j, u) ∷ d) e h = ground (arith, any-after j k v d e, distinct-Fresh k v d e)

-- The keys do not depend on the values.
keys-append :
    (k : String) (v w : Value) (d e : Dict Value)
    → keys (d ++ (k, v) ∷ e) ≡ keys ((d ++ (k, w) ∷ []) ++ e)
keys-append k v w [] e = refl
keys-append k v w ((j, u) ∷ d) e = ap (λ ks. j ∷ ks) (keys-append k v w d e)

-- The last field that is done, seen as the first of what follows.
written :
    (k : String) (w : Value) (d : Dict Value) (r : Result Exn (Dict Value))
    → and_then r (λ e. ok ((d ++ (k, w) ∷ []) ++ e))
      ≡ and_then (and_then r (λ e. ok ((k, w) ∷ e))) (λ e. ok (d ++ e))
written k w d (ok e) = ap ok (append_assoc d ((k, w) ∷ []) e)
written k w d (raise x) = refl

module _ (sub_email sub_card : String → String) where
  -- One pass that maps every field.
  unfoldable pub masked : Dict Value → Result Exn (Dict Value)
  masked [] = ok []
  masked ((k, v) ∷ d) =
      and_then (mask_field sub_email sub_card k v) (λ w. and_then (masked d) (λ e. ok ((k, w) ∷ e)))

  -- One step of the loop writes its key where it stands, after the fields that are done.
  mask_each-masked :
      (rest done : Dict Value)
      → distinct (keys (done ++ rest)) ≡ true
      → mask_each sub_email sub_card rest (done ++ rest)
        ≡ and_then (masked rest) (λ e. ok (done ++ e))
  unfolding mask_each masked
  mask_each-masked [] done h = refl
  mask_each-masked ((k, v) ∷ rest) done h =
      elim (Result-cases (mask_field sub_email sub_card k v)) [
        | inr (e, raised) ↦ rw raised refl
        | inl (w, given) ↦ rw given (
            ap (mask_each sub_email sub_card rest) (
              put-append k w v done rest (distinct-Fresh k v done rest h)
              ∙ sym (append_assoc done ((k, w) ∷ []) rest))
            ∙ mask_each-masked rest (done ++ (k, w) ∷ [])
                (sym (ap distinct (keys-append k v w done rest)) ∙ h)
            ∙ written k w done (masked rest))
      ]

  -- The processor's loop over a dict that it writes to is a single pass that keeps the keys.
  pub mask_sensitive_data-masked :
      (d : Dict Value)
      → distinct (keys d) ≡ true
      → mask_sensitive_data sub_email sub_card d ≡ masked d
  unfolding mask_sensitive_data
  mask_sensitive_data-masked d h = mask_each-masked d [] h ∙ and_then-ok (masked d)
