-- ===== src/Common/Effects.antt =====
-- What a Python call ends in, a value or an exception, and methods that change state and may
-- raise: what was written before a raise stays written.
use mathlib.Core.Path.{◌≡◌, refl}
use mathlib.Core.Logic.{◌⊎◌, inl, inr}
use mathlib.Core.Bool.{Bool, true, false}
use krossdb.Common.Tests.{if◌then◌else◌}

pub data Result {ℓ} (E A : Type ℓ) : Type ℓ where
  ok : A → Result E A
  raise : E → Result E A

abbrev pub is_ok {ℓ} : {E A : Type ℓ} → Result E A → Bool
is_ok (ok _) = true
is_ok (raise _) = false

abbrev pub Exec {ℓ} : Type ℓ → Type ℓ → Type ℓ → Type ℓ
Exec S E A = S → Result E A × S

module _ {ℓ} {S E A : Type ℓ} where
  abbrev pub pure : A → Exec S E A
  pure a s = (ok a, s)

  abbrev pub throw : E → Exec S E A
  throw e s = (raise e, s)

  abbrev pub gets : (S → A) → Exec S E A
  gets f s = (ok (f s), s)

  abbrev pub lift : Result E A → Exec S E A
  lift r s = (r, s)

module _ {ℓ} {S E A B : Type ℓ} where
  abbrev pub continue : Result E A → (A → Exec S E B) → Exec S E B
  continue (ok a) f s = f a s
  continue (raise e) f s = (raise e, s)

  infixl 5 ◌>>=◌ ◌>>◌
  abbrev pub ◌>>=◌ : Exec S E A → (A → Exec S E B) → Exec S E B
  ◌>>=◌ m f s = let (r, s') = m s in continue r f s'

  abbrev pub ◌>>◌ : Exec S E A → Exec S E B → Exec S E B
  m >> k = m >>= λ _. k

-- Going on with a function that leaves a view leaves it.
pub continue-view {ℓ} :
    {S E A B V : Type ℓ} (view : S → V) (r : Result E A) (f : A → Exec S E B) (s : S)
    → ((a : A) → view (f a s).1 ≡ view s)
    → view (continue r f s).1 ≡ view s
continue-view view (ok a) f s h = h a
continue-view view (raise e) f s h = refl

-- So what holds before and after such a function holds after it all.
pub continue-then {ℓ} :
    {S E A B : Type ℓ} (P : S → Type ℓ) (r : Result E A) (f : A → Exec S E B) (s : S)
    → P s
    → ((a : A) → P (f a s).1)
    → P (continue r f s).1
continue-then P (ok a) f s before after = after a
continue-then P (raise e) f s before after = before

abbrev pub modify {ℓ} : {S E : Type ℓ} → (S → S) → Exec S E Unit
modify f s = (ok tt, f s)

abbrev pub throw_if {ℓ} : {S E : Type ℓ} → Bool → E → Exec S E Unit
throw_if b e s = (if b then raise e else ok tt, s)

-- A call and, when it returns, what follows it, where no state changes.
abbrev pub and_then {ℓ} : {E A B : Type ℓ} → Result E A → (A → Result E B) → Result E B
and_then (ok a) f = f a
and_then (raise e) f = raise e

pub and_then-ok {ℓ} : {E A : Type ℓ} (r : Result E A) → and_then r ok ≡ r
and_then-ok (ok a) = refl
and_then-ok (raise e) = refl

pub Result-cases {ℓ} :
    {E A : Type ℓ} (r : Result E A) → ((a : A) × (r ≡ ok a)) ⊎ ((e : E) × (r ≡ raise e))
Result-cases (ok a) = inl (a, refl)
Result-cases (raise e) = inr (e, refl)
