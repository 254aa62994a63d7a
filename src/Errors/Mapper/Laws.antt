-- ===== src/Errors/Mapper/Laws.antt =====
-- What the translation of exceptions guarantees, whatever mappers are registered.
use krossdb.Common.{
  String, Bool, true, none, List, [], ◌∷◌, ◌++◌, filter, Result, ok, raise, Exec, ◌≡◌, refl, ap,
  ◌∙◌, arith, eq_refl, is_some, Bool-cases, inl, inr, append-nil, ◌⊎◌,
}
use krossdb.Errors.{KrossDbError, RawException, Exn, library, driver, cancelled}
use krossdb.Errors.Mapper.{
  Mapper, Registry, Context, register_mapper, map_exception, translate_exceptions, translate,
  on_error, finish,
}

-- What may leave the block: never a driver's exception.
abbrev pub IsTranslated : {A : Type 0} → Result Exn A → Type 0
IsTranslated (ok _) = Unit
IsTranslated (raise (library _)) = Unit
IsTranslated (raise (driver _)) = ⊥
IsTranslated (raise cancelled) = Unit

cause-finish :
    (m : KrossDbError) (e : RawException) (c : Context) → is_some (finish m e c).cause ≡ true
unfolding finish
cause-finish m e c = ground arith

cause-map_exception :
    (r : Registry) (c : Context) (e : RawException) → is_some (map_exception r c e).cause ≡ true
unfolding map_exception
cause-map_exception [] c e = refl
cause-map_exception ((n, m) ∷ r) c e = ground (arith, cause-map_exception r c e)

pub on_error-IsTranslated :
    {A : Type 0} (r : Registry) (c : Context) (x : Result Exn A)
    → IsTranslated (on_error (translate r c) x)
unfolding on_error translate
on_error-IsTranslated r c (ok a) = tt
on_error-IsTranslated r c (raise (library e)) = tt
on_error-IsTranslated r c (raise (driver e)) = tt
on_error-IsTranslated r c (raise cancelled) = tt

-- What the caller of a block sees, by how the block ended.
abbrev pub Translates : {A : Type 0} → Result Exn A → Result Exn A → Type 0
Translates (ok a) seen = seen ≡ ok a
Translates (raise (library e)) seen = seen ≡ raise (library e)
Translates (raise cancelled) seen = seen ≡ raise cancelled
Translates (raise (driver e)) seen =
    (k : KrossDbError) × (seen ≡ raise (library k)) × (is_some k.cause ≡ true)

on_error-Translates :
    {A : Type 0} (r : Registry) (c : Context) (x : Result Exn A)
    → Translates x (on_error (translate r c) x)
unfolding on_error translate
on_error-Translates r c (ok a) = refl
on_error-Translates r c (raise (library e)) = refl
on_error-Translates r c (raise (driver e)) = (map_exception r c e, refl, cause-map_exception r c e)
on_error-Translates r c (raise cancelled) = refl

-- A block under `translate_exceptions` changes the state as the block alone does. It returns
-- what the block returns, passes a `KrossDBError` and a cancellation on unchanged, and turns any
-- other exception into a `KrossDBError` that carries a cause; none leaks.
pub translate_exceptions_total :
    {S A : Type 0} (r : Registry) (c : Context) (body : Exec S Exn A) (s : S)
    → let out = translate_exceptions r c body s in
      (out.1 ≡ (body s).1) × IsTranslated out.0 × Translates (body s).0 out.0
unfolding translate_exceptions
translate_exceptions_total r c body s =
    (refl, on_error-IsTranslated r c (body s).0, on_error-Translates r c (body s).0)

filter-append :
    {A : Type 0} (p : A → Bool) (xs ys : List A) → filter p (xs ++ ys) ≡ filter p xs ++ filter p ys
filter-append p [] ys = refl
filter-append p (x ∷ xs) ys = elim (Bool-cases (p x)) [
  | inl e ↦ rw e (ap (◌∷◌ x) (filter-append p xs ys))
  | inr e ↦ rw e (filter-append p xs ys)
]

filter_idem : {A : Type 0} (p : A → Bool) (xs : List A) → filter p (filter p xs) ≡ filter p xs
filter_idem p [] = refl
filter_idem p (x ∷ xs) = elim (Bool-cases (p x)) [
  | inl e ↦ rw (e, e) (ap (◌∷◌ x) (filter_idem p xs))
  | inr e ↦ rw e (filter_idem p xs)
]

-- Registering under a name that is in use leaves one entry of that name, the new one, in last
-- place: the earlier registration has no effect.
pub register_mapper_twice :
    (name : String) (m m' : Mapper) (r : Registry)
    → register_mapper name m (register_mapper name m' r) ≡ register_mapper name m r
unfolding register_mapper
register_mapper_twice name m m' r =
    ap (λ (x : Registry). x ++ (name, m) ∷ [])
      (filter-append _ (filter _ r) _ ∙ simp (filter_idem, eq_refl, append-nil))

-- A mapper that raises, or that declines, is as good as not registered.
pub map_exception_skips :
    (name : String) (m : Mapper) (r : Registry) (c : Context) (e : RawException)
    → (m e ≡ raise tt) ⊎ (m e ≡ ok none)
    → map_exception ((name, m) ∷ r) c e ≡ map_exception r c e
unfolding map_exception
map_exception_skips name m r c e (inl h) = rw h
map_exception_skips name m r c e (inr h) = rw h
