-- ===== src/Observability/Context/Scopes.antt =====
-- core/context.py: the correlation id in a scope and after it.
use krossdb.Common.{ℕ, String, Option, some, ◌≡◌, refl, Result, ok, raise, Exec, ◌>>=◌, arith, none}
use krossdb.Errors.{Exn}
use krossdb.Observability.Context.{
  Task, get_correlation_id, correlation_scope, value_or_uuid4, with_value,
}

abbrev id_of : (ℕ → String) → Option String → ℕ → String
id_of uuid4 (some current) n = current
id_of uuid4 none n = uuid4 n

module _ {P : Type 0} (uuid4 : ℕ → String) where
  -- The id of a task, and the task once it has been asked for it.
  pub ambient_id : Task P → String
  ambient_id s = id_of uuid4 s.correlation_id s.minted

  pub ambient : Task P → Task P
  unfolding get_correlation_id
  ambient s = (get_correlation_id uuid4 s).1

  pub get_correlation_id_lem :
      (s : Task P) → get_correlation_id uuid4 s ≡ (ok (ambient_id s), ambient s)
  unfolding get_correlation_id ambient_id ambient
  get_correlation_id_lem s = ground arith

  -- Asking for the id changes nothing that is seen outside, and the answer stays the same.
  pub ambient-keeps :
      (s : Task P)
      → ((ambient s).lines ≡ s.lines)
        × ((ambient s).measurements ≡ s.measurements)
        × ((ambient s).spans ≡ s.spans)
        × ((ambient s).tenant_id ≡ s.tenant_id)
        × ((ambient s).own ≡ s.own)
        × ((ambient s).correlation_id ≡ some (ambient_id s))
        × (ambient_id (ambient s) ≡ ambient_id s)
  unfolding get_correlation_id ambient_id ambient
  ambient-keeps s = ground arith

  -- A task that has an id is left as it is.
  pub ambient-set : (c : String) (s : Task P) → s.correlation_id ≡ some c → ambient s ≡ s
  unfolding ambient get_correlation_id
  ambient-set c s h = rw h refl

  with_value-restores :
      {A : Type 0} (body : String → Exec (Task P) Exn A) (old : Option String)
      (r : Result Exn String) (s : Task P)
      → s.correlation_id ≡ old
      → (with_value uuid4 body old r s).1.correlation_id ≡ old
  with_value-restores body old (ok value) s h = refl
  with_value-restores body old (raise e) s h = h

  value_or_uuid4-correlation_id :
      (id : Option String) (s : Task P)
      → (value_or_uuid4 uuid4 id s).1.correlation_id ≡ s.correlation_id
  unfolding value_or_uuid4
  value_or_uuid4-correlation_id id s = ground arith

  -- However the block of a scope ends, the variable has its old value after it.
  pub correlation_scope-restores :
      {A : Type 0} (id : Option String) (body : String → Exec (Task P) Exn A) (s : Task P)
      → (correlation_scope uuid4 id body s).1.correlation_id ≡ s.correlation_id
  unfolding correlation_scope
  correlation_scope-restores id body s =
      with_value-restores body s.correlation_id (value_or_uuid4 uuid4 id s).0
        (value_or_uuid4 uuid4 id s).1 (value_or_uuid4-correlation_id id s)

  with_value-get :
      {A : Type 0} (body : String → String → Exec (Task P) Exn A) (old : Option String)
      (r : Result Exn String) (s : Task P)
      → with_value uuid4 (λ v. get_correlation_id uuid4 >>= body v) old r s
        ≡ with_value uuid4 (λ v. body v v) old r s
  unfolding get_correlation_id
  with_value-get body old (ok value) s = refl
  with_value-get body old (raise e) s = refl

  -- In the block of a scope the ambient id is the scope's own.
  pub correlation_scope-get_correlation_id :
      {A : Type 0} (id : Option String) (body : String → String → Exec (Task P) Exn A) (s : Task P)
      → correlation_scope uuid4 id (λ v. get_correlation_id uuid4 >>= body v) s
        ≡ correlation_scope uuid4 id (λ v. body v v) s
  unfolding correlation_scope
  correlation_scope-get_correlation_id id body s =
      with_value-get body s.correlation_id (value_or_uuid4 uuid4 id s).0
        (value_or_uuid4 uuid4 id s).1
