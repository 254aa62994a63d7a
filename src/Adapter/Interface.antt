-- ===== src/Adapter/Interface.antt =====
-- interfaces/adapter.py: what every adapter has by its base class, over the operations that a
-- class has to give.
use krossdb.Common.{
  ℕ, zero, suc, List, [], ◌∷◌, ◌≡◌, refl, Result, ok, raise, Exec, ◌>>=◌, ◌>>◌, pure,
}
use krossdb.Errors.{Exn}
use krossdb.Adapter.Relational.Lifecycle.{HealthCheckResult}

pub record DatabaseAdapter (S : Type 0) : Type 0 where
  pub connect : Exec S Exn Unit
  pub disconnect : Exec S Exn Unit
  pub health_check : Exec S Exn HealthCheckResult

-- What the release raises replaces how the block ended.
abbrev pub released : {A : Type 0} → Result Exn Unit → Result Exn A → Result Exn A
released (ok _) r = r
released (raise e) r = raise e

module _ {S : Type 0} (adapter : DatabaseAdapter S) where
  -- `async with adapter: body`, by `__aenter__` and `__aexit__`.
  unfoldable pub with_adapter : {A : Type 0} → Exec S Exn A → Exec S Exn A
  with_adapter body = adapter.connect >> λ s.
      let (r, t) = body s in let (x, u) = adapter.disconnect t in (released x r, u)

  -- The results of `health_stream` that are asked for before the consumer stops.
  unfoldable pub health_stream : ℕ → Exec S Exn (List HealthCheckResult)
  health_stream zero = pure []
  health_stream (suc n) = adapter.health_check >>= λ r. health_stream n >>= λ rs. pure (r ∷ rs)

  -- A block whose adapter does not connect is not run, and nothing is disconnected.
  pub with_adapter-down :
      {A : Type 0} (body : Exec S Exn A) (e : Exn) (s t : S)
      → adapter.connect s ≡ (raise e, t)
      → with_adapter body s ≡ (raise e, t)
  unfolding with_adapter
  with_adapter-down body e s t h = rw h refl
