-- ===== src/Factory/Lookup.antt =====
-- factory/db_factory.py: which adapters a factory gives.
use krossdb.Common.{
  String, List, any, Result, ok, raise, ◌==◌, if◌then◌else◌, ◌≡◌, ap, ◌≢◌, ◌⊎◌, inl, inr,
}
use krossdb.Config.{DatabaseKind, ConnectionConfig}
use krossdb.Errors.{Exn, cancelled, error, configuration_error}
use krossdb.Factory.{
  Action, Factory, Respond, disconnect, names, create, contains, get, connect_all,
}
use krossdb.Factory.AllOrNone.{connect_all-AllOrNone}

module _ (respond : Respond) (resolve : DatabaseKind → Result Exn Unit)
    (quiet : (h : List Action) (n : String) → respond h (disconnect n) ≢ raise cancelled) where
  -- A new factory that connected gives the adapter of every name that is configured, and refuses
  -- every other name; one that did not connect refuses every name.
  pub get-connect_all :
      (configs : List ConnectionConfig) (f : Factory)
      → create configs ≡ ok f
      → (n : String)
      → let out = connect_all respond resolve f in
        ((out.0 ≡ ok tt)
          × (get n out.1 ≡ (
              if any (λ j. j == n) (names configs)
              then ok n
              else raise (error configuration_error))))
        ⊎ ((e : Exn) × (out.0 ≡ raise e) × (get n out.1 ≡ raise (error configuration_error)))
  unfolding get contains
  get-connect_all configs f h n = elim (connect_all-AllOrNone respond resolve quiet configs f h) [
    | inl (o, _, a, b) ↦ inl (
      o,
      ap (λ kept. if any (λ j. j == n) kept then ok n else raise (error configuration_error)) a,
    )
    | inr (e, done, m, rest, tried, q, _, _, o, a, b) ↦ inr (
      e,
      o,
      ap (λ kept. if any (λ j. j == n) kept then ok n else raise (error configuration_error)) a,
    )
  ]
