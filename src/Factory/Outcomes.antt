-- ===== src/Factory/Outcomes.antt =====
-- factory/db_factory.py: how connecting ends, by the resolving of the classes and the connects.
use mathlib.Core.Path.{subst}
use krossdb.Common.{
  String, Bool, true, false, List, [], ◌∷◌, ◌++◌, map, Result, ok, raise, ◌≡◌, ap, ◌∙◌, ◌⊎◌, inl,
  inr, append_assoc,
}
use krossdb.Config.{DatabaseKind, ConnectionConfig}
use krossdb.Errors.{Exn}
use krossdb.Factory.{Action, connect, disconnect, Factory, names, Respond}

-- The calls to an adapter that fails: none if its class was not resolved.
abbrev pub attempt : Bool → String → List Action
attempt true n = connect n ∷ disconnect n ∷ []
attempt false n = []

module _ (respond : Respond) (resolve : DatabaseKind → Result Exn Unit) where
  -- After the calls `h`, each connection's class is resolved and its connect, called in order,
  -- succeeds.
  abbrev pub AllConnect : List Action → List ConnectionConfig → Type 0
  AllConnect h [] = Unit
  AllConnect h (c ∷ cs) =
      (resolve c.kind ≡ ok tt)
      × (respond h (connect c.name) ≡ ok tt)
      × AllConnect (h ++ connect c.name ∷ []) cs

  -- A connection fails with an exception after the calls `h`: its connect was called and raised
  -- it, or its class was not resolved.
  abbrev pub Fails : List Action → ConnectionConfig → Bool → Exn → Type 0
  Fails h c true e = (resolve c.kind ≡ ok tt) × (respond h (connect c.name) ≡ raise e)
  Fails h c false e = resolve c.kind ≡ raise e

  -- How connecting `cs` in order ends, with `pre` connected before and the history `h`.
  abbrev pub Ends :
      List String → List ConnectionConfig → List Action → Result Exn Unit × Factory → Type 0
  Ends pre cs h out =
      ((out.0 ≡ ok tt)
        × AllConnect h cs
        × (out.1.adapters ≡ pre ++ names cs)
        × (out.1.history ≡ h ++ map connect (names cs)))
      ⊎ ((e : Exn) × (done : List ConnectionConfig) × (c : ConnectionConfig) × (rest : List
            ConnectionConfig)
          × (tried : Bool) × (cs ≡ done ++ c ∷ rest)
          × AllConnect h done
          × Fails (h ++ map connect (names done)) c tried e
          × (out.0 ≡ raise e)
          × (out.1.adapters ≡ pre ++ names done)
          × (out.1.history ≡ h ++ (map connect (names done) ++ attempt tried c.name)))

  pub Ends-cons :
      (pre : List String) (cs : List ConnectionConfig) (c : ConnectionConfig) (h : List Action)
      (out : Result Exn Unit × Factory)
      → resolve c.kind ≡ ok tt
      → respond h (connect c.name) ≡ ok tt
      → Ends (pre ++ c.name ∷ []) cs (h ++ connect c.name ∷ []) out
      → Ends pre (c ∷ cs) h out
  Ends-cons pre cs c h out found up (inl (o, all_up, a, b)) = inl (
    o,
    (found, up, all_up),
    a ∙ append_assoc pre (c.name ∷ []) (names cs),
    b ∙ append_assoc h (connect c.name ∷ []) (map connect (names cs)),
  )
  Ends-cons pre cs c h out found up (inr (e, done, d, rest, tried, p, ups, why, o, a, b)) = inr (
    e,
    c ∷ done,
    d,
    rest,
    tried,
    ap (λ ds. c ∷ ds) p,
    (found, up, ups),
    subst (λ g. Fails g d tried e) (append_assoc h (connect c.name ∷ []) (map connect (names done)))
        why,
    o,
    a ∙ append_assoc pre (c.name ∷ []) (names done),
    b ∙ append_assoc h (connect c.name ∷ []) (map connect (names done) ++ attempt tried d.name),
  )

  -- How connecting a new factory ends. Either every connection's class is resolved and every
  -- connect succeeds, in order; then all the adapters are kept. Or it raises and keeps none: then
  -- the connections before some `c` connected, the exception is that of resolving the class of `c`
  -- or of its connect, each adapter whose connect was called is disconnected once, that of `c`
  -- first, and no adapter after it is touched.
  abbrev pub AllOrNone : List ConnectionConfig → Result Exn Unit × Factory → Type 0
  AllOrNone configs out =
      ((out.0 ≡ ok tt)
        × AllConnect [] configs
        × (out.1.adapters ≡ names configs)
        × (out.1.history ≡ map connect (names configs)))
      ⊎ ((e : Exn) × (done : List ConnectionConfig) × (c : ConnectionConfig) × (rest : List
            ConnectionConfig)
          × (tried : Bool) × (configs ≡ done ++ c ∷ rest)
          × AllConnect [] done
          × Fails (map connect (names done)) c tried e
          × (out.0 ≡ raise e)
          × (out.1.adapters ≡ [])
          × (out.1.history
              ≡ (map connect (names done) ++ attempt tried c.name) ++ map disconnect (names done)))
