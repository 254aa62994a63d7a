-- ===== src/Factory/AllOrNone.antt =====
-- What `connect_all` leaves behind.
use mathlib.Core.Path.{subst}
use krossdb.Common.{
  String, true, false, List, [], ◌∷◌, ◌++◌, map, any, Result, ok, raise, continue, ◌==◌,
  if◌then◌else◌, ◌≡◌, ◌≢◌, refl, sym, ap, ◌∙◌, inl, inr, arith, append_assoc, append-nil, eq_iff,
  Result-cases,
}
use krossdb.Config.{DatabaseKind, ConnectionConfig}
use krossdb.Errors.{Exn, library, driver, cancelled}
use krossdb.Factory.{
  Action, connect, disconnect, Factory, names, distinct, create, add_adapter, Respond,
  disconnect_quietly, disconnect_each, disconnect_all, connect_each, connect_all, or_release,
  quietly,
}
use krossdb.Factory.Outcomes.{attempt, Ends, Ends-cons, AllOrNone}

pub distinct-new :
    (pre rest : List String) (n : String)
    → distinct (pre ++ n ∷ rest) ≡ true
    → any (λ j. j == n) pre ≡ false
distinct-new [] rest n h = refl
distinct-new (x ∷ pre) rest n h = ground (arith, distinct-new pre rest n, apart x pre rest n)
  where
    apart :
        (x : String) (pre rest : List String) (n : String)
        → any (λ y. y == x) (pre ++ n ∷ rest) ≡ false
        → (x == n) ≡ false
    apart x [] rest n h = ground (arith, eq_iff x n, eq_iff n x)
    apart x (y ∷ pre) rest n h = apart x pre rest n (ground arith)

module _ (respond : Respond) (resolve : DatabaseKind → Result Exn Unit)
    (safe : (h : List Action) (n : String) → respond h (disconnect n) ≢ raise cancelled) where
  quietly_ok : (r : Result Exn Unit) → r ≢ raise cancelled → quietly respond r ≡ ok tt
  quietly_ok (ok _) h = refl
  quietly_ok (raise (library e)) h = refl
  quietly_ok (raise (driver e)) h = refl
  quietly_ok (raise cancelled) h = absurd (h refl)

  abbrev pub after : Factory → List Action → Factory
  after s actions = record s { history = s.history ++ actions }

  pub disconnect_each_lem :
      (ns : List String) (s : Factory)
      → disconnect_each respond ns s
        ≡ (ok tt, record s { adapters = []; history = s.history ++ map disconnect ns })
  unfolding disconnect_each disconnect_quietly
  disconnect_each_lem [] s = simp append-nil
  disconnect_each_lem (n ∷ ns) s =
      let t = after s (disconnect n ∷ []) in
      ap (λ r. continue r (λ _. disconnect_each respond ns) t)
        (quietly_ok (respond s.history (disconnect n)) (safe s.history n))
      ∙ disconnect_each_lem ns t
      ∙ ap (λ h. (ok tt, record s { adapters = []; history = h }))
          (append_assoc s.history (disconnect n ∷ []) (map disconnect ns))

  added :
      (n : String) (s : Factory)
      → any (λ j. j == n) s.adapters ≡ false
      → add_adapter n s ≡ record s { adapters = s.adapters ++ n ∷ [] }
  unfolding add_adapter
  added n s h = ap (λ b. record s { adapters = if b then s.adapters else s.adapters ++ n ∷ [] }) h

  connect_each_lem :
      (cs : List ConnectionConfig) (s : Factory)
      → distinct (s.adapters ++ names cs) ≡ true
      → Ends respond resolve s.adapters cs s.history (connect_each respond resolve cs s)
  unfolding connect_each disconnect_quietly
  connect_each_lem [] s d = inl (refl, tt, sym (append-nil s.adapters), sym (append-nil s.history))
  connect_each_lem (c ∷ cs) s d =
      let n = c.name in
      let t = after s (connect n ∷ []) in
      elim (Result-cases (resolve c.kind)) [
        | inr (e, r) ↦ inr (
          e,
          [],
          c,
          cs,
          false,
          refl,
          tt,
          r,
          rw r refl,
          rw r (sym (append-nil s.adapters)),
          rw r (sym (append-nil s.history)),
        )
        | inl (_, r) ↦ elim (Result-cases (respond s.history (connect n))) [
          | inr (e, g) ↦
              let q = quietly_ok (respond t.history (disconnect n)) (safe t.history n) in
              inr (
                e,
                [],
                c,
                cs,
                true,
                refl,
                tt,
                (r, ap (λ x. respond x (connect n)) (append-nil s.history) ∙ g),
                rw (r, g, q) refl,
                rw (r, g, q) (sym (append-nil s.adapters)),
                rw (r, g, q) (append_assoc s.history (connect n ∷ []) (disconnect n ∷ [])),
              )
          | inl (_, g) ↦
              let u = record t { adapters = s.adapters ++ n ∷ [] } in
              let new = added n t (distinct-new s.adapters (names cs) n d) in
              let same : connect_each respond resolve (c ∷ cs) s
                  ≡ connect_each respond resolve cs u =
                rw (r, g, new) refl in
              subst (Ends respond resolve s.adapters (c ∷ cs) s.history) (sym same) (
                Ends-cons respond resolve s.adapters cs c s.history
                  (connect_each respond resolve cs u) r g
                  (connect_each_lem cs u
                    (ap distinct (append_assoc s.adapters (n ∷ []) (names cs)) ∙ d)))
        ]
      ]

  created_parts :
      (configs : List ConnectionConfig) (f : Factory)
      → create configs ≡ ok f
      → (distinct (names configs) ≡ true)
        × (f ≡ record { configs = configs; adapters = []; history = [] })
  unfolding create
  created_parts configs f h = ground arith

  -- Connecting a new factory connects every configured adapter in order and keeps them, if all the
  -- classes are resolved and all the connects succeed; or it raises and keeps none: then the
  -- connections before some `c` connected, the exception is that of resolving the class of `c` or
  -- of its connect, and each adapter whose connect was called is disconnected once, that of `c`
  -- first. No adapter after it is touched. Disconnecting may raise anything but a cancellation.
  pub connect_all-AllOrNone :
      (configs : List ConnectionConfig) (f : Factory)
      → create configs ≡ ok f
      → AllOrNone respond resolve configs (connect_all respond resolve f)
  unfolding connect_all disconnect_all
  connect_all-AllOrNone configs f h =
      let (d, p) = created_parts configs f h in
      let start : Factory = record { configs = configs; adapters = []; history = [] } in
      rw p (elim (connect_each_lem configs start d) [
        | inl (o, ups, a, b) ↦
            let (x, y, z) =
              released_ok (connect_each respond resolve configs start) (names configs) o a b in
            inl (x, ups, y, z)
        | inr (e, done, c, rest, tried, q, ups, why, o, a, b) ↦
            let (x, y, z) =
              released (connect_each respond resolve configs start) e (names done)
                (map connect (names done) ++ attempt tried c.name) o a b in
            inr (e, done, c, rest, tried, q, ups, why, x, y, z)
      ])
    where
      released_ok :
          (out : Result Exn Unit × Factory) (ns : List String)
          → out.0 ≡ ok tt
          → out.1.adapters ≡ ns
          → out.1.history ≡ map connect ns
          → let end = or_release respond resolve out in
            (end.0 ≡ ok tt) × (end.1.adapters ≡ ns) × (end.1.history ≡ map connect ns)
      released_ok (r, s) ns o a b = rw o (refl, a, b)

      released :
          (out : Result Exn Unit × Factory) (e : Exn) (done : List String) (actions : List Action)
          → out.0 ≡ raise e
          → out.1.adapters ≡ done
          → out.1.history ≡ actions
          → let end = or_release respond resolve out in
            (end.0 ≡ raise e)
            × (end.1.adapters ≡ [])
            × (end.1.history ≡ actions ++ map disconnect done)
      released (r, s) e done actions o a b =
          rw (o, disconnect_each_lem s.adapters s)
            (
              refl,
              refl,
              ap (λ (hs : List Action). hs ++ map disconnect s.adapters) b
                  ∙ ap (λ ns. actions ++ map disconnect ns) a,
            )
