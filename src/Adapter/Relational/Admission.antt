-- ===== src/Adapter/Relational/Admission.antt =====
-- adapters/relational/base.py: whom the guard of a node lets by, and why `acquire` refuses.
use krossdb.Common.{
  String, none, some, Result, ok, raise, ◌≡◌, refl, sym, ◌⊎◌, inl, inr, arith, Exec, ◌∙◌, ap,
  Option-cases,
}
use krossdb.Config.{RoutingRole}
use krossdb.Errors.{Exn, key_error}
use krossdb.Common.Dict.{lookup}
use krossdb.Adapter.Relational.{select_key, cell, or_init, State}
use krossdb.Resilience.Breaker.{Breaker, infrastructure_failures, before_call}
use krossdb.Resilience.Breaker.Guard.{guard_cases}
use krossdb.Adapter.Relational.Session.{guarded}

-- A state with the history and the session binding of `s`.
abbrev pub SameSession : State → State → Type 0
SameSession s x = (x.history ≡ s.history) × (x.active_session ≡ s.active_session)

pub select_key-SameSession : (role : RoutingRole) (s : State) → SameSession s (select_key role s).1
unfolding select_key
select_key-SameSession role s = ground arith

-- Why the guard of a node bars a call with an exception: the node has no breaker, or its breaker
-- lets no call by.
abbrev pub Bars : String → State → Exn → Type 0
Bars key s e =
    ((lookup key s.breakers ≡ none) × (e ≡ key_error))
    ⊎ ((b : Breaker) × (lookup key s.breakers ≡ some b)
        × ((before_call s.config.circuit_breaker s.clock b).0 ≡ raise e))

-- The node has a breaker, which lets a call by.
abbrev pub Admits : String → State → Type 0
Admits key s =
    (b : Breaker) × (lookup key s.breakers ≡ some b)
    × ((before_call s.config.circuit_breaker s.clock b).0 ≡ ok tt)

-- Why `acquire` outside a Unit of Work refuses with an exception: it found no node, or the guard of
-- the node that it chose bars the call.
abbrev pub Refuses : RoutingRole → State → Exn → Type 0
Refuses role s e =
    ((select_key role s).0 ≡ raise e)
    ⊎ ((key : String) × ((select_key role s).0 ≡ ok key) × Bars key (select_key role s).1 e)

-- Either nothing ran, or the block ran once, from a state that differs in the breakers alone.
module _ {A : Type 0} (key : String) (block : Exec State Exn A) (s : State) where
  abbrev pub Ran : Result Exn A × State → Type 0
  Ran out =
      ((e : Exn) × (out.0 ≡ raise e) × Bars key s e × SameSession s out.1)
      ⊎ ((x : State) × SameSession s x
          × Admits key s
          × (out.0 ≡ (block x).0)
          × SameSession (block x).1 out.1)

  pub guarded_cases : Ran (guarded key block s)
  unfolding guarded cell
  guarded_cases = elim (Option-cases (lookup key s.breakers)) [
    | inl e ↦ inl (key_error, rw e refl, inl (e, refl), rw e (refl, refl))
    | inr (b, e) ↦
        let admission = ap (λ o. (before_call s.config.circuit_breaker s.clock (or_init o)).0) e in
        let run =
          guard_cases (cell key) s.config.circuit_breaker (some infrastructure_failures) block s in
        elim run [
          | inl (x, b', h, why) ↦
              inl (
                x,
                rw (e, h) refl,
                inr (b, e, sym admission ∙ why),
                (rw (e, h) refl, rw (e, h) refl),
              )
          | inr (b', b'', h, free) ↦ inr (
            (cell key).write b' s,
            (refl, refl),
            (b, e, sym admission ∙ free),
            rw (e, h) refl,
            (rw (e, h) refl, rw (e, h) refl),
          )
        ]
  ]
