-- ===== src/Adapter/Relational/Transactions.antt =====
-- What `acquire` does with the session, on every path.
use krossdb.Common.{
  ℕ, String, none, some, List, [], ◌∷◌, ◌++◌, Result, ok, raise, ◌≡◌, refl, ◌⊎◌, inl, inr, Exec,
  length, append_assoc, ◌∙◌, ap, ◌>>=◌, Result-cases,
}
use krossdb.Config.{RoutingRole, master}
use krossdb.Errors.{Exn, library, driver, cancelled}
use krossdb.Errors.Mapper.{Registry, Context, translate_exceptions, translate, on_error}
use krossdb.Adapter.Relational.{
  select_key, State, Respond, Call, open_session, commit, rollback, close,
}
use krossdb.Adapter.Relational.Admission.{
  SameSession, Admits, Refuses, select_key-SameSession, guarded_cases,
}
use krossdb.Adapter.Relational.Session.{
  own_transaction, guarded, acquire_from, acquire, closing, conclude,
}

-- The calls after the block, by how it ended.
abbrev pub ending : {A : Type 0} → ℕ → Result Exn A → List Call
ending n (ok _) = commit n ∷ close n ∷ []
ending n (raise cancelled) = close n ∷ []
ending n (raise _) = rollback n ∷ close n ∷ []

module _ (registry : Registry) (respond : Respond) {A : Type 0} where
  history-conclude :
      (context : Context) (n : ℕ) (r : Result Exn A) (s : State)
      → (closing registry respond n (conclude registry respond context n (r, s))).1.history
        ≡ s.history ++ ending n r
  unfolding closing conclude translate_exceptions
  history-conclude context n (ok a) s = append_assoc s.history _ _
  history-conclude context n (raise cancelled) s = refl
  history-conclude context n (raise (library e)) s = append_assoc s.history _ _
  history-conclude context n (raise (driver e)) s = append_assoc s.history _ _

-- The outcome unless the clean-up after it raised.
abbrev pub unless_raised : {A : Type 0} → Result Exn Unit → Result Exn A → Result Exn A
unless_raised (ok _) r = r
unless_raised (raise e) r = raise e

-- The state in which `acquire` has made a session for a node.
abbrev pub opened_at : String → State → State
opened_at key s = record s { history = s.history ++ open_session key ∷ [] }

module _ (registry : Registry) (respond : Respond) {A : Type 0} (context : Context) where
  -- What the caller gets, by the outcome of the block, the history after it, and the answers to the
  -- calls of the ending: what the close raises comes first, then what the commit or the rollback
  -- raises, then the outcome.
  abbrev pub concluded : String → ℕ → List Call → Result Exn A → Result Exn A
  concluded key n h (ok a) =
      let names : Context = ("op", "commit") ∷ ("node", key) ∷ context in
      unless_raised (respond (h ++ commit n ∷ []) (close n))
        (unless_raised (on_error (translate registry names) (respond h (commit n))) (ok a))
  concluded key n h (raise cancelled) = unless_raised (respond h (close n)) (raise cancelled)
  concluded key n h (raise e) =
      unless_raised (respond (h ++ rollback n ∷ []) (close n))
        (unless_raised (respond h (rollback n)) (raise e))

  -- The exceptions of the block are translated.
  abbrev pub own_outcome : String → ℕ → Result Exn A × State → Result Exn A
  own_outcome key n ran =
      concluded key n ran.1.history (on_error (translate registry (("node", key) ∷ context)) ran.0)

  concluded_lem :
      (key : String) (n : ℕ) (r : Result Exn A) (s : State)
      → (closing registry respond n
          (conclude registry respond (("node", key) ∷ context) n (r, s))).0
        ≡ concluded key n s.history r
  unfolding closing conclude translate_exceptions
  concluded_lem key n (ok a) s = refl
  concluded_lem key n (raise cancelled) s = refl
  concluded_lem key n (raise (library e)) s = refl
  concluded_lem key n (raise (driver e)) s = refl

module _ (registry : Registry) (respond : Respond) {A : Type 0} (context : Context)
    (body : ℕ → Exec State Exn A) where
  pub ending_translated :
      (n : ℕ) (c : Context) (r : Result Exn A)
      → ending n (on_error (translate registry c) r) ≡ ending n r
  unfolding on_error translate
  ending_translated n c (ok a) = refl
  ending_translated n c (raise (library e)) = refl
  ending_translated n c (raise (driver e)) = refl
  ending_translated n c (raise cancelled) = refl

  -- Outside a Unit of Work the block gets a new session. Whatever it ends in, and whether or not
  -- the commit, the rollback or the close raise, the calls that follow it are: a commit and the
  -- close if it returned, a rollback and the close if it raised, and the close alone if it was
  -- cancelled.
  pub own_transaction_ends :
      (key : String) (s : State)
      → let n = length s.history in
        let ran = body n (opened_at key s) in
        (own_transaction registry respond context body key s).1.history
        ≡ ran.1.history ++ ending n ran.0
  unfolding own_transaction translate_exceptions
  own_transaction_ends key s =
      let n = length s.history in
      let ran = body n (opened_at key s) in
      history-conclude registry respond (("node", key) ∷ context) n
        (on_error (translate registry (("node", key) ∷ context)) ran.0) ran.1
      ∙ ap (λ es. ran.1.history ++ es) (ending_translated n (("node", key) ∷ context) ran.0)

  own_transaction_outcome :
      (key : String) (s : State)
      → let n = length s.history in
        (own_transaction registry respond context body key s).0
        ≡ own_outcome registry respond context key n (body n (opened_at key s))
  unfolding own_transaction translate_exceptions
  own_transaction_outcome key s =
      let n = length s.history in
      let ran = body n (opened_at key s) in
      concluded_lem registry respond context key n
        (on_error (translate registry (("node", key) ∷ context)) ran.0) ran.1

  select_then :
      (role : RoutingRole) (block : String → Exec State Exn A) (s : State)
      → let out = (select_key role >>= λ key. guarded key (block key)) s in
        ((e : Exn) × (out.0 ≡ raise e) × Refuses role s e × SameSession s out.1)
        ⊎ ((key : String) × (x : State) × SameSession s x
            × ((select_key role s).0 ≡ ok key)
            × Admits key (select_key role s).1
            × (out.0 ≡ (block key x).0)
            × SameSession (block key x).1 out.1)
  select_then role block s = elim (Result-cases (select_key role s).0) [
    | inl (key, e) ↦
        let (same_history, same_session) = select_key-SameSession role s in
        elim (guarded_cases key (block key) (select_key role s).1) [
          | inl (y, raised, why, (h, g)) ↦
              inl (y, rw e raised, inr (key, e, why), rw e (h ∙ same_history, g ∙ same_session))
          | inr (x, (p, q), free, r, h) ↦
              inr (key, x, (p ∙ same_history, q ∙ same_session), e, free, rw e r, rw e h)
        ]
    | inr (x, e) ↦ inl (x, rw e refl, inl e, rw e (select_key-SameSession role s))
  ]

  -- How a call outside a Unit of Work ends.
  abbrev pub Owns : RoutingRole → State → Result Exn A × State → Type 0
  Owns role s out =
      ((e : Exn) × (out.0 ≡ raise e) × Refuses role s e × (out.1.history ≡ s.history))
      ⊎ ((key : String) × (x : State) × SameSession s x
          × ((select_key role s).0 ≡ ok key)
          × Admits key (select_key role s).1
          × let ran = body (length s.history) (opened_at key x) in
            (out.0 ≡ own_outcome registry respond context key (length s.history) ran)
            × (out.1.history ≡ ran.1.history ++ ending (length s.history) ran.0))

  -- Outside a Unit of Work, `acquire` makes no call at all and raises the reason, which is that no
  -- node was found, that the chosen node has no breaker, or that its breaker lets no call by; or
  -- the breaker lets it by, and it makes one session on the chosen node and runs the block once.
  -- The calls after the block are a commit and the close if it returned, a rollback and the close
  -- if it raised, and the close alone if it was cancelled. The caller gets what the block ended
  -- in, translated, unless one of these calls raises.
  pub acquire_unbound :
      (role : RoutingRole) (s : State)
      → s.active_session ≡ none
      → Owns role s (acquire registry respond context body role s)
  unfolding acquire
  acquire_unbound role s h =
      let same = ap (λ o. (acquire_from registry respond context body o role s).1.history) h in
      let same_outcome = ap (λ o. (acquire_from registry respond context body o role s).0) h in
      elim (select_then role (own_transaction registry respond context body) s) [
        | inl (y, raised, why, (e, _)) ↦ inl (y, same_outcome ∙ raised, why, same ∙ e)
        | inr (key, x, (p, q), chosen, free, r, (e, _)) ↦ inr (
          key,
          x,
          (p, q),
          chosen,
          free,
          (
            same_outcome
                ∙ (r
                    ∙ own_transaction_outcome key x
                    ∙ ap
                        (λ (hs : List Call).
                          own_outcome registry respond context key (length hs)
                            (body (length hs) (opened_at key x)))
                        p),
            same
                ∙ (e
                    ∙ own_transaction_ends key x
                    ∙ ap
                        (λ (hs : List Call).
                          (body (length hs) (opened_at key x)).1.history
                          ++ ending (length hs) (body (length hs) (opened_at key x)).0)
                        p),
          ),
        )
      ]

  -- Inside a Unit of Work, `acquire` hands the block the bound session and makes no call of its
  -- own: it neither commits nor rolls back nor closes, and the binding is left to the block.
  pub acquire_bound :
      (role : RoutingRole) (s : State) (n : ℕ)
      → s.active_session ≡ some n
      → let out = acquire registry respond context body role s in
        SameSession s out.1 ⊎ ((x : State) × SameSession s x × SameSession (body n x).1 out.1)
  unfolding acquire translate_exceptions
  acquire_bound role s n h =
      let same_history =
        ap (λ o. (acquire_from registry respond context body o role s).1.history) h in
      let same_session =
        ap (λ o. (acquire_from registry respond context body o role s).1.active_session) h in
      elim (select_then master (λ key. translate_exceptions registry context (body n)) s) [
        | inl (_, _, _, (e, g)) ↦ inl (same_history ∙ e, same_session ∙ g)
        | inr (key, x, same, chosen, _, _, (e, g)) ↦
            inr (x, same, (same_history ∙ e, same_session ∙ g))
      ]
