-- ===== src/Adapter/Relational/Bound.antt =====
-- adapters/relational/base.py: what runs in the session that a Unit of Work bound.
use krossdb.Common.{
  Result, ◌>>=◌, continue-then, lift, ℕ, Bool, true, false, some, List, [], ◌∷◌, ◌++◌, all, ◌≡◌,
  refl, sym, ap, ◌∙◌, Exec, inl, inr, arith, append_assoc, append-nil, nat_eq, all-append,
}
use krossdb.Config.{RoutingRole}
use krossdb.Errors.{Exn}
use krossdb.Errors.Mapper.{Registry, Context}
use krossdb.Resilience.Retry.{AsyncRetrying}
use krossdb.Adapter.Relational.{State, Respond, Call, execute, begin_nested, release, rollback_to}
use krossdb.Adapter.Relational.Session.{acquire, read_from, run_read}
use krossdb.Adapter.Relational.Admission.{SameSession}
use krossdb.Adapter.Relational.Transactions.{acquire_bound}

-- A statement on the session, or a savepoint of it.
abbrev pub is_work_on : ℕ → Call → Bool
is_work_on n (execute m text) = nat_eq m n
is_work_on n (begin_nested m) = nat_eq m n
is_work_on n (release m) = nat_eq m n
is_work_on n (rollback_to m) = nat_eq m n
is_work_on n _ = false

-- From one state to the other there are only such calls, and then the session is bound.
abbrev pub Within : ℕ → State → State → Type 0
Within n s t =
    (es : List Call) × (t.history ≡ s.history ++ es)
    × (all (is_work_on n) es ≡ true)
    × (t.active_session ≡ some n)

pub Within-here : (n : ℕ) (s : State) → s.active_session ≡ some n → Within n s s
Within-here n s h = ([], sym (append-nil s.history), refl, h)

pub Within-then : (n : ℕ) (s t u : State) → Within n s t → Within n t u → Within n s u
Within-then n s t u (es, e, a, _) (fs, f, b, bound) = (
  es ++ fs,
  f ∙ ap (λ h. h ++ fs) e ∙ append_assoc s.history es fs,
  all-append (is_work_on n) es fs ∙ ground arith,
  bound,
)

pub Within-call :
    (n : ℕ) (s : State) (c : Call)
    → is_work_on n c ≡ true
    → s.active_session ≡ some n
    → Within n s (record s { history = s.history ++ c ∷ [] })
Within-call n s c w bound = (c ∷ [], refl, ground arith, bound)

-- Replacing the ends by states of the same history and binding.
Within-same :
    (n : ℕ) (s x y t : State) → SameSession s x → Within n x y → SameSession y t → Within n s t
Within-same n s x y t (p, _) (es, e, a, bound) (q, g) =
    (es, q ∙ e ∙ ap (λ h. h ++ es) p, a, g ∙ bound)

module _ (registry : Registry) (respond : Respond) {A : Type 0} (context : Context)
    (body : ℕ → Exec State Exn A) where
  -- If the block stays within the session, so does `acquire`.
  pub acquire-Within :
      (role : RoutingRole) (n : ℕ) (s : State)
      → ((x : State) → x.active_session ≡ some n → Within n x (body n x).1)
      → s.active_session ≡ some n
      → Within n s (acquire registry respond context body role s).1
  acquire-Within role n s stays bound =
      let t : State = (acquire registry respond context body role s).1 in
      elim (acquire_bound registry respond context body role s n bound) [
        | inl same ↦ Within-same n s s s t (refl, refl) (Within-here n s bound) same
        | inr (x, (p, q), same) ↦ Within-same n s x (body n x).1 t (p, q) (stays x (q ∙ bound)) same
      ]

-- A read is not retried there.
pub run_read-bound :
    {A : Type 0} (tenacity : AsyncRetrying State A) (fn : Exec State Exn A) (n : ℕ) (s : State)
    → s.active_session ≡ some n
    → run_read tenacity fn s ≡ fn s
unfolding run_read
run_read-bound tenacity fn n s bound = ap (λ o. read_from tenacity o fn s) bound

module _ (n : ℕ) where
  -- A call that stays in the session that is bound when it starts.
  abbrev pub Stays : {A : Type 0} → Exec State Exn A → Type 0
  Stays call = (s : State) → s.active_session ≡ some n → Within n s (call s).1

  pub Stays-then :
      {A B : Type 0} (call : Exec State Exn A) (f : A → Exec State Exn B)
      → Stays call
      → ((a : A) → Stays (f a))
      → Stays (call >>= f)
  Stays-then call f first rest s bound =
      let (r, t) = call s in
      let (es, e, a, still) = first s bound in
      continue-then (Within n s) r f t (first s bound)
        (λ x. Within-then n s t (f x t).1 (first s bound) (rest x t still))

  -- What does not touch the state.
  pub Stays-pure : (s : State) → s.active_session ≡ some n → Within n s s
  Stays-pure = Within-here n

  pub Stays-lift : {A : Type 0} (r : Result Exn A) → Stays (lift {S = State} r)
  Stays-lift r = Stays-pure
