-- ===== src/Uow/Protocol.antt =====
-- The order of the backend's hooks, seen by a backend that records them and answers each as
-- `respond` says, which may depend on all the hooks before it.
use krossdb.Common.{
  Bool, true, false, List, [], ◌∷◌, ◌++◌, Result, ok, raise, if◌then◌else◌, ◌≡◌, refl, arith, ap,
  ◌∙◌, inl, inr, Result-cases, append-nil, is_ok, not,
}
use krossdb.Errors.{Exn, error, no_active_transaction_error}
use krossdb.Events.{DomainEvent}
use krossdb.Uow.{
  Backend, Uow, commit, flush_pending, commit_after, mark_committed, reraise, outcome,
}

pub data Hook : Type 0 where
  begin commit_hook rollback_hook : Hook
  persist : List DomainEvent → Hook

abbrev pub Answers : Type 0
Answers = List Hook → Hook → Result Exn Unit

-- The state is the list of hooks that ran.
abbrev pub recording : Answers → Backend (List Hook)
recording respond = record {
  begin = λ log. (respond log begin, log ++ begin ∷ []);
  commit = λ log. (respond log commit_hook, log ++ commit_hook ∷ []);
  rollback = λ log. (respond log rollback_hook, log ++ rollback_hook ∷ []);
  persist_events = λ es log. (respond log (persist es), log ++ persist es ∷ []);
}

-- The hooks of a commit before its last one: the events, if there are any.
abbrev pub flushes : List DomainEvent → List Hook
flushes [] = []
flushes (e ∷ es) = persist (e ∷ es) ∷ []

-- How the flush ends: there is nothing to persist, or the persisting decides.
abbrev pub flush_result : Answers → List Hook → List DomainEvent → Result Exn Unit
flush_result respond log [] = ok tt
flush_result respond log (e ∷ es) = respond log (persist (e ∷ es))

module _ (respond : Answers) where
  -- The unit after its last hook.
  abbrev pub ended : Uow (List Hook) → Bool → List Hook → Uow (List Hook)
  ended u committed log = record u {
    committed = committed;
    finished = true;
    pending_events = [];
    world = log;
  }

  -- The end of a commit after the hooks in `log`, by how the flush ended.
  abbrev pub commit_end :
      Uow (List Hook) → List Hook → Result Exn Unit → Result Exn Unit × Uow (List Hook)
  commit_end u log (ok _) =
      (respond log commit_hook, ended u (is_ok (respond log commit_hook)) (log ++ commit_hook ∷ []))
  commit_end u log (raise x) =
      (outcome (respond log rollback_hook) (raise x), ended u false (log ++ rollback_hook ∷ []))

  mark_committed-ended :
      (r : Result Exn Unit) (u : Uow (List Hook)) (log : List Hook)
      → u.committed ≡ false
      → mark_committed (r, ended u u.committed log) ≡ (r, ended u (is_ok r) log)
  mark_committed-ended (ok _) u log c = refl
  mark_committed-ended (raise e) u log c = ap (λ b. (raise e, ended u b log)) c

  reraise-outcome :
      (e : Exn) (r : Result Exn Unit) (v : Uow (List Hook))
      → reraise {A = Unit} e (r, v) ≡ (outcome r (raise e), v)
  reraise-outcome e (ok _) v = refl
  reraise-outcome e (raise x) v = refl

  commit_flushed :
      (es : List DomainEvent) (u : Uow (List Hook))
      → u.committed ≡ false
      → flush_result respond u.world es ≡ ok tt
      → let log = u.world ++ flushes es in
        commit_after (recording respond) (flush_pending (recording respond) es u) ≡ (
          respond log commit_hook,
          ended u (is_ok (respond log commit_hook)) (log ++ commit_hook ∷ []),
        )
  commit_flushed [] u c f =
      rw (append-nil u.world) (mark_committed-ended (respond u.world commit_hook) u _ c)
  commit_flushed (e ∷ es) u c f = rw f (mark_committed-ended (respond _ commit_hook) u _ c)

  commit_not_flushed :
      (es : List DomainEvent) (u : Uow (List Hook)) (x : Exn)
      → flush_result respond u.world es ≡ raise x
      → let log = u.world ++ flushes es in
        commit_after (recording respond) (flush_pending (recording respond) es u) ≡ (
          outcome (respond log rollback_hook) (raise x),
          ended u u.committed (log ++ rollback_hook ∷ []),
        )
  commit_not_flushed [] u x f = absurd (ground arith)
  commit_not_flushed (e ∷ es) u x f = rw f (reraise-outcome x (respond _ rollback_hook) _)

  commit_active :
      (u : Uow (List Hook))
      → u.active ≡ true
      → commit (recording respond) u
        ≡ commit_after (recording respond) (flush_pending (recording respond) u.pending_events u)
  unfolding commit
  commit_active u a =
      ap
        (λ b.
          if not b
          then (raise (error no_active_transaction_error), u)
          else commit_after (recording respond)
              (flush_pending (recording respond) u.pending_events u))
        a

  -- Committing an active unit that has not committed yet persists the registered events first, if there are any. If that
  -- succeeds it commits, ends as the commit does, and counts as committed exactly if the commit
  -- succeeded; if it raises, the unit rolls back, never commits, and ends in the exception of the
  -- flush unless the rollback raises one. In both cases it is finished, with no events left.
  pub commit_protocol :
      (u : Uow (List Hook))
      → u.active ≡ true
      → u.committed ≡ false
      → commit (recording respond) u
        ≡ commit_end u
            (u.world ++ flushes u.pending_events)
            (flush_result respond u.world u.pending_events)
  commit_protocol u a c =
      let log = u.world ++ flushes u.pending_events in
      commit_active u a ∙ elim (Result-cases (flush_result respond u.world u.pending_events)) [
        | inl (_, f) ↦ rw f (commit_flushed u.pending_events u c f)
        | inr (x, f) ↦ rw f (
            commit_not_flushed u.pending_events u x f
            ∙ ap
                (λ b. (
                  outcome (respond log rollback_hook) (raise x),
                  ended u b (log ++ rollback_hook ∷ []),
                ))
                c)
      ]
