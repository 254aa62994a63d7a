-- ===== src/Uow/Block.antt =====
-- Whole `async with` blocks over the recording backend.
use krossdb.Common.{
  true, false, List, [], ◌∷◌, ◌++◌, Result, ok, raise, Exec, ◌≡◌, refl, arith, ap, ◌∙◌,
  append_assoc, append-nil,
}
use krossdb.Errors.{Exn}
use krossdb.Events.{DomainEvent}
use krossdb.Uow.{Uow, init, register_event, commit, rollback, exit, with_uow, outcome, leave}
use krossdb.Uow.Protocol.{
  Hook, begin, rollback_hook, Answers, recording, flushes, flush_result, commit_end,
  commit_protocol,
}

-- A block that registers events, one by one.
unfoldable pub register_all : List DomainEvent → Uow (List Hook) → Uow (List Hook)
unfolding register_event
register_all [] u = u
register_all (e ∷ es) u = register_all es (register_event e u)

register_all_lem :
    (es : List DomainEvent) (u : Uow (List Hook))
    → register_all es u ≡ record u { pending_events = u.pending_events ++ es }
unfolding register_all
register_all_lem [] u = simp append-nil
register_all_lem (e ∷ es) u = register_all_lem es (register_event e u) ∙ simp append_assoc

module _ (respond : Answers) (log : List Hook) (began : respond log begin ≡ ok tt) where
  -- The unit inside the block.
  abbrev pub entered : Uow (List Hook)
  entered = record {
    active = true;
    committed = false;
    finished = false;
    pending_events = [];
    world = log ++ begin ∷ [];
  }

  with_uow-entered :
      {A : Type 0} (body : Exec (Uow (List Hook)) Exn A)
      → with_uow (recording respond) body (init log) ≡ leave (recording respond) (body entered)
  unfolding with_uow init
  with_uow-entered body = rw began

  exit_unfinished :
      (v : Uow (List Hook))
      → v.finished ≡ false
      → v.active ≡ true
      → let out = exit (recording respond) v in
        (out.1.world ≡ v.world ++ rollback_hook ∷ [])
        × (out.0 ≡ respond v.world rollback_hook)
        × (out.1.active ≡ false)
        × (out.1.committed ≡ v.committed)
  unfolding exit
  exit_unfinished v f a = ground arith

  exit_finished :
      (v : Uow (List Hook))
      → v.finished ≡ true
      → exit (recording respond) v ≡ (ok tt, record v { active = false })
  unfolding exit
  exit_finished v f = ground arith

  leave_finished :
      {A : Type 0} (r : Result Exn A) (v : Uow (List Hook))
      → v.finished ≡ true
      → leave (recording respond) (r, v) ≡ (r, record v { active = false })
  leave_finished r v f = rw (exit_finished v f)

  -- A block that registers events and then neither commits nor rolls back is rolled back once,
  -- whether it returned or raised: none of its events is persisted and nothing is committed. It
  -- ends as the block did unless the rollback raises, and the unit is no longer active.
  pub forgotten_commit :
      {A : Type 0} (es : List DomainEvent) (r : Result Exn A)
      → let before = log ++ begin ∷ [] in
        let out = with_uow (recording respond) (λ u. (r, register_all es u)) (init log) in
        (out.1.world ≡ before ++ rollback_hook ∷ [])
        × (out.0 ≡ outcome (respond before rollback_hook) r)
        × (out.1.active ≡ false)
        × (out.1.committed ≡ false)
  forgotten_commit es r =
      let (w, o, a, c) = exit_unfinished (record (entered) { pending_events = es }) refl refl in
      rw
        (with_uow-entered (λ u. (r, register_all es u))
          ∙ ap (λ v. leave (recording respond) (r, v)) (register_all_lem es entered))
        (w, ap (λ x. outcome x r) o, a, c)

  leave-commit_end :
      (u : Uow (List Hook)) (after : List Hook) (r : Result Exn Unit)
      → let (x, v) = commit_end respond u after r in
        leave (recording respond) (commit_end respond u after r) ≡ (x, record v { active = false })
  leave-commit_end u after (ok _) = leave_finished _ _ refl
  leave-commit_end u after (raise x) = leave_finished _ _ refl

  -- A block that registers events and then commits makes exactly the hooks of the commit after
  -- its begin, ends as the commit does, and the exit adds no hook: the events are persisted once,
  -- in order, before the commit, and if that fails the block is rolled back once.
  pub committed_block :
      (es : List DomainEvent)
      → let before = log ++ begin ∷ [] in
        let (x, v) =
          commit_end respond
            (record (entered) { pending_events = es })
            (before ++ flushes es)
            (flush_result respond before es) in
        with_uow
          (recording respond)
          (λ u. commit (recording respond) (register_all es u))
          (init log)
        ≡ (x, record v { active = false })
  committed_block es =
      let u : Uow (List Hook) = record (entered) { pending_events = es } in
      with_uow-entered (λ v. commit (recording respond) (register_all es v))
      ∙ ap (λ v. leave (recording respond) (commit (recording respond) v))
          (register_all_lem es entered)
      ∙ ap (leave (recording respond)) (commit_protocol respond u refl refl)
      ∙ leave-commit_end u (u.world ++ flushes es) (flush_result respond u.world es)

  -- If an explicit rollback raises, the exit from the block rolls back a second time, and what
  -- that raises hides the first exception.
  pub rollback_twice :
      (x : Exn)
      → let before = log ++ begin ∷ [] in
        let twice = before ++ rollback_hook ∷ [] in
        respond before rollback_hook ≡ raise x
        → let out = with_uow (recording respond) (rollback (recording respond)) (init log) in
          (out.1.world ≡ twice ++ rollback_hook ∷ [])
          × (out.0 ≡ outcome (respond twice rollback_hook) (raise x))
  unfolding rollback
  rollback_twice x e =
      let v : Uow (List Hook) = record (entered) {
        world = (log ++ begin ∷ []) ++ rollback_hook ∷ [];
      } in
      let (w, o, a, c) = exit_unfinished v refl refl in
      let failed : rollback (recording respond) entered ≡ (raise x, v) = rw e in
      rw (with_uow-entered (rollback (recording respond)) ∙ ap (leave (recording respond)) failed)
        (w, ap (λ y. outcome y (raise x)) o)
