-- ===== src/Uow/Tests.antt =====
-- Concrete blocks.
use krossdb.Common.{none, some, true, false, List, [], ◌∷◌, ◌≡◌, refl, ok, raise, ap}
use krossdb.Config.Defaults.{connection_config}
use krossdb.Config.{sqlite}
use krossdb.Errors.{runtime_error, assertion_error}
use krossdb.Events.{DomainEvent}
use krossdb.Adapter.Relational.{State, Call, Respond}
use krossdb.Uow.{Uow, init, with_uow, commit}
use krossdb.Uow.Protocol.{
  Hook, begin, persist, commit_hook, rollback_hook, Answers, recording, commit_protocol, ended,
}
use krossdb.Uow.Block.{register_all, entered, forgotten_commit, committed_block}
use krossdb.Uow.Sqlalchemy.{sql_backend}
use krossdb.Uow.Sqlalchemy.Blocks.{begun, new_unit, rolling_back, rollback_in_block}

abbrev event : DomainEvent
event = record { event_id = "e"; event_type = "Created"; occurred_at = 1; fields = "" }

-- Everything succeeds but the commit.
abbrev no_commit : Answers
no_commit log commit_hook = raise runtime_error
no_commit log begin = ok tt
no_commit log rollback_hook = ok tt
no_commit log (persist es) = ok tt

-- Everything succeeds but the rollback.
abbrev no_rollback : Answers
no_rollback log rollback_hook = raise runtime_error
no_rollback log begin = ok tt
no_rollback log commit_hook = ok tt
no_rollback log (persist es) = ok tt

commit_protocol_example :
    let u : Uow (List Hook) = record (entered no_commit [] refl) { pending_events = event ∷ [] } in
    commit (recording no_commit) u ≡ (
      raise runtime_error,
      ended no_commit u false (begin ∷ persist (event ∷ []) ∷ commit_hook ∷ []),
    )
commit_protocol_example =
    commit_protocol no_commit (record (entered no_commit [] refl) { pending_events = event ∷ [] })
      refl refl

forgotten_commit_example :
    (with_uow (recording no_commit) (λ u. (ok tt, register_all (event ∷ []) u)) (init [])).1.world
    ≡ begin ∷ rollback_hook ∷ []
forgotten_commit_example = (forgotten_commit no_commit [] refl (event ∷ []) (ok tt)).0

committed_block_example :
    (with_uow
      (recording no_commit)
      (λ u. commit (recording no_commit) (register_all (event ∷ []) u))
      (init [])).0
    ≡ raise runtime_error
committed_block_example = ap (λ p. p.0) (committed_block no_commit [] refl (event ∷ []))

abbrev adapter : State
adapter = record {
  config = connection_config "db" sqlite [];
  engines = [];
  breakers = [];
  replica_balancer = none;
  master_key = some "m";
  connected = true;
  active_session = none;
  clock = 0;
  history = [];
}

-- The database refuses to roll back.
abbrev stuck : Respond
stuck history (Call.rollback n) = raise runtime_error
stuck history _ = ok tt

rollback_in_block_example :
    (with_uow
      (sql_backend [] stuck none)
      (rolling_back [] stuck none (λ x. (ok tt, x)))
      (new_unit adapter)).0
    ≡ raise assertion_error
rollback_in_block_example =
    (rollback_in_block [] stuck none (λ x. (ok tt, x)) "m" adapter (begun "m" adapter) _ refl refl
      refl refl refl).0
