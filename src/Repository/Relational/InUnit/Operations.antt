-- ===== src/Repository/Relational/InUnit/Operations.antt =====
-- repositories/relational_repository.py: the bulk operations of `SQLAlchemyRepository` inside a Unit
-- of Work, and all operations together.
use krossdb.Common.{
  ℕ, ◌+◌, String, Option, some, List, [], ◌∷◌, Result, ok, raise, Exec, ◌>>=◌, ◌>>◌, lift, true,
  ◌≡◌, arith,
}
use krossdb.Config.{master}
use krossdb.Errors.{Exn}
use krossdb.Adapter.Relational.{State, Call, begin_nested, release, rollback_to, request}
use krossdb.Adapter.Relational.Bound.{
  is_work_on, Within, Within-then, Within-call, acquire-Within, Stays, Stays-then, Stays-pure,
}
use krossdb.Repository.Criteria.{Entity, Specification, Criteria}
use krossdb.Repository.Table.{SqlAlchemyRepository, insert_values}
use krossdb.Repository.Bulk.{collect, collect-then}
use krossdb.Repository.Interface.{SortSpec, BulkResult, Changes}
use krossdb.Repository.Relational.{
  execute_for, translated, get_by_id, create, update, delete_by_id, find, count, nested, nested_end,
  insert_one, create_each, bulk_create, update_each, bulk_update, bulk_delete,
}
use krossdb.Repository.Relational.InUnit.{
  execute_for-Stays, translated-Stays, get_by_id-Stays, create-Stays, update-Stays,
  delete_by_id-Stays, bulk_delete-Stays, find-Stays, count-Stays,
}

module _ (self : SqlAlchemyRepository) (n : ℕ) where
  open self use {registry, respond, database, context, columns}

  -- One more call on the session, with a result of its own or the one given.
  call_then-Stays :
      {A : Type 0} (c : Call) (r : Result Exn A)
      → is_work_on n c ≡ true
      → Stays n (request respond c >> lift r)
  unfolding request
  call_then-Stays c r work =
      Stays-then n (request respond c) (λ _. lift r) (λ s b. Within-call n s c work b)
        (λ _. Stays-pure n)

  -- The end of a savepoint.
  nested_end-Within :
      {A : Type 0} (s : State) (p : Result Exn A × State)
      → Within n s p.1
      → Within n s (nested_end self n p).1
  nested_end-Within {A} s (ok a, t) (es, e, w, bound) =
      Within-then n s t (nested_end self n (ok a, t)).1 (es, e, w, bound)
        (call_then-Stays (release n) (ok a) (ground arith) t bound)
  nested_end-Within {A} s (raise x, t) (es, e, w, bound) =
      Within-then n s t (nested_end self {A = A} n (raise x, t)).1 (es, e, w, bound)
        (call_then-Stays (rollback_to n) (raise x) (ground arith) t bound)

  nested-Stays :
      {A : Type 0} (block : Exec State Exn A) → Stays n block → Stays n (nested self n block)
  unfolding nested request
  nested-Stays block stays =
      Stays-then n (request respond (begin_nested n)) (λ _ s. nested_end self n (block s))
        (λ s b. Within-call n s (begin_nested n) (ground arith) b)
        (λ _ s b. nested_end-Within s (block s) (stays s b))

  insert_one-Stays : (x : Entity) → Stays n (insert_one self n x)
  insert_one-Stays x =
      nested-Stays
        (translated self "bulk_create" (execute_for self database.rowcount n (insert_values x)))
        (translated-Stays self n "bulk_create"
          (execute_for self database.rowcount n (insert_values x))
          (execute_for-Stays self n database.rowcount (insert_values x)))

  -- An item of a bulk call, and the items after it.
  item-Stays :
      {A : Type 0} (index : ℕ) (b : BulkResult) (g : A → Entity) (item : Exec State Exn A)
      (rest : BulkResult → Exec State Exn BulkResult)
      → Stays n item
      → ((b' : BulkResult) → Stays n (rest b'))
      → Stays n ((λ s. collect index b g (item s)) >>= rest)
  item-Stays index b g item rest stays others s bound =
      let (es, e, w, still) = stays s bound in
      collect-then (Within n s) index b g (item s) rest (stays s bound) (λ b'.
        Within-then n s (item s).1 (rest b' (item s).1).1 (stays s bound)
          (others b' (item s).1 still))

  create_each-Stays :
      (index : ℕ) (xs : List Entity) (b : BulkResult) → Stays n (create_each self n index xs b)
  unfolding create_each
  create_each-Stays index [] b = Stays-pure n
  create_each-Stays index (x ∷ xs) b =
      item-Stays index b (λ _. x) (insert_one self n x) (create_each self n (index + 1) xs)
        (insert_one-Stays x) (create_each-Stays (index + 1) xs)

  bulk_create-Stays : (xs : List Entity) → Stays n (bulk_create self xs)
  unfolding bulk_create
  bulk_create-Stays xs s bound =
      acquire-Within registry respond context _ master n s
        (create_each-Stays 0 xs (record { succeeded = []; failed = [] })) bound

  update_each-Stays :
      (extra : Option Specification) (index : ℕ) (us : List (String × Changes)) (b : BulkResult)
      → Stays n (update_each self extra index us b)
  unfolding update_each
  update_each-Stays extra index [] b = Stays-pure n
  update_each-Stays extra index ((id, changes) ∷ us) b =
      item-Stays index b (λ e. e) (update self id changes extra)
        (update_each self extra (index + 1) us) (update-Stays self n id changes extra)
        (update_each-Stays extra (index + 1) us)

  -- In a Unit of Work that bound a session, all that an operation of the repository asks of the
  -- database, whatever it is called for and however it ends, is statements on that session and
  -- savepoints in it, and the session stays bound. It opens no session, reads from no replica, and
  -- neither commits nor rolls back nor closes, so that reads see the unit's writes and all the
  -- writes live and die with the unit.
  pub operations_in_unit :
      (s : State)
      → s.active_session ≡ some n
      → ((id : String) → Within n s (get_by_id self id s).1)
        × ((x : Entity) → Within n s (create self x s).1)
        × ((id : String) (changes : Changes) (extra : Option Specification)
            → Within n s (update self id changes extra s).1)
        × ((id : String) (extra : Option Specification)
            → Within n s (delete_by_id self id extra s).1)
        × ((criteria : Criteria) (limit offset : ℕ) (sort : List SortSpec)
            → Within n s (find self criteria limit offset sort s).1)
        × ((criteria : Criteria) → Within n s (count self criteria s).1)
        × ((xs : List Entity) → Within n s (bulk_create self xs s).1)
        × ((us : List (String × Changes)) (extra : Option Specification)
            → Within n s (bulk_update self us extra s).1)
        × ((ids : List String) (extra : Option Specification)
            → Within n s (bulk_delete self ids extra s).1)
  unfolding bulk_update
  operations_in_unit s bound = (
    λ id. get_by_id-Stays self n id s bound,
    λ x. create-Stays self n x s bound,
    λ id changes extra. update-Stays self n id changes extra s bound,
    λ id extra. delete_by_id-Stays self n id extra s bound,
    λ criteria limit offset sort. find-Stays self n criteria limit offset sort s bound,
    λ criteria. count-Stays self n criteria s bound,
    λ xs. bulk_create-Stays xs s bound,
    λ us extra. update_each-Stays extra 0 us (record { succeeded = []; failed = [] }) s bound,
    λ ids extra. bulk_delete-Stays self n ids extra s bound,
  )
