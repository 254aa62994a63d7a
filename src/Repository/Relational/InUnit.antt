-- ===== src/Repository/Relational/InUnit.antt =====
-- repositories/relational_repository.py: the single operations of `SQLAlchemyRepository` inside a
-- Unit of Work.
pub mod Operations
use krossdb.Common.{
  ℕ, ◌+◌, String, Bool, true, Option, none, some, List, [], ◌∷◌, ◌++◌, Result, ok, raise, Exec,
  ◌>>=◌, continue, continue-then, pure, lift, ltb, nat_eq, throw_if, ◌≡◌, refl, sym, ap, ◌∙◌, arith,
  Result-cases, inl, inr, Bool-cases,
}
use mathlib.Core.Path.{subst}
use krossdb.Config.{RoutingRole, master, replica}
use krossdb.Errors.{Exn, value_error, error, record_not_found_error}
use krossdb.Errors.Mapper.{translate_exceptions}
use krossdb.Adapter.Relational.{State, Call, execute, begin_nested, release, rollback_to, request}
use krossdb.Adapter.Relational.Session.{acquire, run_read}
use krossdb.Adapter.Relational.Bound.{
  is_work_on, Within, Within-here, Within-then, Within-call, acquire-Within, Stays, Stays-then,
  Stays-pure, Stays-lift, run_read-bound,
}
use krossdb.Repository.Criteria.{Entity, Specification, Criteria}
use krossdb.Repository.Criteria.Relational.{Condition, apply_criteria, apply_extra_criteria}
use krossdb.Repository.Table.{
  SqlAlchemyRepository, Statement, select_where, select_count, select_page, insert_values,
  update_values, delete_where, first_row, known_columns,
}
use krossdb.Repository.Bulk.{collect, collect-then}
use krossdb.Repository.Interface.{SortSpec, Page, BulkResult, Changes}
use krossdb.Repository.Relational.{
  alone, execute_for, translated, row_to_model, rows_to_models, model_or_none, or_not_found, id_is,
  id_in, get_by_id, create, update, delete_by_id, read_page, find, count, nested, nested_end,
  insert_one, create_each, bulk_create, update_each, bulk_update, bulk_delete,
}

module _ (self : SqlAlchemyRepository) (n : ℕ) where
  open self use {registry, respond, database, context, table_name, columns, tenacity}

  pub execute_for-Stays :
      {A : Type 0} (answer : List Call → Statement → Result Exn A) (stmt : Statement)
      → Stays n (execute_for self answer n stmt)
  execute_for-Stays answer stmt s bound =
      Within-call n s (execute n (database.compiled stmt)) (ground arith) bound

  pub translated-Stays :
      {A : Type 0} (op : String) (call : Exec State Exn A)
      → Stays n call
      → Stays n (translated self op call)
  unfolding translate_exceptions
  translated-Stays op call stays s bound = stays s bound

  alone-Stays :
      {A : Type 0} (role : RoutingRole) (op : String)
      (answer : List Call → Statement → Result Exn A) (stmt : Statement)
      → Stays n (alone self role op answer stmt)
  unfolding translate_exceptions
  alone-Stays role op answer stmt s bound =
      acquire-Within registry respond context
        (λ session. translated self op (execute_for self answer session stmt)) role n s
        (λ x b. execute_for-Stays answer stmt x b) bound

  row_to_model-Stays : (row : Entity) → Stays n (row_to_model self row)
  row_to_model-Stays row =
      Stays-then n (lift (self.validate row)) (λ _. pure row) (Stays-lift n (self.validate row))
        (λ _. Stays-pure n)

  rows_to_models-Stays : (rows : List Entity) → Stays n (rows_to_models self rows)
  rows_to_models-Stays [] = Stays-pure n
  rows_to_models-Stays (r ∷ rs) =
      Stays-then n (row_to_model self r) (λ m. rows_to_models self rs >>= λ ms. pure (m ∷ ms))
        (row_to_model-Stays r)
        (λ m.
          Stays-then n (rows_to_models self rs) (λ ms. pure (m ∷ ms)) (rows_to_models-Stays rs)
            (λ _. Stays-pure n))

  model_or_none-Stays : (o : Option Entity) → Stays n (model_or_none self o)
  model_or_none-Stays none = Stays-pure n
  model_or_none-Stays (some row) =
      Stays-then n (row_to_model self row) (λ m. pure (some m)) (row_to_model-Stays row)
        (λ _. Stays-pure n)

  or_not_found-Stays : (o : Option Entity) → Stays n (or_not_found self o)
  or_not_found-Stays none = Stays-pure n
  or_not_found-Stays (some row) = row_to_model-Stays row

  -- In the unit a read is made once.
  run_read-Stays :
      {A : Type 0} (fn : Exec State Exn A) → Stays n fn → Stays n (run_read (tenacity A) fn)
  run_read-Stays {A} fn stays s bound =
      subst (λ p. Within n s p.1) (sym (run_read-bound (tenacity A) fn n s bound)) (stays s bound)

  pub get_by_id-Stays : (id : String) → Stays n (get_by_id self id)
  unfolding get_by_id
  get_by_id-Stays id =
      Stays-then n (lift (id_is self id)) _ (Stays-lift n (id_is self id)) (λ where_id.
        let read : Exec State Exn (List Entity) =
          alone self replica "get_by_id" database.rows (select_where (where_id ∷ [])) in
        Stays-then n (run_read (tenacity (List Entity)) read)
          (λ rows. model_or_none self (first_row rows))
          (run_read-Stays read
            (alone-Stays replica "get_by_id" database.rows (select_where (where_id ∷ []))))
          (λ rows. model_or_none-Stays (first_row rows)))

  pub create-Stays : (entity : Entity) → Stays n (create self entity)
  unfolding create
  create-Stays entity =
      Stays-then n (alone self master "create" database.rowcount (insert_values entity))
        (λ _. pure entity) (alone-Stays master "create" database.rowcount (insert_values entity))
        (λ _. Stays-pure n)

  -- The conditions of a write, and what it does with them.
  conditions-Stays :
      {B : Type 0} (where_id : Result Exn Condition) (extra : Option Specification)
      (f : Condition → List Condition → Exec State Exn B)
      → ((c : Condition) (conditions : List Condition) → Stays n (f c conditions))
      → Stays n (lift where_id >>= λ c. lift (apply_extra_criteria columns extra (c ∷ [])) >>= f c)
  conditions-Stays where_id extra f stays =
      Stays-then n (lift where_id) _ (Stays-lift n where_id) (λ c.
        Stays-then n (lift (apply_extra_criteria columns extra (c ∷ []))) (f c)
          (Stays-lift n (apply_extra_criteria columns extra (c ∷ []))) (stays c))

  pub update-Stays :
      (id : String) (changes : Changes) (extra : Option Specification)
      → Stays n (update self id changes extra)
  unfolding update
  update-Stays id changes extra = conditions-Stays (id_is self id) extra _ (λ c conditions.
      Stays-then n (alone self master "update" database.rowcount (update_values conditions changes))
        _ (alone-Stays master "update" database.rowcount (update_values conditions changes))
        (λ matched.
          Stays-then n (throw_if (nat_eq matched 0) (error record_not_found_error)) _ (Stays-pure n)
            (λ _.
              Stays-then n
                (alone self master "update_readback" database.rows (select_where (c ∷ [])))
                (λ rows. or_not_found self (first_row rows))
                (alone-Stays master "update_readback" database.rows (select_where (c ∷ [])))
                (λ rows. or_not_found-Stays (first_row rows)))))

  deletion-Stays :
      {B : Type 0} (where_id : Result Exn Condition) (extra : Option Specification) (op : String)
      (f : ℕ → Result Exn B)
      → Stays n (
          lift where_id >>= λ c.
          lift (apply_extra_criteria columns extra (c ∷ [])) >>= λ conditions.
          alone self master op database.rowcount (delete_where conditions) >>= λ matched.
          lift (f matched))
  deletion-Stays where_id extra op f = conditions-Stays where_id extra _ (λ c conditions.
      Stays-then n (alone self master op database.rowcount (delete_where conditions))
        (λ matched. lift (f matched))
        (alone-Stays master op database.rowcount (delete_where conditions))
        (λ matched. Stays-lift n (f matched)))

  pub bulk_delete-Stays :
      (ids : List String) (extra : Option Specification) → Stays n (bulk_delete self ids extra)
  unfolding bulk_delete
  bulk_delete-Stays [] extra = Stays-pure n
  bulk_delete-Stays (i ∷ is) extra = deletion-Stays (id_in self (i ∷ is)) extra "bulk_delete" ok

  pub delete_by_id-Stays :
      (id : String) (extra : Option Specification) → Stays n (delete_by_id self id extra)
  unfolding delete_by_id
  delete_by_id-Stays id extra =
      deletion-Stays (id_is self id) extra "delete" (λ matched. ok (ltb 0 matched))

  read_page-Stays :
      (conditions : List Condition) (sort : List SortSpec) (limit offset : ℕ)
      → Stays n (read_page self conditions sort limit offset)
  unfolding translate_exceptions
  read_page-Stays conditions sort limit offset s bound =
      acquire-Within registry respond context _ replica n s
        (λ x b.
          Stays-then n (execute_for self database.scalar_one n (select_count conditions)) _
            (execute_for-Stays database.scalar_one (select_count conditions))
            (λ total.
              Stays-then n
                (execute_for self database.rows n (select_page conditions sort limit offset))
                (λ rows. pure (total, rows))
                (execute_for-Stays database.rows (select_page conditions sort limit offset))
                (λ _. Stays-pure n))
            x b)
        bound

  pub find-Stays :
      (criteria : Criteria) (limit offset : ℕ) (sort : List SortSpec)
      → Stays n (find self criteria limit offset sort)
  unfolding find
  find-Stays criteria limit offset sort =
      Stays-then n (throw_if (nat_eq limit 0) value_error) _ (Stays-pure n) (λ _.
        Stays-then n (lift (apply_criteria columns criteria [])) _
          (Stays-lift n (apply_criteria columns criteria []))
          (λ conditions.
            Stays-then n (lift (known_columns columns sort)) _
              (Stays-lift n (known_columns columns sort))
              (λ _.
                Stays-then n
                  (run_read (tenacity (ℕ × List Entity))
                    (read_page self conditions sort limit offset))
                  _
                  (run_read-Stays (read_page self conditions sort limit offset)
                    (read_page-Stays conditions sort limit offset))
                  (λ p.
                    Stays-then n (rows_to_models self p.1) _ (rows_to_models-Stays p.1)
                      (λ _. Stays-pure n)))))

  pub count-Stays : (criteria : Criteria) → Stays n (count self criteria)
  unfolding count
  count-Stays criteria =
      Stays-then n (lift (apply_criteria columns criteria [])) _
        (Stays-lift n (apply_criteria columns criteria []))
        (λ conditions.
          let read : Exec State Exn ℕ =
            alone self replica "count" database.scalar_one (select_count conditions) in
          run_read-Stays read
            (alone-Stays replica "count" database.scalar_one (select_count conditions)))
