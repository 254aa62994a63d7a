-- ===== src/Repository/Relational/Transactions.antt =====
-- repositories/relational_repository.py: the transactions of the writes.
use mathlib.Core.Path.{subst}
use krossdb.Common.{
  ◌>>=◌, pure, lift, ltb, continue-view, ℕ, String, Option, none, some, List, [], ◌∷◌, ◌++◌, Result,
  ok, raise, Exec, length, ◌≡◌, refl, sym, ap, ◌∙◌, ◌⊎◌, inl, inr, arith, append_assoc, append-nil,
  Result-cases,
}
use krossdb.Config.{RoutingRole, master}
use krossdb.Errors.{Exn}
use krossdb.Errors.Mapper.{Context, translate_exceptions}
use krossdb.Adapter.Relational.{State, Call, open_session, execute, select_key}
use krossdb.Adapter.Relational.Admission.{Refuses}
use krossdb.Adapter.Relational.Transactions.{ending, ending_translated, opened_at, acquire_unbound}
use krossdb.Repository.Criteria.{Entity, FieldFilter, Specification}
use krossdb.Repository.Criteria.Relational.{
  Condition, condition_for_filter, apply_filters, or_empty, apply_extra_criteria,
}
use krossdb.Repository.Table.{SqlAlchemyRepository, Statement, insert_values, delete_where}
use krossdb.Repository.Relational.{alone, create, delete_by_id, bulk_delete, id_is, id_in}

select_key-master :
    (s : State) (key : String) → (select_key master s).0 ≡ ok key → s.master_key ≡ some key
unfolding select_key
select_key-master s key h = ground arith

module _ (self : SqlAlchemyRepository) where
  open self use {registry, respond, database, context, table_name, columns}

  -- The calls that a statement alone in a session of its own adds to the history: none, because
  -- `acquire` refuses, or a new session on the node, the statement, and the end that its answer asks for.
  abbrev pub Transacts :
      {A : Type 0}
      → RoutingRole
      → (List Call → Statement → Result Exn A)
      → Statement
      → State
      → List Call
      → Type 0
  Transacts role answer stmt s after =
      ((e : Exn) × Refuses role s e × (after ≡ s.history))
      ⊎ ((key : String) × ((select_key role s).0 ≡ ok key)
          × (after
              ≡ s.history
                ++ open_session key
                  ∷ execute (length s.history) (database.compiled stmt)
                  ∷ ending (length s.history) (answer (s.history ++ open_session key ∷ []) stmt)))

  pub alone-Transacts :
      {A : Type 0} (role : RoutingRole) (op : String)
      (answer : List Call → Statement → Result Exn A) (stmt : Statement) (s : State)
      → s.active_session ≡ none
      → Transacts role answer stmt s (alone self role op answer stmt s).1.history
  unfolding translate_exceptions
  alone-Transacts {A = A} role op answer stmt s unbound =
      let names : Context = ("table", table_name) ∷ ("op", op) ∷ [] in
      let n = length s.history in
      let body : ℕ → Exec State Exn A = λ session t.
        translate_exceptions registry names
          (λ u. (
            answer u.history stmt,
            record u { history = u.history ++ execute session (database.compiled stmt) ∷ [] },
          ))
          t in
      elim (acquire_unbound registry respond context body role s unbound) [
        | inl (e, _, why, h) ↦ inl (e, why, h)
        | inr (key, x, (same, bound), chosen, _, (_, e)) ↦ inr (
          key,
          chosen,
          e
              ∙ ap (λ es. (body n (opened_at key x)).1.history ++ es)
                  (ending_translated registry respond context body n names
                    (answer (opened_at key x).history stmt))
              ∙ ap
                  (λ h.
                    ((h ++ open_session key ∷ []) ++ execute n (database.compiled stmt) ∷ [])
                    ++ ending n (answer (h ++ open_session key ∷ []) stmt))
                  same
              ∙ append_assoc (s.history ++ open_session key ∷ [])
                  (execute n (database.compiled stmt) ∷ []) _
              ∙ append_assoc s.history (open_session key ∷ []) _,
        )
      ]

  -- So does such a statement with what the method does with its answer.
  then-Transacts :
      {A B : Type 0} (role : RoutingRole) (op : String)
      (answer : List Call → Statement → Result Exn A) (stmt : Statement) (f : A → Exec State Exn B)
      (s : State)
      → ((a : A) (t : State) → (f a t).1.history ≡ t.history)
      → s.active_session ≡ none
      → Transacts role answer stmt s ((alone self role op answer stmt >>= f) s).1.history
  then-Transacts role op answer stmt f s quiet unbound =
      let (r, t) = alone self role op answer stmt s in
      subst (Transacts role answer stmt s)
        (sym (continue-view (λ u. u.history) r f t (λ a. quiet a t)))
        (alone-Transacts role op answer stmt s unbound)

  -- One condition for each filter, in order.
  abbrev pub AllTranslate : List FieldFilter → List Condition → Type 0
  AllTranslate [] [] = Unit
  AllTranslate [] (c ∷ cs) = ⊥
  AllTranslate (f ∷ fs) [] = ⊥
  AllTranslate (f ∷ fs) (c ∷ cs) = (condition_for_filter columns f ≡ ok c) × AllTranslate fs cs

  -- The id, or one of the filters, has no condition.
  abbrev pub Unreadable : Result Exn Condition → List FieldFilter → Exn → Type 0
  Unreadable where_id fs e =
      (where_id ≡ raise e)
      ⊎ ((before after_it : List FieldFilter) × (f : FieldFilter) × (fs ≡ before ++ f ∷ after_it)
          × (condition_for_filter columns f ≡ raise e))

  apply_filters-all :
      (fs : List FieldFilter) (stmt : List Condition)
      → ((e : Exn) × (apply_filters columns fs stmt ≡ raise e)
          × (before after_it : List FieldFilter) × (f : FieldFilter) × (fs ≡ before ++ f ∷ after_it)
          × (condition_for_filter columns f ≡ raise e))
        ⊎ ((cs : List Condition) × AllTranslate fs cs
            × (apply_filters columns fs stmt ≡ ok (stmt ++ cs)))
  unfolding apply_filters
  apply_filters-all [] stmt = inr ([], tt, ap ok (sym (append-nil stmt)))
  apply_filters-all (f ∷ fs) stmt = elim (Result-cases (condition_for_filter columns f)) [
    | inr (e, h) ↦ inl (e, rw h refl, [], fs, f, refl, h)
    | inl (c, h) ↦ elim (apply_filters-all fs (stmt ++ c ∷ [])) [
      | inl (e, raised, bs, as_, g, split, why) ↦
          inl (e, rw h raised, f ∷ bs, as_, g, ap (λ gs. f ∷ gs) split, why)
      | inr (cs, each, done) ↦
          inr (c ∷ cs, (h, each), rw h (done ∙ ap ok (append_assoc stmt (c ∷ []) cs)))
    ]
  ]

  -- What a deletion of the rows of one id, or of several, may do: nothing, if the id or a filter has
  -- no condition; and else one statement, with the condition on the id and then those of all the
  -- extra filters.
  abbrev pub Deletes : Result Exn Condition → Option Specification → State → List Call → Type 0
  Deletes where_id extra s after =
      ((e : Exn) × Unreadable where_id (or_empty extra) e × (after ≡ s.history))
      ⊎ ((c : Condition) × (where_id ≡ ok c)
          × (conditions : List Condition) × AllTranslate (or_empty extra) conditions
          × Transacts master database.rowcount (delete_where (c ∷ conditions)) s after)

  -- The method of a deletion: its conditions, and the statement alone.
  deletion :
      {B : Type 0} (where_id : Result Exn Condition) (extra : Option Specification) (op : String)
      (f : ℕ → Exec State Exn B) (s : State)
      → ((n : ℕ) (t : State) → (f n t).1.history ≡ t.history)
      → s.active_session ≡ none
      → Deletes where_id extra s
          ((lift where_id >>= λ c.
              lift (apply_extra_criteria columns extra (c ∷ [])) >>= λ conditions.
              alone self master op database.rowcount (delete_where conditions) >>= f)
            s).1.history
  unfolding apply_extra_criteria
  deletion (raise e) extra op f s quiet unbound = inl (e, inl refl, refl)
  deletion (ok c) extra op f s quiet unbound = elim (apply_filters-all (or_empty extra) (c ∷ [])) [
    | inl (e, a, bs, as_, g, split, why) ↦ inl (e, inr (bs, as_, g, split, why), rw a refl)
    | inr (conditions, each, a) ↦ inr (
      c,
      refl,
      conditions,
      each,
      rw a (
          then-Transacts master op database.rowcount (delete_where (c ∷ conditions)) f s quiet
            unbound),
    )
  ]

  -- Outside a Unit of Work, a creation and a deletion are each one statement in a transaction of
  -- its own on the master, or no call at all because `acquire` refuses. The statement is followed
  -- by a commit and the close of its session if the database takes it, by a rollback and the close
  -- if it raises, and by the close alone if it is cancelled. The one statement of a deletion has
  -- the condition on the id, or on the ids, and then one condition for each of the extra filters,
  -- in order; if one of these names no column of the table, nothing is called. A deletion of no
  -- ids calls nothing.
  pub writes_one_transaction :
      (s : State)
      → s.active_session ≡ none
      → ((x : Entity)
          → Transacts master database.rowcount (insert_values x) s (create self x s).1.history)
        × ((id : String) (extra : Option Specification)
            → Deletes (id_is self id) extra s (delete_by_id self id extra s).1.history)
        × ((i : String) (is : List String) (extra : Option Specification)
            → Deletes (id_in self (i ∷ is)) extra s (bulk_delete self (i ∷ is) extra s).1.history)
        × ((extra : Option Specification) → bulk_delete self [] extra s ≡ (ok 0, s))
  unfolding create delete_by_id bulk_delete apply_extra_criteria
  writes_one_transaction s unbound = (
    λ x.
        then-Transacts master "create" database.rowcount (insert_values x) (λ _. pure x) s
          (λ a t. refl) unbound,
    λ id extra.
        deletion (id_is self id) extra "delete" (λ matched. pure (ltb 0 matched)) s (λ n t. refl)
          unbound,
    λ i is extra. deletion (id_in self (i ∷ is)) extra "bulk_delete" pure s (λ n t. refl) unbound,
    λ extra. refl,
  )
