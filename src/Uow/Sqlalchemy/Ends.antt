-- ===== src/Uow/Sqlalchemy/Ends.antt =====
-- How a relational transaction ends.
use krossdb.Common.{ℕ, Option, none, some, [], ◌∷◌, ◌++◌, ◌≡◌, refl, append_assoc}
use krossdb.Errors.Mapper.{Registry}
use krossdb.Adapter.Relational.{State, Respond, commit, rollback, close}
use krossdb.Uow.Sqlalchemy.{SqlUow, sql_commit, sql_rollback}

-- A unit of work in its transaction: the session, and the binding before it.
abbrev pub in_transaction : State → ℕ → Option ℕ → SqlUow
in_transaction s n token = record { adapter = s; session = some n; bind_token = some token }

module _ (registry : Registry) (respond : Respond) (s : State) (n : ℕ) (token : Option ℕ) where
  -- Whether or not the commit and the close succeed, committing makes these two calls and puts
  -- the binding of the task back as it was before the unit began; so does rolling back, with the
  -- rollback in place of the commit.
  pub ends_unbound :
      let c = sql_commit registry respond (in_transaction s n token) in
      let r = sql_rollback registry respond (in_transaction s n token) in
      (c.1.adapter.history ≡ s.history ++ commit n ∷ close n ∷ [])
      × (c.1.adapter.active_session ≡ token)
      × (c.1.bind_token ≡ none)
      × (r.1.adapter.history ≡ s.history ++ rollback n ∷ close n ∷ [])
      × (r.1.adapter.active_session ≡ token)
      × (r.1.bind_token ≡ none)
  unfolding sql_commit sql_rollback
  ends_unbound = (append_assoc s.history _ _, refl, refl, append_assoc s.history _ _, refl, refl)
