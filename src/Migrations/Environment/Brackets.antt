-- ===== src/Migrations/Environment/Brackets.antt =====
-- migrations/support.py: what `configure` calls, and what is closed after it.
use krossdb.Common.{
  String, Bool, true, false, List, [], ◌∷◌, none, some, ◌≡◌, refl, ap, Result, ok, raise,
  if◌then◌else◌, Bool-cases, Result-cases, inl, inr,
}
use krossdb.Config.{ConnectionConfig}
use krossdb.Errors.{Exn}
use krossdb.Migrations.Environment.{
  Call, set_main_option, configure_offline, engine_from_config, connect, close, configure_online,
  begin_transaction, exit_transaction, run_migrations, Alembic, or_empty, ended_by, raised, migrate,
  connected, run_offline, run_online, sync_url_of, configure,
}

abbrev pub is_run : Call → Bool
is_run run_migrations = true
is_run _ = false

-- The end of the block of the migrations.
abbrev pub last_call : Result Exn Unit → Call
last_call (ok _) = exit_transaction none
last_call (raise e) = exit_transaction (some e)

module _ (alembic : Alembic) (exists : String → Bool)
    (connections : String → Result Exn (List ConnectionConfig)) where
  -- The calls of one block of migrations that end in a result.
  abbrev pub transaction : Result Exn Unit → List Call
  transaction r = begin_transaction ∷ run_migrations ∷ last_call r ∷ []

  abbrev pub offline_calls : String → Result Exn Unit → List Call
  offline_calls url r = set_main_option "sqlalchemy.url" url ∷ configure_offline url ∷ transaction r

  abbrev pub online_calls : String → Result Exn Unit → List Call
  online_calls url r =
      set_main_option "sqlalchemy.url" url
      ∷ engine_from_config
          (or_empty (alembic.get_section (set_main_option "sqlalchemy.url" url ∷ [])))
      ∷ connect
      ∷ configure_online
      ∷ begin_transaction
      ∷ run_migrations
      ∷ last_call r
      ∷ close
      ∷ []

  exit-last_call : (r : Result Exn Unit) → exit_transaction (raised alembic r) ≡ last_call r
  exit-last_call (ok _) = refl
  exit-last_call (raise e) = refl

  ended-itself :
      (r : Result Exn Unit) → ended_by alembic (if is_run (last_call r) then r else ok tt) r ≡ r
  ended-itself (ok _) = refl
  ended-itself (raise e) = refl

  -- How `configure` ends, and what it has called, by the DSN and by the end of the migrations.
  abbrev pub outcome : Result Exn Unit → Result Exn String → Result Exn Unit × List Call
  outcome r (raise e) = (raise e, [])
  outcome r (ok url) =
      (r, if alembic.is_offline_mode then offline_calls url r else online_calls url r)

  -- With Alembic installed, and every call of it answered but for the migrations themselves, which
  -- end in `r`: without a DSN for the connection nothing is called; with one, the migrations run
  -- once, in one block of `begin_transaction`, which is left without an exception if they return
  -- and with theirs if they raise. Offline no connection is opened, and Alembic is given the DSN;
  -- online one connection is opened, and closed after the block. The call ends as they did.
  pub configure_calls :
      (config_path connection_name : String) (r : Result Exn Unit)
      → alembic.installed ≡ true
      → ((h : List Call) (c : Call) → alembic.respond h c ≡ (if is_run c then r else ok tt))
      → configure alembic exists connections connection_name config_path []
        ≡ outcome r (sync_url_of alembic exists connections config_path connection_name)
  unfolding configure run_offline run_online migrate connected
  configure_calls config_path connection_name r installed answers =
      elim (Result-cases (sync_url_of alembic exists connections config_path connection_name)) [
        | inr (e, missing) ↦ simp (installed, missing)
        | inl (url, found) ↦ elim (Bool-cases alembic.is_offline_mode) [
          | inl offline ↦
              simp (installed, found, answers, offline, exit-last_call)
                (ap (λ x. (x, offline_calls url r)) (ended-itself r))
          | inr online ↦
              simp (installed, found, answers, online, exit-last_call)
                (ap (λ x. (x, online_calls url r)) (ended-itself r))
        ]
      ]
