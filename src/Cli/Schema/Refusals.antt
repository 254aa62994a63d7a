-- ===== src/Cli/Schema/Refusals.antt =====
-- cli/commands/schema.py: what `create` leaves when it exits by itself.
use krossdb.Common.{
  ℕ, String, Option, none, some, ◌≡◌, refl, Result, ok, raise, Exec, ◌==◌, is_some, Bool-cases, inl,
  inr, continue, and_then, [],
}
use krossdb.Config.{DatabaseKind}
use krossdb.Config.Files.{ConfigFiles, load_connections}
use krossdb.Errors.{Exn}
use krossdb.Factory.{Respond}
use krossdb.Schema.Config.{Files, load_schema_config}
use krossdb.Schema.Builder.{Table, MetaData, build_metadata}
use krossdb.Cli.{Command, Stop, exit, or_crash}
use krossdb.Cli.Connected.{Connected, in_factory}
use krossdb.Cli.MetadataPath.{partition}
use krossdb.Cli.Schema.{
  Adapters, Options, text_given, bool_eq, create_all, create_tables, create_from, import_metadata,
  create,
}

module _ {S Item Raw : Type 0} (respond : Respond) (resolve : DatabaseKind → Result Exn Unit)
    (adapters : Adapters S) (files : ConfigFiles Item) (schemas : Files Raw)
    (repr : String → String) (imported : String → String → Result Exn MetaData)
    (table : Table → MetaData → Result Exn MetaData) where
  -- What exits by itself has not touched the connections.
  abbrev Untouched : Command (Connected S) → Result Stop Unit × Command (Connected S) → Type 0
  Untouched s out = (n : ℕ) → out.0 ≡ raise (exit n) → out.1.own ≡ s.own

  -- A call that may only crash, and what follows it.
  after_crash :
      {A : Type 0} (r : Result Exn A) (f : A → Exec (Command (Connected S)) Stop Unit)
      (s t : Command (Connected S))
      → ((a : A) → Untouched s (f a t))
      → Untouched s (continue (or_crash r) f t)
  after_crash (ok a) f s t h = h a
  after_crash (raise e) f s t h = λ n exits. cc

  create_all-Untouched :
      (o : Options) (m : MetaData) (s : Command (Connected S))
      → Untouched s (create_all respond resolve adapters files schemas repr imported table o m s)
  unfolding create_all
  create_all-Untouched o m s = after_crash (load_connections files o.config) _ s s (λ configs.
      let p =
        in_factory respond resolve configs
          (create_tables respond resolve adapters files schemas repr imported table
            o.connection_name m)
          s in
      after_crash p.0 _ s p.1 (λ a n exits. cc))

  import_metadata-Untouched :
      (o : Options) (parts : String × String) (s : Command (Connected S))
      → Untouched s
          (import_metadata respond resolve adapters files schemas repr imported table o parts s)
  import_metadata-Untouched o (module_path, attr) s = elim (Bool-cases (attr == "")) [
    | inl missing ↦ rw missing (λ n exits. refl)
    | inr given ↦
        rw given (after_crash (imported module_path attr) _ s s (λ m. create_all-Untouched o m s))
  ]

  create_from-Untouched :
      (o : Options) (schema_path metadata_path : Option String) (s : Command (Connected S))
      → Untouched s (
          create_from respond resolve adapters files schemas repr imported table o schema_path
            metadata_path s)
  create_from-Untouched o (some path) metadata_path s =
      after_crash
        (and_then (load_schema_config schemas path) (λ schema. build_metadata table schema [])) _ s
        s (λ m. create_all-Untouched o m s)
  create_from-Untouched o none none s = λ n exits. cc
  create_from-Untouched o none (some metadata_path) s =
      import_metadata-Untouched o (partition metadata_path) s

  create-Untouched :
      (o : Options) (s : Command (Connected S))
      → Untouched s (create respond resolve adapters files schemas repr imported table o s)
  unfolding create
  create-Untouched o s = elim (Bool-cases (files.exists o.config)) [
    | inr missing ↦ rw missing (λ n exits. refl)
    | inl there ↦ elim (Bool-cases (bool_eq (text_given o.metadata_path) (is_some o.schema_path))) [
      | inl refused ↦ rw (there, refused) (λ n exits. refl)
      | inr one ↦ rw (there, one) (create_from-Untouched o o.schema_path o.metadata_path s)
    ]
  ]

  -- When `create` exits by itself, whatever the code, no adapter has been connected or called.
  pub create-exit :
      (o : Options) (s : Command (Connected S)) (n : ℕ)
      → (create respond resolve adapters files schemas repr imported table o s).0 ≡ raise (exit n)
      → (create respond resolve adapters files schemas repr imported table o s).1.own ≡ s.own
  create-exit o s n exits = create-Untouched o s n exits
