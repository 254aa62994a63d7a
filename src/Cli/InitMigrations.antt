-- ===== src/Cli/InitMigrations.antt =====
-- cli/commands/schema.py: `init-migrations`.
pub mod Spares
use krossdb.Common.{
  String, Bool, not, ◌&&◌, false, true, List, [], ◌∷◌, filter, map, Exec, ◌>>◌, pure, ◌==◌,
  if◌then◌else◌,
}
use krossdb.Common.Text.{◌+++◌}
use krossdb.Cli.{
  Disk, Command, Stop, Write, green, red, write_text, mkdir, touch, secho, quit, write,
}
use krossdb.Cli.MetadataPath.{partition}
use krossdb.Cli.Templates.{script_py_mako, render_env_py, render_alembic_ini}

-- The options of the command.
pub record Options : Type 0 where
  pub connection : String
  pub metadata_path : String
  pub config : String
  pub directory : String
  pub force : Bool

-- `", ".join(names)`
unfoldable pub comma_separated : List String → String
comma_separated [] = ""
comma_separated (n ∷ []) = n
comma_separated (n ∷ ns) = n +++ ", " +++ comma_separated ns

-- `bool(existing)`
abbrev pub nonempty {ℓ} : {A : Type ℓ} → List A → Bool
nonempty [] = false
nonempty (_ ∷ _) = true

module _ (repr : String → String) (disk : Disk) where
  abbrev pub alembic_dir : Options → String
  alembic_dir o = disk.join o.directory "alembic"

  abbrev pub ini_path : Options → String
  ini_path o = disk.join o.directory "alembic.ini"

  abbrev pub versions_dir : Options → String
  versions_dir o = disk.join (alembic_dir o) "versions"

  -- The files and their contents, in order.
  unfoldable pub targets : Options → List (String × String)
  targets o =
      (ini_path o, render_alembic_ini repr "alembic" o.connection)
      ∷ (disk.join (alembic_dir o) "env.py", render_env_py o.metadata_path o.connection o.config)
      ∷ (disk.join (alembic_dir o) "script.py.mako", script_py_mako)
      ∷ []

  unfoldable pub existing : Options → List String
  unfolding targets
  existing o = filter disk.exists (map (λ t. t.0) (targets o))

  module _ {W : Type 0} where
    unfoldable pub write_targets : List (String × String) → Exec (Command W) Stop Unit
    write_targets [] = pure tt
    write_targets ((path, content) ∷ ts) = write disk (write_text path content) >> write_targets ts

    unfoldable pub scaffold_project : Options → Exec (Command W) Stop Unit
    unfolding targets write_targets
    scaffold_project o =
        write disk (mkdir (versions_dir o))
        >> write disk (touch (disk.join (versions_dir o) ".gitkeep"))
        >> write_targets (targets o)
        >> secho green (
            "Scaffolded Alembic project in "
            +++ disk.join o.directory "alembic"
            +++ " (+ "
            +++ ini_path o
            +++ ")")

    unfoldable pub init_migrations : Options → Exec (Command W) Stop Unit
    unfolding existing scaffold_project partition
    init_migrations o =
        if (partition o.metadata_path).1 == ""
        then secho red "--metadata must be in the form 'module.path:attribute_name'" >> quit 1
        else if nonempty (existing o) && not o.force
        then secho red
            ("Already exists (pass --force to overwrite): " +++ comma_separated (existing o))
          >> quit 1
        else scaffold_project o
