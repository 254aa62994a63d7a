-- ===== src/Cli.antt =====
-- cli/: what the commands do to files and to the terminal. typer's options are the arguments of a
-- command, and `typer.Exit` is a way to stop.
pub mod Connected
pub mod Init
pub mod InitMigrations
pub mod MetadataPath
pub mod Templates
pub mod Health
pub mod Schema
mod Tests
use krossdb.Common.{
  ℕ, String, Bool, Option, none, some, List, [], ◌∷◌, ◌++◌, Result, ok, raise, Exec, throw, modify,
}
use krossdb.Errors.{Exn}

pub data Color : Type 0 where
  green yellow red plain : Color

pub record Line : Type 0 where
  pub color : Color
  pub message : String

pub data Write : Type 0 where
  write_text : String → String → Write
  mkdir touch : String → Write

-- The file system as a command finds it, with its answer to each write, given the ones before.
pub record Disk : Type 0 where
  pub exists : String → Bool
  pub respond : List Write → Write → Result Exn Unit
  -- `directory / name`
  pub join : String → String → String

-- What a command has printed and written, oldest first, and what it works on.
pub record Command (W : Type 0) : Type 0 where
  pub lines : List Line
  pub writes : List Write
  pub own : W

pub data Stop : Type 0 where
  exit : ℕ → Stop
  crashed : Exn → Stop

abbrev pub or_crash : {A : Type 0} → Result Exn A → Result Stop A
or_crash (ok a) = ok a
or_crash (raise e) = raise (crashed e)

module _ {W : Type 0} where
  -- `typer.secho(message, fg=color)`
  abbrev pub secho : {E : Type 0} → Color → String → Exec (Command W) E Unit
  secho color message =
      modify (λ s. record s { lines = s.lines ++ record { color = color; message = message } ∷ [] })

  abbrev pub quit : {A : Type 0} → ℕ → Exec (Command W) Stop A
  quit code = throw (exit code)

  abbrev pub write : Disk → Write → Exec (Command W) Stop Unit
  write disk w s = (or_crash (disk.respond s.writes w), record s { writes = s.writes ++ w ∷ [] })

  -- `krossdb version`, with the installed version if the package has metadata.
  unfoldable pub version : Option String → Exec (Command W) Stop Unit
  version none = secho plain "0.0.0+local"
  version (some installed) = secho plain installed
