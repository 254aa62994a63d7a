-- ===== src/Cli/MetadataPath.antt =====
-- `metadata_path.partition(":")` of cli/commands/schema.py.
use Prim.Native.Char.{code}
use krossdb.Common.{String, nat_eq, if◌then◌else◌}

-- The parts before and after the first colon; the second is empty without one.
unfoldable pub partition : String → String × String
partition String.[] = ("", "")
partition (String.◌∷◌ c s) =
    let (module_path, attr) = partition s in
    if nat_eq (code c) b':' then ("", s) else (String.◌∷◌ c module_path, attr)
