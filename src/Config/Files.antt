-- ===== src/Config/Files.antt =====
-- How a connection-config file is read, by two commands of cli/commands/ and by
-- migrations/support.py. The file, the YAML parser and pydantic are parameters.
use krossdb.Common.{String, Bool, List, [], ◌∷◌, Result, ok, raise, and_then}
use krossdb.Errors.{Exn, type_error, attribute_error}
use krossdb.Config.{ConnectionConfig}

-- What the YAML parser makes of a file: a mapping, with the value of its key `connections` if it
-- has one, which is a list of items or no list, or anything else.
pub data Entry (Item : Type 0) : Type 0 where
  absent : Entry Item
  items : List Item → Entry Item
  no_list : Entry Item

pub data Document (Item : Type 0) : Type 0 where
  mapping : Entry Item → Document Item
  no_mapping : Document Item

pub record ConfigFiles (Item : Type 0) : Type 0 where
  pub exists : String → Bool
  pub read_text : String → Result Exn String
  pub safe_load : String → Result Exn (Document Item)
  pub model_validate : Item → Result Exn ConnectionConfig

-- `raw.get("connections", [])`, as far as it can be iterated over.
unfoldable pub raw_connections : {Item : Type 0} → Document Item → Result Exn (List Item)
raw_connections no_mapping = raise attribute_error
raw_connections (mapping absent) = ok []
raw_connections (mapping (items cs)) = ok cs
raw_connections (mapping no_list) = raise type_error

module _ {Item : Type 0} (files : ConfigFiles Item) where
  -- `[ConnectionConfig.model_validate(c) for c in ...]`
  unfoldable pub validate_all : List Item → Result Exn (List ConnectionConfig)
  validate_all [] = ok []
  validate_all (c ∷ cs) =
      and_then (files.model_validate c)
        (λ config. and_then (validate_all cs) (λ configs. ok (config ∷ configs)))

  unfoldable pub load_connections : String → Result Exn (List ConnectionConfig)
  unfolding validate_all raw_connections
  load_connections path = and_then (files.read_text path) (λ source.
      and_then (files.safe_load source) (λ raw. and_then (raw_connections raw) validate_all))
