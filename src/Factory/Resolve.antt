-- ===== src/Factory/Resolve.antt =====
-- factory/db_factory.py: the registry of adapter classes, and the lookup that imports an adapter's
-- module when it is first needed. An import may register classes, and is a parameter.
use krossdb.Common.{
  String, Bool, true, false, Option, none, some, ◌≡◌, refl, Result, ok, raise, Exec, if◌then◌else◌,
}
use krossdb.Config.{DatabaseKind, postgresql, mysql, sqlite, mongodb, qdrant}
use krossdb.Errors.{Exn, error, configuration_error}

-- `_ADAPTER_REGISTRY`; a class is its name.
abbrev pub Registry : Type 0
Registry = DatabaseKind → Option String

abbrev pub kind_eq : DatabaseKind → DatabaseKind → Bool
kind_eq postgresql postgresql = true
kind_eq mysql mysql = true
kind_eq sqlite sqlite = true
kind_eq mongodb mongodb = true
kind_eq qdrant qdrant = true
kind_eq _ _ = false

unfoldable pub register_adapter : DatabaseKind → String → Registry → Registry
register_adapter kind adapter_cls registry k =
    if kind_eq kind k then some adapter_cls else registry k

-- `module_by_kind`, which has every kind.
abbrev pub module_by_kind : DatabaseKind → String
module_by_kind postgresql = "krossdb.adapters.relational.postgres"
module_by_kind mysql = "krossdb.adapters.relational.mysql"
module_by_kind sqlite = "krossdb.adapters.relational.sqlite"
module_by_kind mongodb = "krossdb.adapters.document.mongodb"
module_by_kind qdrant = "krossdb.adapters.vector.qdrant"

-- A class that the import should have registered.
abbrev pub found : Option String → Result Exn String
found none = raise (error configuration_error)
found (some adapter_cls) = ok adapter_cls

found-ok : (o : Option String) (c : String) → found o ≡ ok c → o ≡ some c
found-ok none c h = cc
found-ok (some b) c h = cc

module _ (import_module : String → Exec Registry Exn Unit) (is_import_error : Exn → Bool) where
  abbrev pub imported : DatabaseKind → Result Exn Unit × Registry → Result Exn String × Registry
  imported kind (ok _, registry) = (found (registry kind), registry)
  imported kind (raise e, registry) =
      (raise (if is_import_error e then error configuration_error else e), registry)

  abbrev pub or_import : DatabaseKind → Option String → Exec Registry Exn String
  or_import kind (some adapter_cls) registry = (ok adapter_cls, registry)
  or_import kind none registry = imported kind (import_module (module_by_kind kind) registry)

  -- `_resolve_adapter_class`
  unfoldable pub resolve_adapter_class : DatabaseKind → Exec Registry Exn String
  resolve_adapter_class kind registry = or_import kind (registry kind) registry

  imported-found :
      (kind : DatabaseKind) (p : Result Exn Unit × Registry) (adapter_cls : String)
      → (imported kind p).0 ≡ ok adapter_cls
      → (imported kind p).1 kind ≡ some adapter_cls
  imported-found kind (ok _, registry) adapter_cls h = found-ok (registry kind) adapter_cls h
  imported-found kind (raise e, registry) adapter_cls h = cc

  or_import-found :
      (kind : DatabaseKind) (o : Option String) (registry : Registry) (adapter_cls : String)
      → registry kind ≡ o
      → (or_import kind o registry).0 ≡ ok adapter_cls
      → (or_import kind o registry).1 kind ≡ some adapter_cls
  or_import-found kind (some c) registry adapter_cls same h = cc
  or_import-found kind none registry adapter_cls same h =
      imported-found kind (import_module (module_by_kind kind) registry) adapter_cls h

  -- A class that was found stays found: resolving it again gives it at once and imports nothing.
  pub resolve_adapter_class-again :
      (kind : DatabaseKind) (registry : Registry) (adapter_cls : String)
      → (resolve_adapter_class kind registry).0 ≡ ok adapter_cls
      → resolve_adapter_class kind (resolve_adapter_class kind registry).1
        ≡ (ok adapter_cls, (resolve_adapter_class kind registry).1)
  unfolding resolve_adapter_class
  resolve_adapter_class-again kind registry adapter_cls h =
      rw (or_import-found kind (registry kind) registry adapter_cls refl h) refl
