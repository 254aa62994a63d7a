-- ===== src/Errors.antt =====
-- core/exceptions.py: the exception classes as data, their class statements as `base`, and an
-- exception object. Message texts are kept where the code reads them again, in the mapper.
pub mod Hierarchy
pub mod Mapper
mod Tests
use krossdb.Common.{
  ℕ, zero, suc, String, Bool, true, false, Option, none, some, List, [], ◌∷◌, any, nat_eq,
}

-- One constructor for each class of the module.
pub data Kind : Type 0 where
  krossdb_error : Kind
  connection_error connection_timeout_error circuit_breaker_open_error : Kind
  health_check_failed_error query_error integrity_violation_error record_not_found_error : Kind
  duplicate_record_error validation_error serialization_error transaction_error : Kind
  transaction_already_active_error no_active_transaction_error deadlock_detected_error : Kind
  authentication_error authorization_error configuration_error : Kind
  tenant_context_missing_error cross_tenant_access_error timeout_error : Kind
  unsupported_operation_error idempotency_conflict_error cache_error bulk_operation_error : Kind

-- The base class that a class statement names; the root's own base is `Exception`.
pub base : Kind → Option Kind
base krossdb_error = none
base connection_timeout_error = some connection_error
base integrity_violation_error = some query_error
base duplicate_record_error = some integrity_violation_error
base transaction_already_active_error = some transaction_error
base no_active_transaction_error = some transaction_error
base deadlock_detected_error = some transaction_error
base _ = some krossdb_error

tag : Kind → ℕ
tag krossdb_error = 0
tag connection_error = 1
tag connection_timeout_error = 2
tag circuit_breaker_open_error = 3
tag health_check_failed_error = 4
tag query_error = 5
tag integrity_violation_error = 6
tag record_not_found_error = 7
tag duplicate_record_error = 8
tag validation_error = 9
tag serialization_error = 10
tag transaction_error = 11
tag transaction_already_active_error = 12
tag no_active_transaction_error = 13
tag deadlock_detected_error = 14
tag authentication_error = 15
tag authorization_error = 16
tag configuration_error = 17
tag tenant_context_missing_error = 18
tag cross_tenant_access_error = 19
tag timeout_error = 20
tag unsupported_operation_error = 21
tag idempotency_conflict_error = 22
tag cache_error = 23
tag bulk_operation_error = 24

-- A class followed by its ancestors; the deepest chain has four classes.
pub mro : ℕ → Kind → List Kind
unfolding base
mro zero k = []
mro (suc n) k = k ∷ elim (base k) [ none ↦ [] | some b ↦ mro n b ]

-- `issubclass(k, c)`
unfoldable pub is_subclass : Kind → Kind → Bool
unfolding mro base tag
is_subclass k c = any (λ b. nat_eq (tag b) (tag c)) (mro 4 k)

-- `issubclass(k, (c1, ..., cn))`
unfoldable pub is_subclass_any : Kind → List Kind → Bool
unfolding is_subclass
is_subclass_any k cs = any (is_subclass k) cs

-- The classes outside this repository that its `isinstance` tests name.
pub data RawClass : Type 0 where
  builtin_timeout builtin_connection builtin_value builtin_assertion : RawClass
  asyncpg_unique_violation asyncpg_foreign_key_violation asyncpg_check_violation : RawClass
  asyncpg_deadlock_detected asyncpg_invalid_password asyncpg_invalid_authorization : RawClass
  asyncpg_too_many_connections asyncpg_cannot_connect_now asyncpg_postgres_error : RawClass
  pymongo_duplicate_key pymongo_server_selection_timeout pymongo_network_timeout : RawClass
  pymongo_connection_failure pymongo_operation_failure pymongo_error : RawClass
  qdrant_unexpected_response qdrant_response_handling : RawClass
  sqlalchemy_integrity sqlalchemy_timeout sqlalchemy_interface sqlalchemy_operational : RawClass
  redis_authentication redis_timeout redis_connection redis_error : RawClass

-- An exception that is not the library's: what `isinstance`, `str` and the attributes answer.
pub record RawException : Type 0 where
  pub instance_of : RawClass → Bool
  pub text : String
  pub type_name : String
  pub code : Option ℕ
  pub status_code : Option ℕ
  pub orig : Option String

pub record KrossDbError : Type 0 where
  pub kind : Kind
  pub message : String
  pub cause : Option RawException
  pub context : List (String × String)

-- `cancelled` is a `BaseException` that is no `Exception`.
pub data Exn : Type 0 where
  library : KrossDbError → Exn
  driver : RawException → Exn
  cancelled : Exn

-- `Kind("...")` where nothing reads the text again.
abbrev pub new : Kind → KrossDbError
new k = record { kind = k; message = ""; cause = none; context = [] }

abbrev pub error : Kind → Exn
error k = library (new k)

abbrev is_value : RawClass → Bool
is_value RawClass.builtin_value = true
is_value _ = false

abbrev is_assertion : RawClass → Bool
is_assertion RawClass.builtin_assertion = true
is_assertion _ = false

abbrev raw : (RawClass → Bool) → String → RawException
raw classes name = record {
  instance_of = classes;
  text = "";
  type_name = name;
  code = none;
  status_code = none;
  orig = none;
}

-- `ValueError("...")` and a failed `assert`.
abbrev pub value_error : Exn
value_error = driver (raw is_value "ValueError")

abbrev pub assertion_error : Exn
assertion_error = driver (raw is_assertion "AssertionError")

abbrev no_class : RawClass → Bool
no_class _ = false

-- A `KeyError`, a `NotImplementedError`, and any other error that no test names.
abbrev pub key_error : Exn
key_error = driver (raw no_class "KeyError")

abbrev pub not_implemented_error : Exn
not_implemented_error = driver (raw no_class "NotImplementedError")

abbrev pub runtime_error : Exn
runtime_error = driver (raw no_class "RuntimeError")

abbrev pub type_error : Exn
type_error = driver (raw no_class "TypeError")

abbrev pub attribute_error : Exn
attribute_error = driver (raw no_class "AttributeError")

-- `isinstance(e, kinds)` for classes of the library.
unfoldable pub isinstance : Exn → List Kind → Bool
unfolding is_subclass_any
isinstance (library e) cs = is_subclass_any e.kind cs
isinstance (driver _) cs = false
isinstance cancelled cs = false
