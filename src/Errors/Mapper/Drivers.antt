-- ===== src/Errors/Mapper/Drivers.antt =====
-- The optional mappers of core/exception_mapper.py and the one of cache/redis_cache.py.
use krossdb.Common.{
  ℕ, String, Bool, false, Option, none, some, List, [], ◌∷◌, Result, ok, ◌||◌, nat_eq, any,
  if◌then◌else◌,
}
use krossdb.Common.Text.{codes, lower, contains}
use krossdb.Errors.{
  Kind, KrossDbError, RawException, RawClass, query_error, connection_error,
  connection_timeout_error, duplicate_record_error, integrity_violation_error,
  deadlock_detected_error, authentication_error, authorization_error, record_not_found_error,
  cache_error, new,
}
use krossdb.Errors.Mapper.{Mapper, Registry, register_mapper}

-- `return Kind(text)`
abbrev found : Kind → String → Result Unit (Option KrossDbError)
found k text = ok (some (record (new k) { message = text }))

abbrev declined : Result Unit (Option KrossDbError)
declined = ok none

abbrev is_one_of : List RawClass → RawException → Bool
is_one_of cs e = any e.instance_of cs

unfoldable pub asyncpg_mapper : Mapper
asyncpg_mapper e =
    if e.instance_of RawClass.asyncpg_unique_violation
    then found duplicate_record_error e.text
    else if is_one_of
        (RawClass.asyncpg_foreign_key_violation ∷ RawClass.asyncpg_check_violation ∷ []) e
    then found integrity_violation_error e.text
    else if e.instance_of RawClass.asyncpg_deadlock_detected
    then found deadlock_detected_error e.text
    else if is_one_of
        (RawClass.asyncpg_invalid_password ∷ RawClass.asyncpg_invalid_authorization ∷ []) e
    then found authentication_error e.text
    else if is_one_of
        (RawClass.asyncpg_too_many_connections ∷ RawClass.asyncpg_cannot_connect_now ∷ []) e
    then found connection_error e.text
    else if e.instance_of RawClass.asyncpg_postgres_error
    then found query_error e.text
    else declined

abbrev code_in : Option ℕ → List ℕ → Bool
code_in none ns = false
code_in (some c) ns = any (nat_eq c) ns

unfoldable pub pymongo_mapper : Mapper
pymongo_mapper e =
    if e.instance_of RawClass.pymongo_duplicate_key
    then found duplicate_record_error e.text
    else if is_one_of
        (RawClass.pymongo_server_selection_timeout ∷ RawClass.pymongo_network_timeout ∷ []) e
    then found connection_timeout_error e.text
    else if e.instance_of RawClass.pymongo_connection_failure
    then found connection_error e.text
    else if e.instance_of RawClass.pymongo_operation_failure
    then (if code_in e.code (13 ∷ 18 ∷ [])
        then found authentication_error e.text
        else found query_error e.text)
    else if e.instance_of RawClass.pymongo_error
    then found query_error e.text
    else declined

unfoldable pub qdrant_mapper : Mapper
qdrant_mapper e =
    if e.instance_of RawClass.qdrant_unexpected_response
    then (if code_in e.status_code (404 ∷ [])
        then found record_not_found_error "qdrant_point with id='unknown' was not found"
        else if code_in e.status_code (401 ∷ 403 ∷ [])
        then found authorization_error e.text
        else if code_in e.status_code (409 ∷ [])
        then found duplicate_record_error e.text
        else found query_error e.text)
    else if e.instance_of RawClass.qdrant_response_handling
    then found connection_error e.text
    else declined

-- `str(error.orig) if getattr(error, "orig", None) else str(error)`
orig_text : RawException → Option String → String
orig_text e none = e.text
orig_text e (some t) = t

says_duplicate : String → Bool
unfolding lower contains
says_duplicate msg =
    contains (codes "unique") (lower (codes msg))
    || contains (codes "duplicate") (lower (codes msg))

unfoldable pub sqlalchemy_mapper : Mapper
unfolding orig_text says_duplicate
sqlalchemy_mapper e =
    if e.instance_of RawClass.sqlalchemy_integrity
    then (if says_duplicate (orig_text e e.orig)
        then found duplicate_record_error (orig_text e e.orig)
        else found integrity_violation_error (orig_text e e.orig))
    else if e.instance_of RawClass.sqlalchemy_timeout
    then found connection_timeout_error e.text
    else if is_one_of (RawClass.sqlalchemy_interface ∷ RawClass.sqlalchemy_operational ∷ []) e
    then found connection_error e.text
    else declined

unfoldable pub redis_mapper : Mapper
redis_mapper e =
    if e.instance_of RawClass.redis_authentication
    then found authentication_error e.text
    else if e.instance_of RawClass.redis_timeout
    then found connection_timeout_error e.text
    else if e.instance_of RawClass.redis_connection
    then found connection_error e.text
    else if e.instance_of RawClass.redis_error
    then found cache_error e.text
    else declined

-- The drivers whose import may fail, and whether each is installed.
pub data Driver : Type 0 where
  sqlalchemy asyncpg pymongo qdrant : Driver

driver_name : Driver → String
driver_name sqlalchemy = "sqlalchemy"
driver_name asyncpg = "asyncpg"
driver_name pymongo = "pymongo"
driver_name qdrant = "qdrant"

driver_mapper : Driver → Mapper
driver_mapper sqlalchemy = sqlalchemy_mapper
driver_mapper asyncpg = asyncpg_mapper
driver_mapper pymongo = pymongo_mapper
driver_mapper qdrant = qdrant_mapper

register_driver : (Driver → Bool) → Driver → Registry → Registry
unfolding driver_name driver_mapper
register_driver installed d r =
    if installed d then register_mapper (driver_name d) (driver_mapper d) r else r

unfoldable pub bootstrap_default_mappers : (Driver → Bool) → Registry → Registry
unfolding register_driver
bootstrap_default_mappers installed r = register_driver installed qdrant (
    register_driver installed pymongo
      (register_driver installed asyncpg (register_driver installed sqlalchemy r)))
