-- ===== src/Errors/Mapper.antt =====
-- core/exception_mapper.py: the registry of mappers, the translation of an exception, and the
-- mappers of the drivers (that of Redis is in cache/redis_cache.py).
pub mod Drivers
pub mod Laws
use krossdb.Common.{
  String, Bool, true, false, not, Option, none, some, List, [], ◌∷◌, ◌++◌, filter, any, Result, ok,
  raise, Exec, ◌==◌, if◌then◌else◌,
}
use krossdb.Common.Dict.{put}
use krossdb.Errors.{
  Kind, KrossDbError, RawException, RawClass, Exn, library, driver, cancelled, query_error,
  timeout_error, connection_error, new,
}

-- A mapper may raise (`raise tt`), decline (`none`), or build an error.
abbrev pub Mapper : Type 0
Mapper = RawException → Result Unit (Option KrossDbError)

abbrev pub Registry : Type 0
Registry = List (String × Mapper)

abbrev pub Context : Type 0
Context = List (String × String)

unfoldable pub register_mapper : String → Mapper → Registry → Registry
register_mapper name mapper registry =
    filter (λ e. not (e.0 == name)) registry ++ (name, mapper) ∷ []

-- `d.update(e)` on a context dict.
unfoldable pub update : Context → Context → Context
unfolding put
update d [] = d
update d ((k, v) ∷ e) = update (put k v d) e

-- `a or b` on texts.
unfoldable pub or_text : String → String → String
or_text a b = if a == "" then b else a

or_cause : Option RawException → RawException → Option RawException
or_cause none e = some e
or_cause (some c) e = some c

fallback : RawException → Context → KrossDbError
unfolding or_text
fallback e context = record {
  kind = query_error;
  message = or_text e.text e.type_name;
  cause = some e;
  context = context;
}

-- The mapped error with the call's context and, if it has none, the cause.
finish : KrossDbError → RawException → Context → KrossDbError
unfolding or_cause update
finish mapped e context = record mapped {
  cause = or_cause mapped.cause e;
  context = update mapped.context context;
}

unfoldable pub map_exception : Registry → Context → RawException → KrossDbError
unfolding fallback finish
map_exception [] context e = fallback e context
map_exception ((_, mapper) ∷ rest) context e =
    let next = map_exception rest context e in
    elim (mapper e) [ ok (some mapped) ↦ finish mapped e context | ok none ↦ next | raise _ ↦ next ]

unfoldable pub translate : Registry → Context → Exn → Exn
unfolding map_exception
translate registry context (library e) = library e
translate registry context (driver e) = library (map_exception registry context e)
translate registry context cancelled = cancelled

unfoldable pub on_error {ℓ} : {A : Type ℓ} {E F : Type ℓ} → (E → F) → Result E A → Result F A
on_error f (ok a) = ok a
on_error f (raise e) = raise (f e)

-- `with translate_exceptions(**context): body`.
unfoldable pub translate_exceptions :
    {S A : Type 0} → Registry → Context → Exec S Exn A → Exec S Exn A
unfolding translate on_error
translate_exceptions registry context body s =
    let (r, s') = body s in (on_error (translate registry context) r, s')

-- `KrossDBError(str(error) or default)`.
text_or : Kind → RawException → String → KrossDbError
unfolding or_text
text_or k e default = record (new k) { message = or_text e.text default }

unfoldable pub generic_mapper : Mapper
unfolding text_or
generic_mapper e =
    if e.instance_of RawClass.builtin_timeout
    then ok (some (text_or timeout_error e "operation timed out"))
    else if e.instance_of RawClass.builtin_connection
    then ok (some (text_or connection_error e "connection failed"))
    else ok none
