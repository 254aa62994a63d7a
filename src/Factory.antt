-- ===== src/Factory.antt =====
-- factory/db_factory.py: `DatabaseFactory` over its adapters. An adapter is its connection's
-- name; `respond` answers each call to one, given the calls before it, and `resolve` is the
-- lookup of the adapter's class, which imports modules.
pub mod AllOrNone
pub mod Outcomes
pub mod Lookup
pub mod Resolve
mod Tests
use krossdb.Common.{
  String, Bool, true, false, not, ◌&&◌, List, [], ◌∷◌, ◌++◌, map, any, Result, ok, raise, Exec,
  continue, ◌>>◌, ◌>>=◌, pure, ◌==◌, if◌then◌else◌,
}
use krossdb.Common.Dict.{Dict, put}
use krossdb.Config.{DatabaseKind, ConnectionConfig}
use krossdb.Errors.{Exn, library, driver, cancelled, error, configuration_error}

pub data Action : Type 0 where
  connect disconnect : String → Action

pub record Factory : Type 0 where
  pub configs : List ConnectionConfig
  pub adapters : List String
  pub history : List Action

abbrev pub names : List ConnectionConfig → List String
names = map (λ c. c.name)

-- `len(names) == len(set(names))`
abbrev pub distinct : List String → Bool
distinct [] = true
distinct (x ∷ xs) = not (any (λ y. y == x) xs) && distinct xs

-- `DatabaseFactory(configs)`
unfoldable pub create : List ConnectionConfig → Result Exn Factory
create configs =
    if distinct (names configs)
    then ok (record { configs = configs; adapters = []; history = [] })
    else raise (error configuration_error)

-- `self._adapters[name] = adapter`: a new key goes last.
unfoldable pub add_adapter : String → Factory → Factory
add_adapter name s = record s {
  adapters = if any (λ j. j == name) s.adapters then s.adapters else s.adapters ++ name ∷ [];
}

-- `name in factory`
unfoldable pub contains : String → Factory → Bool
contains name s = any (λ j. j == name) s.adapters

-- `get`: both of its messages are those of a `ConfigurationError`.
unfoldable pub get : String → Factory → Result Exn String
unfolding contains
get name s = if contains name s then ok name else raise (error configuration_error)

abbrev pub Respond : Type 0
Respond = List Action → Action → Result Exn Unit

module _ (respond : Respond) where
  abbrev pub request : Action → Exec Factory Exn Unit
  request a s = (respond s.history a, record s { history = s.history ++ a ∷ [] })

  -- `except Exception`: logged and swallowed.
  abbrev pub quietly : Result Exn Unit → Result Exn Unit
  quietly (ok _) = ok tt
  quietly (raise cancelled) = raise cancelled
  quietly (raise _) = ok tt

  unfoldable pub disconnect_quietly : String → Exec Factory Exn Unit
  disconnect_quietly name s = let (r, s') = request (disconnect name) s in (quietly r, s')

  -- The loop of `disconnect_all` over the adapters.
  unfoldable pub disconnect_each : List String → Exec Factory Exn Unit
  unfolding disconnect_quietly
  disconnect_each [] s = (ok tt, record s { adapters = [] })
  disconnect_each (n ∷ ns) s = (disconnect_quietly n >> disconnect_each ns) s

  unfoldable pub disconnect_all : Exec Factory Exn Unit
  unfolding disconnect_each
  disconnect_all s = disconnect_each s.adapters s

  -- `except BaseException: clean up; raise`; what the clean-up raises replaces the exception.
  abbrev pub reraise : Exn → Result Exn Unit × Factory → Result Exn Unit × Factory
  reraise e (ok _, s) = (raise e, s)
  reraise e (raise x, s) = (raise x, s)

  -- How one adapter's `connect` ended.
  abbrev pub connected : String → Result Exn Unit × Factory → Result Exn Unit × Factory
  connected name (ok _, s) = (ok tt, add_adapter name s)
  connected name (raise e, s) = reraise e (disconnect_quietly name s)

  module _ (resolve : DatabaseKind → Result Exn Unit) where
    abbrev pub connect_resolved : String → Result Exn Unit → Exec Factory Exn Unit
    connect_resolved name (ok _) s = connected name (request (connect name) s)
    connect_resolved name (raise e) s = (raise e, s)

    unfoldable pub connect_each : List ConnectionConfig → Exec Factory Exn Unit
    unfolding disconnect_quietly
    connect_each [] s = (ok tt, s)
    connect_each (c ∷ cs) s = (connect_resolved c.name (resolve c.kind) >> connect_each cs) s

    abbrev pub or_release : Result Exn Unit × Factory → Result Exn Unit × Factory
    or_release (ok _, s) = (ok tt, s)
    or_release (raise e, s) = reraise e (disconnect_all s)

    unfoldable pub connect_all : Exec Factory Exn Unit
    unfolding connect_each disconnect_all
    connect_all s = or_release (connect_each s.configs s)

    -- `async with factory: body`: an exception of the release replaces what the body raised.
    abbrev pub released : {A : Type 0} → Result Exn Unit → Result Exn A → Result Exn A
    released (ok _) r = r
    released (raise e) r = raise e

    unfoldable pub with_factory : {A : Type 0} → Exec Factory Exn A → Exec Factory Exn A
    unfolding connect_all disconnect_all
    with_factory body = connect_all >> λ s.
        let (r, t) = body s in let (x, u) = disconnect_all t in (released x r, u)

-- The loop of `health_check_all`, for any check of an adapter.
unfoldable pub health_check_all :
    {S R : Type 0} → (String → Exec S Exn R) → List String → Dict R → Exec S Exn (Dict R)
health_check_all check [] results = pure results
health_check_all check (n ∷ ns) results =
    check n >>= λ r. health_check_all check ns (put n r results)
