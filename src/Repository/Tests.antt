-- ===== src/Repository/Tests.antt =====
-- Criteria and tenants on concrete inputs.
use krossdb.Errors.{Exn}
use krossdb.Adapter.Single.Reads.{Refuses}
use krossdb.Repository.Document.Accounts.{Accounts, Cancels, bulk_create-Accounts}
use krossdb.Common.{
  ℕ, String, Bool, true, false, none, some, List, Option, [], ◌∷◌, all, any, ◌==◌, ◌≡◌, refl, ok,
  raise, ◌⊎◌,
}
use krossdb.Common.Dict
use krossdb.Common.Dict.{lookup}
use krossdb.Repository.Criteria.{
  Criteria, Entity, text, num, one, gt, lt, eq, specification, normalize_criteria, attribute,
  value_eq,
}
use krossdb.Repository.Criteria.Mongo.{scalar, operators, criteria_to_query}
use krossdb.Repository.Criteria.Mongo.Exact.{
  Semantics, selects, clause_holds, criteria_to_query_exact,
}
use krossdb.Repository.Criteria.Qdrant
use krossdb.Repository.Criteria.Qdrant.{
  points_selector, criteria_to_filter, has_id, asked, selects_filter, criteria_to_filter_exact,
  points_selector_exact,
}
use krossdb.Repository.Slot.Keeping.{slot_keeps}
use krossdb.Repository.Slot.{slot}
use krossdb.Repository.Tenancy.{belongs, find, get_by_id}
use krossdb.Repository.Tenancy.Isolation.{
  Command, updated, deleted, bulk_deleted, session, session-isolated,
}
use krossdb.Resilience.Breaker.{init}
use krossdb.Resilience.Retry.Bounded.{bounded}
use krossdb.Config.Defaults.{connection_config}
use krossdb.Config.{mongodb}
use krossdb.Adapter.Single.{Node}
use krossdb.Repository.Document.{MongoDbRepository, bulk_create, mongodb_repository}
use krossdb.Repository.Document.OneDocument.{World, one_document, simple, one_document_behaves}
use krossdb.Repository.Document.Contract.{seen, document_promises, mongodb-isolated}
use krossdb.Repository.Tenancy.Reads.{reads_belong}

-- An entity of the tenant "b".
abbrev of_b : Entity
of_b = ("id", text "1") ∷ ("tenant_id", text "b") ∷ []

session-isolated_example :
    session slot slot_keeps refl "a"
      (deleted tt none ∷ updated tt (("x", num 1) ∷ []) none ∷ [])
      (some of_b)
    ≡ some of_b
unfolding attribute lookup value_eq
session-isolated_example =
    (session-isolated slot slot_keeps refl "a"
        (deleted tt none ∷ updated tt (("x", num 1) ∷ []) none ∷ []) (some of_b) tt of_b refl).0
      refl

reads_belong_example : belongs "b" of_b ≡ true
unfolding find get_by_id attribute lookup value_eq normalize_criteria
reads_belong_example =
    (reads_belong slot slot_keeps refl "b" (specification []) 50 0 [] (some of_b) tt).1

-- A reading under which a dict of operators says nothing.
abbrev lenient : Semantics ℕ
lenient = record {
  holds = λ d f c. elim c [ scalar v ↦ false | operators xs ↦ true ];
  holds-merge = λ d f xs ys h. refl;
}

abbrev between : Criteria
between = specification (
    record { field = "age"; operator = gt; value = one (num 3) }
    ∷ record { field = "age"; operator = lt; value = one (num 9) }
    ∷ record { field = "age"; operator = eq; value = one (num 5) }
    ∷ [])

criteria_to_query_exact_example :
    selects lenient 0 (criteria_to_query between)
    ≡ all (clause_holds lenient 0) (normalize_criteria between)
criteria_to_query_exact_example = criteria_to_query_exact lenient 0 between

-- Points are their ids, and no other condition holds.
abbrev by_id : String → Qdrant.Condition → Bool
by_id p (has_id is) = any (λ i. i == p) is
by_id p _ = false

criteria_to_filter_exact_example :
    selects_filter by_id "p" (criteria_to_filter between)
    ≡ all (asked by_id "p") (normalize_criteria between)
criteria_to_filter_exact_example = criteria_to_filter_exact by_id "p" between

-- A connected repository over the collection.
abbrev node : Option Entity → Node World
node w = record {
  config = connection_config "db" mongodb [];
  breaker = init;
  client = true;
  database = true;
  connected = true;
  world = w;
}

abbrev users : MongoDbRepository World
users = record {
  clock = λ w. 0;
  registry = [];
  collection = one_document;
  collection_name = "users";
  id_field = "id";
  validate = λ e. ok tt;
  tenacity = λ A. bounded;
}

-- What the tenant "a" asks for.
abbrev asked_by_a : List (Command String)
asked_by_a =
    deleted "1" none ∷ updated "1" (("x", num 1) ∷ []) none ∷ bulk_deleted ("1" ∷ []) none ∷ []

mongodb-isolated_example :
    seen users simple one_document_behaves
      (session
        (mongodb_repository users)
        (document_promises users simple one_document_behaves)
        refl
        "a"
        asked_by_a
        (node (some of_b)))
      "1"
    ≡ some of_b
unfolding attribute lookup value_eq Dict.delete
mongodb-isolated_example =
    (mongodb-isolated users simple one_document_behaves "a" asked_by_a (node (some of_b)) "1" of_b
        refl).0
      refl

bulk_create-Accounts_example :
    let out = bulk_create users (of_b ∷ of_b ∷ []) (node none) in
    ((e : Exn) × (out.0 ≡ raise e) × Refuses users.clock true (node none) e × (out.1.world ≡ none))
    ⊎ Accounts (of_b ∷ of_b ∷ []) (Cancels users (of_b ∷ of_b ∷ [])) out.0
bulk_create-Accounts_example = bulk_create-Accounts users (of_b ∷ of_b ∷ []) (node none)
