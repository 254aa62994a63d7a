-- ===== src/Repository/Vector/Tests.antt =====
-- The vector repository over a collection of at most one point.
use krossdb.Common.{
  String, Bool, true, false, none, some, Option, List, [], ◌∷◌, any, ◌==◌, if◌then◌else◌, ok, raise,
  Exec, ◌≡◌, refl,
}
use krossdb.Common.Dict.{lookup, delete}
use krossdb.Config.Defaults.{connection_config}
use krossdb.Config.{qdrant}
use krossdb.Errors.{Exn, runtime_error}
use krossdb.Resilience.Breaker.{init}
use krossdb.Resilience.Retry.Bounded.{bounded}
use krossdb.Adapter.Single.{Node}
use krossdb.Repository.Criteria.{
  Entity, show, text, one, eq, FieldFilter, attribute, equals, value_eq,
}
use krossdb.Repository.Criteria.Qdrant.{Condition, Selector, match_value, has_id, selects}
use krossdb.Repository.Interface.{Changes}
use krossdb.Repository.Slot.{apply}
use krossdb.Repository.Point.{Point, Client, QdrantRepository}
use krossdb.Repository.Vector.Overwrites.{Upserts, create-Upserts}
use krossdb.Repository.Vector.{create, update}
use krossdb.Repository.Vector.Keeping.{Behaves}
use krossdb.Repository.Vector.Scoped.{scoped_writes_keep}

abbrev World : Type 0
World = Option Point

-- Conditions on the id and of equality are read; the others hold.
abbrev holds : Point → Condition → Bool
holds p (has_id is) = any (λ i. i == p.id) is
holds p (match_value field v) = equals (attribute p.payload field) v
holds p _ = true

abbrev points : List String → World → List Point
points is none = []
points is (some p) = if holds p (has_id is) then p ∷ [] else []

abbrev set_payload : Changes → Selector → Exec World Exn Unit
set_payload ch sel none = (ok tt, none)
set_payload ch sel (some p) = (
  ok tt,
  if selects holds p sel then some (record p { payload = apply ch p.payload }) else some p,
)

abbrev delete_points : Selector → Exec World Exn Unit
delete_points sel none = (ok tt, none)
delete_points sel (some p) = (ok tt, if selects holds p sel then none else some p)

abbrev upsert : List Point → Exec World Exn Unit
upsert [] w = (ok tt, w)
upsert (p ∷ []) w = (ok tt, some p)
upsert (p ∷ q ∷ ps) w = (raise runtime_error, w)

abbrev one_point : Client World
one_point = record {
  retrieve = λ is vectors w. (ok (points is w), w);
  upsert = upsert;
  set_payload = set_payload;
  delete_points = delete_points;
  scroll = λ filter limit offset w. (ok [], w);
  count_points = λ filter w. (ok 0, w);
  query_points = λ vector limit filter w. (ok [], w);
}

set_payload_keeps :
    (ch : Changes) (sel : Selector) (w : World) (p : Point)
    → w ≡ some p
    → selects holds p sel ≡ false
    → (set_payload ch sel w).1 ≡ some p
set_payload_keeps ch sel w p h f = rw (h, f) refl

delete_keeps :
    (sel : Selector) (w : World) (p : Point)
    → w ≡ some p
    → selects holds p sel ≡ false
    → (delete_points sel w).1 ≡ some p
delete_keeps sel w p h f = rw (h, f) refl

abbrev one_point_behaves : Behaves one_point holds
one_point_behaves = record {
  stored = λ w j. w;
  retrieve_reads = λ is vectors w j. refl;
  set_payload_keeps = λ ch sel w j p. set_payload_keeps ch sel w p;
  delete_keeps = λ sel w j p. delete_keeps sel w p;
}

abbrev documents : QdrantRepository World
documents = record {
  clock = λ w. 0;
  registry = [];
  client = one_point;
  collection_name = "documents";
  validate = λ e. ok tt;
  tenacity = λ A. bounded;
}

abbrev node : World → Node World
node w = record {
  config = connection_config "vectors" qdrant [];
  breaker = init;
  client = true;
  database = false;
  connected = true;
  world = w;
}

abbrev of_b : Point
of_b = record { id = "1"; vector = none; payload = ("tenant_id", text "b") ∷ [] }

abbrev of_tenant : String → FieldFilter
of_tenant t = record { field = "tenant_id"; operator = eq; value = one (text t) }

scoped_writes_keep_example :
    (update documents "1"
      (("title", text "x") ∷ [])
      (some (of_tenant "a" ∷ []))
      (node (some of_b))).1.world
    ≡ some of_b
unfolding attribute lookup value_eq
scoped_writes_keep_example =
    (scoped_writes_keep documents holds one_point_behaves (some (of_tenant "a" ∷ [])) "1" of_b
        (node (some of_b)) refl refl).0
      "1" (("title", text "x") ∷ [])

-- An entity of the tenant "a" with the id of a point of "b".
abbrev of_a : Entity
of_a = ("id", text "1") ∷ ("tenant_id", text "a") ∷ ("vector", text "[0]") ∷ []

create-Upserts_example :
    Upserts documents
      (record { id = "1"; vector = some (text "[0]"); payload = ("tenant_id", text "a") ∷ [] })
      of_a
      (node (some of_b))
      (create documents of_a (node (some of_b)))
unfolding lookup delete show
create-Upserts_example =
    create-Upserts documents of_a
      (record { id = "1"; vector = some (text "[0]"); payload = ("tenant_id", text "a") ∷ [] })
      (node (some of_b)) refl
