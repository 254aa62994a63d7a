-- ===== src/Repository/Document/Searches.antt =====
-- repositories/document_repository.py: what `find` returns.
use mathlib.Core.Path.{subst}
use krossdb.Common.{
  ◌>>=◌, pure, ℕ, true, List, [], ◌∷◌, all, All, ok, Exec, ◌≡◌, sym, ◌∙◌, inl, inr, arith,
  Result-cases,
}
use krossdb.Common.Dict.{delete}
use krossdb.Errors.{Exn}
use krossdb.Errors.Mapper.{translate_exceptions}
use krossdb.Adapter.Mongo.{acquire}
use krossdb.Adapter.Single.{Node, run_read}
use krossdb.Adapter.Single.Reads.{acquire_if-cases, run_read-Good}
use krossdb.Repository.Criteria.{Entity, Criteria, normalize_criteria}
use krossdb.Repository.Criteria.Mongo.{Query, criteria_to_query}
use krossdb.Repository.Criteria.Mongo.Exact.{Semantics, selects}
use krossdb.Repository.Interface.{SortSpec, Page}
use krossdb.Repository.Document.{MongoDbRepository, models, translated, read_page, find}
use krossdb.Repository.Document.Keeping.{Behaves, satisfies, found-satisfies}
use krossdb.Repository.Document.Updates.{on_error-ok}

module _ {W : Type 0} (self : MongoDbRepository W) (mongo : Semantics Entity)
    (behaves : Behaves self.collection mongo) where
  open self use {clock, registry, collection, tenacity}
  open behaves use {stored}

  -- What one attempt at a page returns was selected by the query.
  page_selected :
      (q : Query) (l o : ℕ) (sort : List SortSpec) (s : Node W) (p : ℕ × List Entity)
      → (read_page self q l o sort s).0 ≡ ok p
      → All (λ d. selects mongo d q ≡ true) p.1
  unfolding acquire translate_exceptions
  page_selected q l o sort s p h =
      let one_page : Exec W Exn (ℕ × List Entity) = collection.count_documents q >>= λ total.
      collection.cursor q o l sort >>= λ docs. pure (total, docs) in
      elim (acquire_if-cases clock registry s.database
        (("adapter", "mongodb") ∷ ("connection", s.config.name) ∷ [])
        (translated self "find" one_page) s) [
          | inl (e, r, _, same) ↦ absurd (ground arith)
          | inr (x, same, out, r) ↦
              called x.world (on_error-ok _ _ p (on_error-ok _ _ p (sym r ∙ h)))
        ]
    where
      called :
          (w : W)
          → ((collection.count_documents q >>= λ total.
                collection.cursor q o l sort >>= λ docs. pure (total, docs))
              w).0
            ≡ ok p
          → All (λ d. selects mongo d q ≡ true) p.1
      called w g = elim (Result-cases (collection.count_documents q w).0) [
        | inr (e, c) ↦ absurd (ground arith)
        | inl (n, c) ↦
            elim (Result-cases
              (collection.cursor q o l sort (collection.count_documents q w).1).0) [
                | inr (e, d) ↦ absurd (ground arith)
                | inl (ds, d) ↦
                    let same : ds ≡ p.1 = ground arith in
                    subst (λ es. All (λ d. selects mongo d q ≡ true) es) same
                      (behaves.cursor_selects q o l sort (collection.count_documents q w).1 ds d)
              ]
      ]

  -- The models of documents are the documents without the hidden key.
  models_satisfy :
      (Q : Entity → Type 0) (ds items : List Entity)
      → models self ds ≡ ok items
      → All (λ d. Q (delete "_id" d)) ds
      → All Q items
  unfolding models
  models_satisfy Q [] items h a =
      let none_left : [] ≡ items = ground arith in subst (λ es. All Q es) none_left tt
  models_satisfy Q (d ∷ ds) items h (a, rest) =
      elim (Result-cases (self.validate (delete "_id" d))) [
        | inr (e, v) ↦ absurd (ground arith)
        | inl (u, v) ↦ elim (Result-cases (models self ds)) [
          | inr (e, m) ↦ absurd (ground arith)
          | inl (xs, m) ↦
              let same : delete "_id" d ∷ xs ≡ items = ground arith in
              subst (λ es. All Q es) same (a, models_satisfy Q ds xs m rest)
        ]
      ]

  pub find_selects :
      (c : Criteria) (l o : ℕ) (sort : List SortSpec) (s : Node W) (page : Page)
      → (find self c l o sort s).0 ≡ ok page
      → All
          (λ e. all (satisfies collection mongo behaves e) (normalize_criteria c) ≡ true)
          page.items
  unfolding find
  find_selects c l o sort s page h =
      let q = criteria_to_query c in
      let read = read_page self q l o sort in
      let out = run_read (tenacity (ℕ × List Entity)) read s in
      elim (Result-cases out.0) [
        | inr (e, r) ↦ absurd (ground arith)
        | inl (p, r) ↦ elim (Result-cases (models self p.1)) [
          | inr (e, m) ↦ absurd (ground arith)
          | inl (items, m) ↦
              let same : items ≡ page.items = ground arith in
              subst
                (λ es.
                  All
                    (λ e. all (satisfies collection mongo behaves e) (normalize_criteria c) ≡ true)
                    es)
                same
                (models_satisfy _ p.1 items m (
                  found-satisfies collection mongo behaves c p.1 (
                    run_read-Good (tenacity (ℕ × List Entity)) read
                      (λ x. All (λ d. selects mongo d q ≡ true) x.1)
                      (λ t x. page_selected q l o sort t x) s p r)))
        ]
      ]
