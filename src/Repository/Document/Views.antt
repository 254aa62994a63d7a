-- ===== src/Repository/Document/Views.antt =====
-- repositories/document_repository.py: what reads leave of the stored entities.
use mathlib.Core.Path.{subst}
use krossdb.Common.{
  continue-view, ℕ, String, Option, none, some, List, [], ◌∷◌, ok, raise, Exec, nat_eq,
  if◌then◌else◌, ◌≡◌, refl, sym, ap, ◌∙◌, ◌⊎◌, inl, inr,
}
use krossdb.Errors.{Exn, error, record_not_found_error}
use krossdb.Errors.Mapper.{translate_exceptions}
use krossdb.Adapter.Mongo.{acquire}
use krossdb.Adapter.Single.{Node, run_read}
use krossdb.Adapter.Single.Reads.{acquire_if-cases, run_read-view}
use krossdb.Repository.Criteria.{Entity, Specification, Criteria}
use krossdb.Repository.Criteria.Mongo.{criteria_to_query}
use krossdb.Repository.Criteria.Mongo.Exact.{Semantics}
use krossdb.Repository.Interface.{SortSpec, Changes}
use krossdb.Repository.Document.{
  MongoDbRepository, models, translated, read_one, get_by_id, update, id_and_extra_query, read_page,
  find, read_count, count, or_assert,
}
use krossdb.Repository.Document.Keeping.{Behaves, hide}

module _ {W : Type 0} (self : MongoDbRepository W) (mongo : Semantics Entity)
    (behaves : Behaves self.collection mongo) where
  open self use {clock, registry, collection, tenacity}

  abbrev pub view : Node W → String → Option Entity
  view s j = hide (behaves.stored s.world j)

  -- A call under `acquire` is not made, or made once.
  pub acquired :
      {A : Type 0} (op : String) (call : Exec W Exn A) (s : Node W)
      → let out = acquire clock registry (translated self op call) s in
        (out.1.world ≡ s.world) ⊎ (out.1.world ≡ (call s.world).1)
  unfolding acquire translate_exceptions
  acquired op call s =
      elim (acquire_if-cases clock registry s.database
        (("adapter", "mongodb") ∷ ("connection", s.config.name) ∷ []) (translated self op call) s) [
          | inl (e, r, _, h) ↦ inl h
          | inr (x, h, out, r) ↦ inr (out ∙ ap (λ w. (call w).1) h)
        ]

  -- So what holds of the world before it and after the call holds after it.
  pub after_acquire :
      {A : Type 0} (op : String) (call : Exec W Exn A) (s : Node W) (P : W → Type 0)
      → P s.world
      → P (call s.world).1
      → P (acquire clock registry (translated self op call) s).1.world
  after_acquire op call s P before made = elim (acquired op call s) [
    | inl h ↦ subst P (sym h) before
    | inr h ↦ subst P (sym h) made
  ]

  acquire-view :
      {A : Type 0} (op : String) (call : Exec W Exn A) (j : String)
      → ((w : W) → behaves.stored (call w).1 j ≡ behaves.stored w j)
      → (s : Node W)
      → behaves.stored (acquire clock registry (translated self op call) s).1.world j
        ≡ behaves.stored s.world j
  acquire-view op call j reads s =
      after_acquire op call s (λ w. behaves.stored w j ≡ behaves.stored s.world j) refl
        (reads s.world)

  pub get-view : (id : String) (s : Node W) (j : String) → view (get_by_id self id s).1 j ≡ view s j
  unfolding get_by_id
  get-view id s j =
      let read = read_one self id in
      let out = run_read (tenacity (Option Entity)) read s in
      continue-view (λ x. view x j) out.0 _ out.1 (λ d. refl)
      ∙ ap hide (
          run_read-view (tenacity (Option Entity)) (λ w. behaves.stored w j) read
            (acquire-view "get_by_id" _ j (λ w. behaves.find_one_reads _ w j)) s)

  pub count-view : (c : Criteria) (s : Node W) (j : String) → view (count self c s).1 j ≡ view s j
  unfolding count
  count-view c s j = ap hide (
      run_read-view (tenacity ℕ) (λ w. behaves.stored w j) (read_count self (criteria_to_query c))
        (acquire-view "count" _ j (λ w. behaves.count_reads _ w j)) s)

  pub find-view :
      (c : Criteria) (l o : ℕ) (sort : List SortSpec) (s : Node W) (j : String)
      → view (find self c l o sort s).1 j ≡ view s j
  unfolding find
  find-view c l o sort s j =
      let q = criteria_to_query c in
      let read = read_page self q l o sort in
      let out = run_read (tenacity (ℕ × List Entity)) read s in
      continue-view (λ x. view x j) out.0 _ out.1
        (λ p. continue-view (λ x. view x j) (models self p.1) _ out.1 (λ items. refl))
      ∙ ap hide (
          run_read-view (tenacity (ℕ × List Entity)) (λ w. behaves.stored w j) read
            (acquire-view "find" _ j (λ w.
              let counted = collection.count_documents q w in
              continue-view (λ x. behaves.stored x j) counted.0 _ counted.1
                (λ n.
                  let docs = collection.cursor q o l sort counted.1 in
                  continue-view (λ x. behaves.stored x j) docs.0 _ docs.1 (λ ds. refl)
                  ∙ behaves.cursor_reads q o l sort counted.1 j)
              ∙ behaves.count_reads q w j))
            s)

  -- After its write, `update` only reads.
  pub update-view :
      (id : String) (ch : Changes) (extra : Option Specification) (s : Node W) (j : String)
      → view (update self id ch extra s).1 j
        ≡ view
            (acquire clock registry
              (translated self "update"
                (collection.update_one (id_and_extra_query self id extra) ch))
              s).1
            j
  unfolding update
  update-view id ch extra s j =
      let write =
        acquire clock registry
          (translated self "update" (collection.update_one (id_and_extra_query self id extra) ch))
          s in
      let V = λ (x : Node W). view x j in
      continue-view V write.0 _ write.1 (λ matched.
        continue-view V (if nat_eq matched 0 then raise (error record_not_found_error) else ok tt) _
          write.1
          (λ _.
            let got = get_by_id self id write.1 in
            continue-view V got.0 _ got.1 (asserted got.1) ∙ get-view id write.1 j))
    where
      asserted : (x : Node W) (o : Option Entity) → view (or_assert self o x).1 j ≡ view x j
      asserted x none = refl
      asserted x (some e) = refl
