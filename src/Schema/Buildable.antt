-- ===== src/Schema/Buildable.antt =====
-- schema/: a schema that was accepted, and the tables that SQLAlchemy makes of it.
use krossdb.Common.{
  String, Bool, true, false, not, ◌&&◌, ◌||◌, List, [], ◌∷◌, ◌++◌, map, all, length, nat_eq, eq_iff,
  Result, ok, ◌≡◌, refl, sym, ap, ◌∙◌, arith, append_assoc, append-nil,
}
use krossdb.Common.Dict.{lookup, has}
use krossdb.Common.Text.{◌+++◌}
use krossdb.Errors.{Exn}
use krossdb.Schema.Config.{
  ColumnSpec, ForeignKeySpec, IndexSpec, TableSpec, SchemaConfig, is_in, column_names, table_names,
  accepts_foreign_key, validate_references, accepts_table, validate_fk_targets_exist,
  accepts_schema,
}
use krossdb.Schema.Builder.{
  Column, Table, MetaData, build_column, build_constraint, build_index, described, build_tables,
  build_metadata,
}

abbrev pub all_different : List String → Bool
all_different [] = true
all_different (x ∷ xs) = not (is_in xs x) && all_different xs

-- A table that SQLAlchemy can make: its columns have different names, and its foreign keys and
-- indexes are over them.
abbrev pub is_consistent : Table → Bool
is_consistent t =
    all_different (map (λ c. c.name) t.columns)
    && all
        (λ fk.
          nat_eq (length fk.columns) (length fk.refcolumns)
          && all (is_in (map (λ (c : Column). c.name) t.columns)) fk.columns)
        t.constraints
    && all (λ idx. all (is_in (map (λ (c : Column). c.name) t.columns)) idx.columns) t.indexes

module _ {ℓ} {V : Type ℓ} where
  has-append : (k : String) (d e : List (String × V)) → has k (d ++ e) ≡ (has k d || has k e)
  unfolding has lookup
  has-append k [] e = refl
  has-append k ((i, w) ∷ d) e = ground (arith, has-append k d e)

all-weaken :
    {A : Type 0} (p q : A → Bool)
    → ((x : A) → p x ≡ true → q x ≡ true)
    → (xs : List A) → all p xs ≡ true
    → all q xs ≡ true
all-weaken p q imp [] h = refl
all-weaken p q imp (x ∷ xs) h = ground (arith, imp x, all-weaken p q imp xs)

names-build_column :
    (cs : List ColumnSpec) → map (λ c. c.name) (map build_column cs) ≡ map (λ c. c.name) cs
unfolding build_column
names-build_column [] = refl
names-build_column (c ∷ cs) = ap (λ ns. c.name ∷ ns) (names-build_column cs)

length-map : {A B : Type 0} (f : A → B) (xs : List A) → length (map f xs) ≡ length xs
length-map f [] = refl
length-map f (x ∷ xs) = omega (arith, length-map f xs)

constraints-IsConsistent :
    (names : List String) (fks : List ForeignKeySpec)
    → all accepts_foreign_key fks ≡ true
    → all (λ fk. all (is_in names) fk.columns) fks ≡ true
    → all
        (λ fk. nat_eq (length fk.columns) (length fk.refcolumns) && all (is_in names) fk.columns)
        (map build_constraint fks)
      ≡ true
unfolding accepts_foreign_key
constraints-IsConsistent names [] a b = refl
constraints-IsConsistent names (fk ∷ fks) a b =
    let same_length = length-map (λ c. fk.ref_table +++ "." +++ c) fk.ref_columns in
    ground (arith, constraints-IsConsistent names fks, same_length)

indexes-columns :
    (names : List String) (table : String) (idxs : List IndexSpec)
    → all (λ idx. all (is_in names) (build_index table idx).columns) idxs
      ≡ all (λ idx. all (is_in names) idx.columns) (map (build_index table) idxs)
indexes-columns names table [] = refl
indexes-columns names table (idx ∷ idxs) =
    ap (λ b. all (is_in names) idx.columns && b) (indexes-columns names table idxs)

described-IsConsistent :
    (t : TableSpec)
    → accepts_table t ≡ true
    → all_different (column_names t) ≡ true
    → is_consistent (described t) ≡ true
unfolding described accepts_table validate_references
described-IsConsistent t a d = rw (names-build_column t.columns) (
    ground (
      arith,
      constraints-IsConsistent (column_names t) t.foreign_keys (ground arith) (ground arith),
      indexes-columns (column_names t) t.name t.indexes,
    ))

-- None of the tables has a name that is in use.
abbrev pub all_new : List TableSpec → MetaData → Bool
all_new ts m = all (λ t. not (has t.name m)) ts

abbrev pub entries : List TableSpec → MetaData
entries = map (λ t. (t.name, described t))

still_new :
    (t : TableSpec) (ts : List TableSpec) (m : MetaData)
    → all_new ts m ≡ true
    → is_in (map (λ u. u.name) ts) t.name ≡ false
    → all_new ts (m ++ (t.name, described t) ∷ []) ≡ true
unfolding is_in has lookup
still_new t [] m n f = refl
still_new t (u ∷ us) m n f = ground (
  arith,
  still_new t us m,
  has-append u.name m ((t.name, described t) ∷ []),
  eq_iff t.name u.name,
  eq_iff u.name t.name,
)

has-entries :
    (k : String) (ts : List TableSpec) → has k (entries ts) ≡ is_in (map (λ t. t.name) ts) k
unfolding is_in has lookup
has-entries k [] = refl
has-entries k (t ∷ ts) = ground (arith, has-entries k ts)

module _ (table : Table → MetaData → Result Exn MetaData)
    (table_accepts : (t : Table) (m : MetaData)
      → has t.name m ≡ false
      → is_consistent t ≡ true
      → table t m ≡ ok (m ++ (t.name, t) ∷ [])) where
  build_tables-accepted :
      (ts : List TableSpec) (m : MetaData)
      → all accepts_table ts ≡ true
      → all_different (map (λ t. t.name) ts) ≡ true
      → all (λ t. all_different (column_names t)) ts ≡ true
      → all_new ts m ≡ true
      → build_tables table ts m ≡ ok (m ++ entries ts)
  unfolding build_tables described
  build_tables-accepted [] m a d c n = ap ok (sym (append-nil m))
  build_tables-accepted (t ∷ ts) m a d c n =
      let new : has t.name m ≡ false = ground arith in
      let consistent = described-IsConsistent t (ground arith) (ground arith) in
      rw (table_accepts (described t) m new consistent) (
        build_tables-accepted ts (m ++ (t.name, described t) ∷ []) (ground arith) (ground arith)
          (ground arith) (still_new t ts m (ground arith) (ground arith))
        ∙ ap ok (append_assoc m ((t.name, described t) ∷ []) (entries ts)))

  -- A schema that the validators accept, whose tables have different names, none of them in the
  -- metadata yet, and whose tables each have columns with different names, builds: the metadata
  -- then has, after what it had before, one table for each table of the schema, in their order,
  -- and every foreign key of the schema refers to a table of the metadata.
  pub build_metadata-accepted :
      (s : SchemaConfig) (m : MetaData)
      → accepts_schema s ≡ true
      → all_different (table_names s) ≡ true
      → all (λ t. all_different (column_names t)) s.tables ≡ true
      → all_new s.tables m ≡ true
      → (build_metadata table s m ≡ ok (m ++ entries s.tables))
        × (all (λ t. all (λ fk. has fk.ref_table (m ++ entries s.tables)) t.foreign_keys) s.tables
            ≡ true)
  unfolding build_metadata accepts_schema validate_fk_targets_exist
  build_metadata-accepted s m a d c n = (
    build_tables-accepted s.tables m (ground arith) d c n,
    all-weaken _ _ targets_found s.tables (ground arith),
  )
    where
      found :
          (name : String)
          → is_in (table_names s) name ≡ true
          → has name (m ++ entries s.tables) ≡ true
      found name h =
          has-append name m (entries s.tables) ∙ ground (arith, has-entries name s.tables)

      targets_found :
          (t : TableSpec)
          → all (λ fk. is_in (table_names s) fk.ref_table) t.foreign_keys ≡ true
          → all (λ fk. has fk.ref_table (m ++ entries s.tables)) t.foreign_keys ≡ true
      targets_found t = all-weaken _ _ (λ fk. found fk.ref_table) t.foreign_keys
