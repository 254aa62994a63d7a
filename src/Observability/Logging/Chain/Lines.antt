-- ===== src/Observability/Logging/Chain/Lines.antt =====
-- core/logging.py: what a call of a logger prints.
use krossdb.Common.{
  ℕ, String, Bool, true, false, any, Option, none, some, [], ◌∷◌, ◌++◌, ◌≡◌, refl, ltb, All, length,
  ok, arith, eq_iff, ◌==◌, Bool-cases, inl, inr, if◌then◌else◌,
}
use krossdb.Common.Dict.{Dict, put, has, keys}
use krossdb.Factory.{distinct}
use krossdb.Observability.Context.{Task}
use krossdb.Observability.Context.Scopes.{
  ambient_id, ambient, get_correlation_id_lem, ambient-keeps,
}
use krossdb.Observability.Logging.{Value, text}
use krossdb.Observability.Logging.Masking.{Named, Clean, mask_sensitive_data-Clean}
use krossdb.Observability.Logging.Chain.{
  Structlog, configure_logging, log, process_all, inject_context_into, with_tenant, setdefault,
}

-- A dict of Python whose nested dicts have texts as keys.
abbrev pub IsProper : Dict Value → Type 0
IsProper d = (distinct (keys d) ≡ true) × All (λ f. Named f.1) d

-- structlog's processors add fields whose values are texts, or fields bound by their caller.
pub record KeepsProper (structlog : Structlog) : Type 0 where
  pub merged : (d : Dict Value) → IsProper d → IsProper (structlog.merged d)
  pub leveled : (d : Dict Value) → IsProper d → IsProper (structlog.leveled d)
  pub stamped : (n : ℕ) (d : Dict Value) → IsProper d → IsProper (structlog.stamped n d)
  pub stacked : (d : Dict Value) → IsProper d → IsProper (structlog.stacked d)

any-put :
    (j k : String) (v : Value) (d : Dict Value)
    → (k == j) ≡ false
    → any (λ y. y == j) (keys (put k v d)) ≡ any (λ y. y == j) (keys d)
unfolding put
any-put j k v [] h = ground arith
any-put j k v ((i, w) ∷ d) h = ground (arith, eq_iff i k, eq_iff i j, eq_iff k j, any-put j k v d h)

distinct-put :
    (k : String) (v : Value) (d : Dict Value)
    → distinct (keys d) ≡ true
    → distinct (keys (put k v d)) ≡ true
unfolding put
distinct-put k v [] h = refl
distinct-put k v ((i, w) ∷ d) h =
    ground (arith, eq_iff i k, eq_iff k i, any-put i k v d, distinct-put k v d)

All-put :
    (k : String) (v : Value) (d : Dict Value)
    → Named v
    → All (λ f. Named f.1) d
    → All (λ f. Named f.1) (put k v d)
unfolding put
All-put k v [] n h = (n, tt)
All-put k v ((i, w) ∷ d) n h = elim (Bool-cases (i == k)) [
  | inl same ↦ rw same (n, h.1)
  | inr other_ ↦ rw other_ (h.0, All-put k v d n h.1)
]

put-IsProper : (k : String) (t : String) (d : Dict Value) → IsProper d → IsProper (put k (text t) d)
put-IsProper k t d h = (distinct-put k (text t) d h.0, All-put k (text t) d tt h.1)

setdefault-IsProper :
    (k : String) (t : String) (d : Dict Value) → IsProper d → IsProper (setdefault k (text t) d)
unfolding setdefault
setdefault-IsProper k t d h = elim (Bool-cases (has k d)) [
  | inl there ↦ rw there h
  | inr missing ↦ rw missing (put-IsProper k t d h)
]

with_tenant-IsProper :
    (t : Option String) (d : Dict Value) → IsProper d → IsProper (with_tenant t d)
with_tenant-IsProper none d h = h
with_tenant-IsProper (some t) d h = setdefault-IsProper "tenant_id" t d h

module _ {P : Type 0} (uuid4 : ℕ → String) (structlog : Structlog) where
  -- The event with the ids of the task.
  abbrev pub identified : Dict Value → Task P → Dict Value
  identified d s =
      with_tenant (ambient uuid4 s).tenant_id
        (setdefault "correlation_id" (text (ambient_id uuid4 s)) (structlog.merged d))

  -- So it reaches the masking, with what structlog's processors added.
  abbrev pub unmasked : Dict Value → Task P → Dict Value
  unmasked d s =
      structlog.stacked
        (structlog.stamped (length (ambient uuid4 s).lines) (structlog.leveled (identified d s)))

module _ {P : Type 0} (uuid4 : ℕ → String) (structlog : Structlog)
    (keeps : KeepsProper structlog) where
  unmasked-IsProper :
      (d : Dict Value) (s : Task P) → IsProper d → IsProper (unmasked uuid4 structlog d s)
  unmasked-IsProper d s h =
      let merged = keeps.merged d h in
      let identified =
        with_tenant-IsProper (ambient uuid4 s).tenant_id _
          (setdefault-IsProper "correlation_id" (ambient_id uuid4 s) _ merged) in
      keeps.stacked _ (keeps.stamped _ _ (keeps.leveled _ identified))

  -- What the whole chain makes of an event.
  process_all-Clean :
      (json_output : Bool) (level : ℕ) (kw : Dict Value) (s : Task P)
      → IsProper kw
      → (d : Dict Value) × All (Clean structlog.sub_email structlog.sub_card) d
        × (keys d ≡ keys (unmasked uuid4 structlog kw s))
        × (process_all uuid4 structlog (configure_logging json_output level).processors kw s
            ≡ (ok (structlog.formatted d), ambient uuid4 s))
  unfolding process_all configure_logging inject_context_into
  process_all-Clean json_output level kw s proper =
      let open_ = unmasked-IsProper kw s proper in
      let (d, masked, same, clean) =
        mask_sensitive_data-Clean structlog.sub_email structlog.sub_card
          (unmasked uuid4 structlog kw s) open_.0 open_.1 in
      (d, clean, same, rw (get_correlation_id_lem uuid4 s, masked) refl)

  pub log-Clean :
      (json_output : Bool) (level at : ℕ) (event : String) (kw : Dict Value) (s : Task P)
      → IsProper kw
      → (d : Dict Value) × All (Clean structlog.sub_email structlog.sub_card) d
        × (keys d ≡ keys (unmasked uuid4 structlog (put "event" (text event) kw) s))
        × (log uuid4 structlog (configure_logging json_output level) at event kw s ≡ (
          ok tt,
          if ltb at level then s else record (ambient uuid4 s) {
            lines =
                s.lines
                ++ structlog.render
                    (configure_logging json_output level).renderer
                    (structlog.formatted d)
                  ∷ [];
          },
        ))
  unfolding log configure_logging
  log-Clean json_output level at event kw s proper =
      let (d, clean, same, given) =
        process_all-Clean json_output level (put "event" (text event) kw) s
          (put-IsProper "event" event kw proper) in
      elim (Bool-cases (ltb at level)) [
        | inl below ↦ (d, clean, same, rw below refl)
        | inr above ↦ (d, clean, same, rw (above, given, (ambient-keeps uuid4 s).0) refl)
      ]
