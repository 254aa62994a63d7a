-- ===== src/Events/Dispatcher.antt =====
-- events/dispatcher.py: handlers by event type, run in order of subscription. A type is known by
-- its name, so the types of an application are taken to have different names.
use krossdb.Common.{
  String, Option, none, some, List, [], ◌∷◌, ◌++◌, Result, ok, raise, Exec, ◌>>◌, ◌≡◌, refl, ap,
  continue, eq_refl, ◌≢◌, pure, ◌∙◌, ◌⊎◌, inl, inr, arith,
}
use krossdb.Common.Dict.{Dict, lookup, put, lookup-put}
use krossdb.Errors.{Exn, library, driver, cancelled}
use krossdb.Events.{DomainEvent}

abbrev pub Handler : Type 0 → Type 0
Handler S = DomainEvent → Exec S Exn Unit

abbrev pub Handlers : Type 0 → Type 0
Handlers S = Dict (List (Handler S))

abbrev or_empty {ℓ} : {A : Type ℓ} → Option (List A) → List A
or_empty none = []
or_empty (some xs) = xs

cancelled_or_not : (r : Result Exn Unit) → (r ≡ raise cancelled) ⊎ (r ≢ raise cancelled)
cancelled_or_not (ok _) = inr (λ e. absurd (ground arith))
cancelled_or_not (raise (library e)) = inr (λ h. absurd (ground arith))
cancelled_or_not (raise (driver e)) = inr (λ h. absurd (ground arith))
cancelled_or_not (raise cancelled) = inl refl

module _ {S : Type 0} where
  unfoldable pub subscribe : String → Handler S → Handlers S → Handlers S
  subscribe event_type handler d = put event_type (or_empty (lookup event_type d) ++ handler ∷ []) d

  -- `except Exception`: logged and swallowed.
  swallow : Result Exn Unit × S → Result Exn Unit × S
  swallow (ok _, s) = (ok tt, s)
  swallow (raise cancelled, s) = (raise cancelled, s)
  swallow (raise e, s) = (ok tt, s)

  unfoldable pub notify : List (Handler S) → DomainEvent → Exec S Exn Unit
  unfolding swallow
  notify [] event s = (ok tt, s)
  notify (h ∷ hs) event s =
      let (r, s') = swallow (h event s) in continue r (λ _. notify hs event) s'

  unfoldable pub publish : Handlers S → DomainEvent → Exec S Exn Unit
  unfolding notify
  publish d event = notify (or_empty (lookup event.event_type d)) event

  unfoldable pub publish_many : Handlers S → List DomainEvent → Exec S Exn Unit
  unfolding publish
  publish_many d [] = pure tt
  publish_many d (e ∷ es) = publish d e >> publish_many d es

  -- What the handlers of an event's type do to the state, one after the other.
  abbrev pub effects : List (Handler S) → DomainEvent → S → S
  effects [] event s = s
  effects (h ∷ hs) event s = effects hs event (h event s).1

  -- No handler, run in its turn, is cancelled.
  abbrev pub NoneCancels : List (Handler S) → DomainEvent → S → Type 0
  NoneCancels [] event s = Unit
  NoneCancels (h ∷ hs) event s =
      ((h event s).0 ≢ raise cancelled) × NoneCancels hs event (h event s).1

  -- How handlers are notified: each runs once, in order, whatever the ones before it raised, and
  -- nothing is raised; or one is cancelled, and it is the last that runs.
  abbrev pub Notifies : List (Handler S) → DomainEvent → S → Result Exn Unit × S → Type 0
  Notifies hs event s out =
      (NoneCancels hs event s × (out ≡ (ok tt, effects hs event s)))
      ⊎ ((done rest : List (Handler S)) × (h : Handler S) × (hs ≡ done ++ h ∷ rest)
          × NoneCancels done event s
          × ((h event (effects done event s)).0 ≡ raise cancelled)
          × (out ≡ (raise cancelled, (h event (effects done event s)).1)))

  swallowed : (p : Result Exn Unit × S) → p.0 ≢ raise cancelled → swallow p ≡ (ok tt, p.1)
  unfolding swallow
  swallowed (ok _, t) ne = refl
  swallowed (raise (library e), t) ne = refl
  swallowed (raise (driver e), t) ne = refl
  swallowed (raise cancelled, t) ne = absurd (ne refl)

  notify-Notifies :
      (hs : List (Handler S)) (event : DomainEvent) (s : S)
      → Notifies hs event s (notify hs event s)
  unfolding notify swallow
  notify-Notifies [] event s = inl (tt, refl)
  notify-Notifies (h ∷ hs) event s = elim (cancelled_or_not (h event s).0) [
    | inl c ↦ inr ([], hs, h, refl, tt, c, rw c refl)
    | inr ne ↦
        let here =
          ap (λ (p : Result Exn Unit × S). continue p.0 (λ _. notify hs event) p.1)
            (swallowed (h event s) ne) in
        elim (notify-Notifies hs event (h event s).1) [
          | inl (free, same) ↦ inl ((ne, free), here ∙ same)
          | inr (done, rest, g, split, free, c, same) ↦
              inr (h ∷ done, rest, g, ap (λ gs. h ∷ gs) split, (ne, free), c, here ∙ same)
        ]
  ]

  -- A publication runs the handlers subscribed to the event's type, in the order of their
  -- subscriptions, each once and whatever the ones before them raised, and raises none of what
  -- they raise; but if one is cancelled, the publication is cancelled there, and the later ones do
  -- not run. A handler that has just been subscribed is the last of them.
  pub publish_runs_all :
      (d : Handlers S) (event : DomainEvent) (h : Handler S) (s : S)
      → let hs = or_empty (lookup event.event_type d) in
        Notifies hs event s (publish d event s)
        × Notifies (hs ++ h ∷ []) event s (publish (subscribe event.event_type h d) event s)
  unfolding publish subscribe
  publish_runs_all d event h s = (
    notify-Notifies (or_empty (lookup event.event_type d)) event s,
    rw (lookup-put, eq_refl)
        (notify-Notifies (or_empty (lookup event.event_type d) ++ h ∷ []) event s),
  )
