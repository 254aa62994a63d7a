-- ===== src/Events/Tests.antt =====
-- A batch of the relay, and a publication, on concrete records.
use krossdb.Common.{
  ℕ, ◌+◌, String, Option, none, some, [], ◌∷◌, ◌≡◌, refl, ok, raise, ◌==◌, not, Bool,
}
use krossdb.Common.Dict.{lookup}
use krossdb.Errors.{cancelled, runtime_error}
use krossdb.Events.{OutboxRecord, DomainEvent}
use krossdb.Events.Outbox.{Shop}
use krossdb.Events.Relay.{RelayConfig}
use krossdb.Events.Relay.Batch.{Log}
use krossdb.Events.Dispatcher.{Handler, Handlers, Notifies, publish, subscribe, publish_runs_all}

abbrev created : String → Option ℕ → OutboxRecord
created id at = record {
  id = id;
  event_type = "Created";
  payload = id;
  created_at = 1;
  published_at = at;
  attempts = 0;
}

abbrev shop : Shop Log
shop = record {
  records = ("a", created "a" none) ∷ ("b", created "b" none) ∷ ("c", created "c" (some 3)) ∷ [];
  now = 9;
  world = [];
}

abbrev not_b : OutboxRecord → Bool
not_b r = not (r.id == "b")

abbrev settings : RelayConfig
settings = record { batch_size = 10; max_attempts = none }

abbrev event : DomainEvent
event = record { event_id = "e"; event_type = "Created"; occurred_at = 1; fields = "" }

-- Handlers that count; the first one raises.
abbrev handlers : Handlers ℕ
handlers = ("Created", (λ e n. (raise runtime_error, n + 1)) ∷ []) ∷ []

abbrev add_ten : Handler ℕ
add_ten e n = (ok tt, n + 10)

publish_runs_all_example :
    Notifies
      ((λ e n. (raise runtime_error, n + 1)) ∷ add_ten ∷ [])
      event
      0
      (publish (subscribe "Created" add_ten handlers) event 0)
unfolding lookup
publish_runs_all_example = (publish_runs_all handlers event add_ten 0).1

-- The second handler is not reached.
abbrev stopped : Handlers ℕ
stopped = ("Created", (λ e n. (raise cancelled, n + 1)) ∷ add_ten ∷ []) ∷ []

stops_at_cancelled : publish stopped event 0 ≡ (raise cancelled, 1)
unfolding publish lookup
stops_at_cancelled = refl
