-- ===== src/Tests/Draining.antt =====
-- The theorems on the outbox at concrete events.
use mathlib.Core.List.{Permᴰ}
use flyrank_capstone_lead_ca.Prelude.{
  ℕ, nat_eq, ◌+◌, where_, ◌≡◌, refl, false, none, some, List, [], ◌∷◌, ◌++◌, arith, min, length,
  leb, if◌then◌else◌,
}
use flyrank_capstone_lead_ca.Config.{defaults}
use flyrank_capstone_lead_ca.Models.{Submission, OutboxEvent, EventStatus, Tables}
use flyrank_capstone_lead_ca.Session.{opened}
use flyrank_capstone_lead_ca.Submissions.Create.{Context, new_event, create_submission}
use flyrank_capstone_lead_ca.Submissions.Create.Atomic.{row}
use flyrank_capstone_lead_ca.Outbox.Handlers.{
  Outbound, sent, http_error, status, handle, send_webhook,
}
use flyrank_capstone_lead_ca.Outbox.Worker.{Claiming, backoff_delay, process_due_events}
use flyrank_capstone_lead_ca.Outbox.Worker.Rounds.{Round, IsAlone, TakesOutcomes}
use flyrank_capstone_lead_ca.Outbox.Worker.Lifecycle.{Timely}
use flyrank_capstone_lead_ca.Outbox.Worker.Batches.{batches, batches_raising, batches_deliver}
use flyrank_capstone_lead_ca.Outbox.Worker.Batch.{OnlyOrders, Drains, process_due_events-Drains}
use flyrank_capstone_lead_ca.History.{History, start, submit, batch, IsSound, History-IsSound}
use flyrank_capstone_lead_ca.Tests.Samples.{
  tables, unique_engine, unique_engine-EnforcesKeys, offline, stamp, lead_payload, keyed,
  webhook_event, hooked,
}

-- A server that fails, and one that works.
abbrev down : Outbound
down = record { send_message = λ m. sent; post = λ c. http_error "500" }

abbrev up : Outbound
up = record { send_message = λ m. sent; post = λ c. status 200 }

abbrev in_order : Claiming
in_order = record { by_next_attempt = λ rs. rs; locked = λ r. false }

in_order-OnlyOrders : OnlyOrders in_order
in_order-OnlyOrders = record { only_selected = λ P rs h. h }

abbrev queued : Tables
queued = record tables { outbox_events = webhook_event ∷ [] }

-- Rounds at which the event is due: the delays are two seconds and four.
abbrev round : Outbound → ℕ → Round
round out now = record { now = now; clock = λ id. now + 1; out = out }

abbrev failures : List Round
failures = round down 60 ∷ round down 2_000_061 ∷ []

abbrev works : Round
works = round up 6_000_062

as_they_are : (rows : List OutboxEvent) → Permᴰ rows rows
as_they_are [] = Permᴰ.nil
as_they_are (r ∷ rows) = Permᴰ.cons refl (as_they_are rows)

in_order-IsAlone : IsAlone in_order
in_order-IsAlone = record { sorts = λ rows. as_they_are rows; unlocked = λ r. refl }

unique_engine-TakesOutcomes : TakesOutcomes unique_engine
unique_engine-TakesOutcomes t r = refl

batches_raising_example :
    (r' : OutboxEvent) × (where_
        (λ x. nat_eq x.id webhook_event.id)
        (batches defaults unique_engine in_order 20 failures queued).outbox_events
      ≡ r' ∷ [])
    × (r'.attempts ≡ min 5 (0 + length failures))
    × (r'.status
        ≡ (if leb 5 (0 + length failures) then EventStatus.failed else EventStatus.pending))
unfolding handle send_webhook backoff_delay Timely where_
batches_raising_example =
    batches_raising defaults unique_engine in_order 20 unique_engine-TakesOutcomes in_order-IsAlone
      failures queued webhook_event (((λ e. refl), tt), tt) (omega arith) refl refl (omega arith)
      (omega arith, λ h. (omega arith, λ h. tt)) ((_, refl), ((_, refl), tt))
      ((omega arith, tt), ((omega arith, tt), tt))

batches_deliver_example :
    (r' : OutboxEvent) × (where_
        (λ x. nat_eq x.id webhook_event.id)
        (batches defaults unique_engine in_order 20 (failures ++ works ∷ []) queued).outbox_events
      ≡ r' ∷ [])
    × (r'.status ≡ EventStatus.delivered)
    × (r'.attempts ≡ 0 + length failures + 1)
    × (r'.delivered_at ≡ some 6_000_063)
    × (r'.last_error ≡ none)
unfolding handle send_webhook backoff_delay Timely where_
batches_deliver_example =
    batches_deliver defaults unique_engine in_order 20 unique_engine-TakesOutcomes in_order-IsAlone
      failures [] works queued webhook_event (((λ e. refl), tt), tt) (omega arith) refl refl
      (omega arith) (omega arith, λ h. (omega arith, λ h. (omega arith, λ h. tt)))
      ((_, refl), ((_, refl), tt)) (_, refl)
      ((omega arith, tt), ((omega arith, tt), ((omega arith, tt), tt)))

process_due_events-Drains_example :
    Drains down defaults
      (λ r. 60)
      unique_engine
      in_order
      60
      10
      queued
      (process_due_events down defaults (λ r. 60) unique_engine in_order 60 10 (opened queued))
process_due_events-Drains_example =
    process_due_events-Drains down defaults (λ r. 60) unique_engine in_order 60 10 queued

-- A submission, and then a batch.
abbrev after_submission : Tables
after_submission =
    (create_submission unique_engine defaults stamp hooked offline (λ _. tables) lead_payload
      (keyed "abc") (opened tables)).1.saved

abbrev after_batch : Tables
after_batch =
    (process_due_events down defaults (λ r. 60) unique_engine in_order 60 10
      (opened after_submission)).1.saved

short_history : History unique_engine defaults in_order tables after_batch
short_history =
    batch down (λ r. 60) 60 10
      (submit tables stamp hooked offline lead_payload (keyed "abc") start start refl) refl

History-IsSound_example : IsSound after_batch
unfolding where_
History-IsSound_example =
    History-IsSound unique_engine defaults in_order in_order-OnlyOrders unique_engine-EnforcesKeys
      (omega arith) (record { accounted = tt; unique_keys = λ widget_id k. omega arith })
      short_history

-- A lead without a key, and the endpoint that answers the call for it.
abbrev no_key : Context
no_key = record (keyed "") { idempotency_key = none }

abbrev hooked_row : Submission
hooked_row =
    row unique_engine defaults stamp hooked offline (λ u. u) no_key tables
      (("email", "ann@mail.org") ∷ [])

abbrev hooked_event : OutboxEvent
hooked_event = new_event defaults stamp 102 "submission.webhook" hooked hooked_row

abbrev with_lead : Tables
with_lead = record tables { submissions = hooked_row ∷ []; outbox_events = hooked_event ∷ [] }
