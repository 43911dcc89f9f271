-- ===== src/History/Delivered.antt =====
-- From app/routers/public.py's submission to app/outbox/worker.py's delivery: a lead that is stored
-- reaches the widget's webhook.
use flyrank_capstone_lead_ca.Prelude.{ℕ, ◌≡◌, String, List, [], where_, nat_eq}
use flyrank_capstone_lead_ca.Config.{Settings}
use flyrank_capstone_lead_ca.Models.{Widget, Submission, OutboxEvent, Tables}
use flyrank_capstone_lead_ca.Session.{Engine, Session}
use flyrank_capstone_lead_ca.Enrichment.{Network}
use flyrank_capstone_lead_ca.Submissions.Create.{Stamp, Context, effects, side_effect_payload}
use flyrank_capstone_lead_ca.Submissions.Create.Atomic.{with_submission}
use flyrank_capstone_lead_ca.Outbox.Handlers.{WebhookCall}

-- The events of an id.
abbrev events_of : ℕ → Tables → List OutboxEvent
events_of id t = where_ (λ x. nat_eq x.id id) t.outbox_events

module _ (e : Engine) (s : Settings) (st : Stamp) (widget : Widget) (net : Network)
    (others : Tables → Tables) (c : Context) (t : Tables) where
  -- What a new submission without a key leaves: the row and its events, on tables in which the id of
  -- its webhook event is new.
  abbrev Stored : Submission → Session → Type 0
  Stored r z =
      (u : Tables) × (events_of st.webhook_id u ≡ [])
      × (z.saved ≡ with_submission u r (effects s st widget r))

-- The call that the webhook of a widget gets for a submission.
abbrev pub call_for : Widget → Submission → String → WebhookCall
call_for widget r url = record {
  url = url;
  event = "submission.created";
  submission_id = r.id;
  widget_id = widget.public_id;
  payload = side_effect_payload widget r;
  idempotency_key = r.id;
}
