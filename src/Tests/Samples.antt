-- ===== src/Tests/Samples.antt =====
-- Sample rows, and an engine and a network to run the code with.
use flyrank_capstone_lead_ca.Dashboard.{Sorting}
use flyrank_capstone_lead_ca.Dashboard.Sorted.{OnlySorts}
use flyrank_capstone_lead_ca.Prelude.{
  ◌≡◌, refl, String, true, false, Option, none, some, List, [], ◌∷◌,
}
use mathlib.Core.List.{Permᴰ}
use mathlib.Core.Path.{subst}
use flyrank_capstone_lead_ca.Config.{defaults}
use flyrank_capstone_lead_ca.Errors.{Exception, integrity_error}
use flyrank_capstone_lead_ca.Models.{
  Widget, WidgetField, WidgetType, FieldType, Submission, OutboxEvent, unavailable, Tables,
}
use flyrank_capstone_lead_ca.Session.{
  Write, add_tenant, add_widget, set_widget, drop_widget, add_submission, add_event, set_event,
  add_spam, Engine,
}
use flyrank_capstone_lead_ca.Enrichment.{Network, no_response}
use flyrank_capstone_lead_ca.Schemas.{Value, SubmissionCreate}
use flyrank_capstone_lead_ca.Submissions.Create.{
  Stamp, Context, matching, new_event, new_submission,
}
use flyrank_capstone_lead_ca.Submissions.Create.Replay.{EnforcesKeys}

abbrev pub email_field : WidgetField
email_field = record {
  name = "email";
  label = "Email";
  type = FieldType.email;
  required = true;
  placeholder = none;
}

abbrev pub widget : Widget
widget = record {
  id = 7;
  tenant_id = 1;
  public_id = "wabcdefghi";
  name = "Newsletter";
  type = WidgetType.signup_form;
  title = "Join us";
  description = none;
  button_text = "Send";
  success_message = "Thanks!";
  fields = some (email_field ∷ []);
  display = some "{}";
  allowed_origins = some [];
  notify_webhook_url = none;
  notify_email = some "owner@shop.io";
  active = true;
  config_version = 3;
  created_at = 10;
  updated_at = 10;
}

abbrev pub others_widget : Widget
others_widget = record widget { id = 8; tenant_id = 2; public_id = "wzzzzzzzzz" }

abbrev pub tables : Tables
tables = record {
  tenants = [];
  widgets = widget ∷ others_widget ∷ [];
  submissions = [];
  outbox_events = [];
  spam_events = [];
}

abbrev pub refusal_of : List Submission → Option Exception
refusal_of [] = none
refusal_of (r ∷ rs) = some integrity_error

abbrev pub key_refusal : Tables → Submission → Option String → Option Exception
key_refusal t r none = none
key_refusal t r (some k) = refusal_of (matching r.widget_id k t.submissions)

-- An engine that refuses a second submission with the same key, and nothing else.
abbrev pub unique_refusal : Tables → Write → Option Exception
unique_refusal t (add_tenant r) = none
unique_refusal t (add_widget r) = none
unique_refusal t (set_widget r) = none
unique_refusal t (drop_widget id) = none
unique_refusal t (add_submission r) = key_refusal t r r.idempotency_key
unique_refusal t (add_event r) = none
unique_refusal t (set_event r) = none
unique_refusal t (add_spam r) = none

abbrev pub unique_engine : Engine
unique_engine = record { refusal = unique_refusal; null_refusal = λ t. integrity_error }

nothing_of_refusal : (rows : List Submission) → refusal_of rows ≡ none → rows ≡ []
nothing_of_refusal [] h = refl
nothing_of_refusal (r ∷ rs) h = absurd (cc)

pub unique_engine-EnforcesKeys : EnforcesKeys unique_engine
unique_engine-EnforcesKeys = record {
  unique = λ t r k accepted key.
      nothing_of_refusal (matching r.widget_id k t.submissions)
        (subst (λ o. key_refusal t r o ≡ none) key accepted);
}

-- A network without providers, on which every address is private.
abbrev pub offline : Network
offline = record { get = λ url. no_response; is_global = λ ip. some false }

abbrev pub stamp : Stamp
stamp = record { now = 50; submission_id = 100; email_id = 101; webhook_id = 102; spam_id = 103 }

abbrev pub lead_payload : SubmissionCreate
lead_payload = record {
  widget_id = "wabcdefghi";
  lead = ("email", Value.text " ann@mail.org ") ∷ [];
  honeypot = none;
  elapsed_ms = some 4_000;
}

abbrev pub keyed : String → Context
keyed key = record {
  ip = some "10.0.0.1";
  user_agent = none;
  referer = none;
  origin = none;
  idempotency_key = some key;
}

-- A widget with a webhook, and an event that waits for it.
abbrev pub hooked : Widget
hooked = record widget { notify_email = none; notify_webhook_url = some "https://shop.io/hook" }

abbrev pub webhook_event : OutboxEvent
webhook_event =
    new_event defaults stamp 102 "submission.webhook" hooked (
      new_submission stamp hooked (keyed "abc") (("email", "ann@mail.org") ∷ [])
        (unavailable, none))

-- A stored lead.
abbrev pub lead_row : Submission
lead_row =
    new_submission (record stamp { submission_id = 200 }) widget
      (record (keyed "") { idempotency_key = none }) (("email", "ann@mail.org") ∷ [])
      (unavailable, none)

-- Rows that are stored in order.
abbrev pub as_stored : Sorting
as_stored = record { newest_first = λ limit offset rows. rows; most_first = λ f rows. rows }

pub same_rows : {A : Type 0} (rows : List A) → Permᴰ rows rows
same_rows [] = Permᴰ.nil
same_rows (r ∷ rows) = Permᴰ.cons refl (same_rows rows)

pub as_stored-OnlySorts : OnlySorts as_stored
as_stored-OnlySorts = record {
  newest = λ limit offset rows. same_rows rows;
  most = λ f rows. same_rows rows;
}
