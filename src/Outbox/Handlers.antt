-- ===== src/Outbox/Handlers.antt =====
-- app/outbox/handlers.py: what the side effects send. The SMTP and HTTP clients are parameters.
use flyrank_capstone_lead_ca.Prelude.{
  ℕ, String, append, ◌||◌, Option, none, some, List, [], ◌∷◌, ◌++◌, Dict, is_empty, ◌==◌,
  if◌then◌else◌,
}
use flyrank_capstone_lead_ca.Config.{Settings}
use flyrank_capstone_lead_ca.Python.{show}
use flyrank_capstone_lead_ca.Models.{GeoPayload, Payload}
use flyrank_capstone_lead_ca.Submissions.Create.{truthy}

-- How a handler ends: it returns a text, or raises. For an exception the text that the worker notes
-- is kept, `f"{type(exc).__name__}: {exc}"`.
pub data Delivery : Type 0 where
  completed : String → Delivery
  raised : String → Delivery

pub record EmailMessage : Type 0 where
  pub from : String
  pub recipient : String
  pub subject : String
  pub body : String

pub record WebhookCall : Type 0 where
  pub url : String
  pub event : String
  pub submission_id : ℕ
  pub widget_id : String
  pub payload : Payload
  pub idempotency_key : ℕ

-- The answer of the HTTP client: the status of a response that `raise_for_status` accepts, the text
-- of an `httpx.HTTPError`, or another exception.
pub data Posted : Type 0 where
  status : ℕ → Posted
  http_error : String → Posted
  post_crash : String → Posted

-- Sending a message: done, an `SMTPException` or `OSError`, or another exception, which building
-- the message may raise too.
pub data Mailed : Type 0 where
  sent : Mailed
  smtp_error : String → Mailed
  mail_crash : String → Mailed

pub record Outbound : Type 0 where
  pub send_message : EmailMessage → Mailed
  pub post : WebhookCall → Posted

abbrev pub side_effect_error : String → Delivery
side_effect_error message = raised (append "SideEffectError: " message)

abbrev pub forced : String
forced = "SIDE_EFFECT_FORCE_FAIL=true — deliberate side-effect failure"

abbrev pub or_mark : Option String → String
or_mark none = "?"
or_mark (some t) = if is_empty t then "?" else t

-- `lines`, and `"\n".join(lines)`
abbrev pub data_lines : Dict String → List String
data_lines [] = []
data_lines ((k, v) ∷ lead) = append k (append ": " v) ∷ data_lines lead

abbrev pub location_lines : GeoPayload → List String
location_lines geo =
    if truthy geo.city || truthy geo.country
    then append "location: " (append (or_mark geo.city) (append ", " (or_mark geo.country))) ∷ []
    else []

unfoldable pub join_lines : List String → String
join_lines [] = ""
join_lines (l ∷ []) = l
join_lines (l ∷ m ∷ ls) = append l (append "\n" (join_lines (m ∷ ls)))

abbrev pub message_body : Payload → String
message_body p =
    append "A new lead arrived.\n\n"
      (append (join_lines (data_lines p.lead ++ location_lines p.geo)) "\n")

abbrev pub message_of : Settings → Payload → String → EmailMessage
message_of s p to_address = record {
  from = s.email_from;
  recipient = to_address;
  subject = append "New submission on '" (append p.widget_name "'");
  body = message_body p;
}

abbrev pub mailed : String → Mailed → Delivery
mailed to_address sent = completed (append "sent via smtp to " to_address)
mailed to_address (smtp_error x) = side_effect_error (append "smtp delivery failed: " x)
mailed to_address (mail_crash x) = raised x

abbrev pub posted : String → Posted → Delivery
posted url (status code) =
    completed (append "webhook delivered to " (append url (append " (" (append (show code) ")"))))
posted url (http_error x) = side_effect_error (append "webhook delivery failed: " x)
posted url (post_crash x) = raised x

module _ (out : Outbound) (s : Settings) where
  abbrev pub email_to : Payload → Option String → Delivery
  email_to p none = completed "skipped: widget has no notify_email"
  email_to p (some to_address) =
      if is_empty to_address
      then completed "skipped: widget has no notify_email"
      else if s.email_mode == "console"
      then completed (append "logged to console for " to_address)
      else mailed to_address (out.send_message (message_of s p to_address))

  unfoldable pub send_confirmation_email : Payload → Delivery
  unfolding join_lines
  send_confirmation_email p =
      if s.side_effect_force_fail then side_effect_error forced else email_to p p.notify_email

  abbrev pub webhook_to : Payload → Option String → Delivery
  webhook_to p none = completed "skipped: widget has no notify_webhook_url"
  webhook_to p (some url) =
      if is_empty url
      then completed "skipped: widget has no notify_webhook_url"
      else posted url (
          out.post (record {
            url = url;
            event = "submission.created";
            submission_id = p.submission_id;
            widget_id = p.widget_public_id;
            payload = p;
            idempotency_key = p.submission_id;
          }))

  unfoldable pub send_webhook : Payload → Delivery
  send_webhook p =
      if s.side_effect_force_fail
      then side_effect_error forced
      else webhook_to p p.notify_webhook_url

  unfoldable pub handle : String → Payload → Delivery
  unfolding send_confirmation_email send_webhook
  handle event_type p =
      if event_type == "submission.email"
      then send_confirmation_email p
      else if event_type == "submission.webhook"
      then send_webhook p
      else side_effect_error (append "unknown event_type '" (append event_type "'"))
