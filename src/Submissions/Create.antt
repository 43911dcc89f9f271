-- ===== src/Submissions/Create.antt =====
-- `create_submission`, `find_by_idempotency_key`, `record_spam` and `_side_effect_payload` of
-- app/services/submission_service.py.
pub mod Atomic
pub mod Replay
use flyrank_capstone_lead_ca.Prelude.{
  ℕ, String, Bool, true, false, not, ◌&&◌, Option, none, some, List, [], ◌∷◌, ◌++◌, Dict, where_,
  nat_eq, is_empty, ◌==◌, if◌then◌else◌,
}
use flyrank_capstone_lead_ca.Config.{Settings}
use flyrank_capstone_lead_ca.Errors.{
  Error, app, uncaught, Exception, index_error, value_error, type_error, integrity_error,
  data_error, multiple_results, Result, ok, err,
}
use flyrank_capstone_lead_ca.Models.{
  Widget, Submission, Payload, OutboxEvent, pending, SpamEvent, Tables, GeoStatus,
}
use flyrank_capstone_lead_ca.Session.{
  Write, add_submission, add_event, add_spam, Engine, Session, Action, pure, raise, lift, select,
  add, flush, commit, rollback, scalar_one_or_none, ◌>>=◌, ◌>>◌,
}
use flyrank_capstone_lead_ca.Enrichment.{GeoResult, Network, enrich_ip}
use flyrank_capstone_lead_ca.Schemas.{SubmissionCreate}
use flyrank_capstone_lead_ca.Submissions.Validate.{validate_against_widget}

-- What a call takes from the clock and from `uuid4()`.
pub record Stamp : Type 0 where
  pub now : ℕ
  pub submission_id : ℕ
  pub email_id : ℕ
  pub webhook_id : ℕ
  pub spam_id : ℕ

-- The request's context, as the router passes it on.
pub record Context : Type 0 where
  pub ip : Option String
  pub user_agent : Option String
  pub referer : Option String
  pub origin : Option String
  pub idempotency_key : Option String

-- The truth value of an optional text.
abbrev pub truthy : Option String → Bool
truthy none = false
truthy (some t) = not (is_empty t)

abbrev pub has_key : String → Option String → Bool
has_key key none = false
has_key key (some k) = k == key

-- The rows that the query of `find_by_idempotency_key` selects.
abbrev pub matching : ℕ → String → List Submission → List Submission
matching widget_id key = where_ (λ r. nat_eq r.widget_id widget_id && has_key key r.idempotency_key)

unfoldable pub find_by_idempotency_key : ℕ → Option String → Action (Option Submission)
find_by_idempotency_key widget_id none = pure none
find_by_idempotency_key widget_id (some key) = if is_empty key then pure none else do
  rows ← select (λ t. matching widget_id key t.submissions)
  lift (scalar_one_or_none rows)

unfoldable pub record_spam : Engine → Stamp → Widget → Option String → String → Action (Unit {0})
record_spam e st widget ip reason = do
  add (
      add_spam (record {
        id = st.spam_id;
        widget_id = some widget.id;
        tenant_id = some widget.tenant_id;
        reason = reason;
        ip = ip;
        created_at = st.now;
      }))
  commit e

abbrev pub geo_part : {A : Type 0} → (GeoResult → Option A) → Option GeoResult → Option A
geo_part f none = none
geo_part f (some geo) = f geo

-- The row that `create_submission` builds.
abbrev pub new_submission :
    Stamp → Widget → Context → Dict String → GeoStatus × Option GeoResult → Submission
new_submission st widget c cleaned (status, geo) = record {
  id = st.submission_id;
  widget_id = widget.id;
  tenant_id = widget.tenant_id;
  lead = cleaned;
  ip = c.ip;
  user_agent = c.user_agent;
  referer = c.referer;
  origin = c.origin;
  geo_status = status;
  geo_provider = geo_part (λ g. some g.provider) geo;
  country = geo_part (λ g. g.country) geo;
  country_code = geo_part (λ g. g.country_code) geo;
  region = geo_part (λ g. g.region) geo;
  city = geo_part (λ g. g.city) geo;
  idempotency_key = c.idempotency_key;
  created_at = st.now;
}

abbrev pub side_effect_payload : Widget → Submission → Payload
side_effect_payload widget r = record {
  submission_id = r.id;
  widget_public_id = widget.public_id;
  widget_name = widget.name;
  notify_email = widget.notify_email;
  notify_webhook_url = widget.notify_webhook_url;
  lead = r.lead;
  geo = record {
    status = r.geo_status;
    provider = r.geo_provider;
    country = r.country;
    country_code = r.country_code;
    region = r.region;
    city = r.city;
  };
  created_at = r.created_at;
}

abbrev pub new_event : Settings → Stamp → ℕ → String → Widget → Submission → OutboxEvent
new_event s st id event_type widget r = record {
  id = id;
  submission_id = some r.id;
  event_type = event_type;
  payload = side_effect_payload widget r;
  status = pending;
  attempts = 0;
  max_attempts = s.outbox_max_attempts;
  next_attempt_at = st.now;
  last_error = none;
  created_at = st.now;
  delivered_at = none;
}

-- The side effects that a stored row queues.
unfoldable pub effects : Settings → Stamp → Widget → Submission → List OutboxEvent
effects s st widget r =
    (if truthy widget.notify_email
      then new_event s st st.email_id "submission.email" widget r ∷ []
      else [])
    ++ (if truthy widget.notify_webhook_url
        then new_event s st st.webhook_id "submission.webhook" widget r ∷ []
        else [])

-- Several `db.add(…)` of events.
abbrev pub add_events : List OutboxEvent → Action (Unit {0})
add_events [] = pure tt
add_events (r ∷ rs) = add (add_event r) >> add_events rs

-- While this request waits for the network, other requests commit what they do.
abbrev pub wait : (Tables → Tables) → Action (Unit {0})
wait others s = (ok tt, record s { saved = others s.saved; seen = others s.seen })

abbrev pub found_or_raise : Option Submission → Action Submission
found_or_raise none = raise (uncaught integrity_error)
found_or_raise (some r) = pure r

-- The `except IntegrityError` block; any other exception goes on.
abbrev pub recover : ℕ → Option String → Error → Action Submission
recover widget_id key (uncaught integrity_error) = do
  rollback
  duplicate ← find_by_idempotency_key widget_id key
  found_or_raise duplicate
recover widget_id key x = raise x

-- `try: … except` around an action whose result is not used, and what comes after it.
abbrev pub resume :
    Result (Unit {0}) → Action Submission → (Error → Action Submission) → Action Submission
resume (ok _) rest handler = rest
resume (err x) rest handler = handler x

abbrev pub try_else :
    Action (Unit {0}) → Action Submission → (Error → Action Submission) → Action Submission
try_else m rest handler s = let (r, s') = m s in resume r rest handler s'

-- `if existing is not None: return existing`
abbrev pub existing_or : Option Submission → Action Submission → Action Submission
existing_or none m = m
existing_or (some r) m = pure r

module _ (e : Engine) (s : Settings) (st : Stamp) (widget : Widget) where
  unfoldable pub store : Option String → Submission → Action Submission
  unfolding effects
  store key r =
      add (add_submission r)
      >> try_else (flush e) (add_events (effects s st widget r) >> (commit e >> pure r))
          (recover widget.id key)

  unfoldable pub create_submission :
      Network → (Tables → Tables) → SubmissionCreate → Context → Action Submission
  unfolding store
  create_submission net others payload c = do
    cleaned ← lift (validate_against_widget s widget payload.lead)
    existing ← find_by_idempotency_key widget.id c.idempotency_key
    existing_or existing (
        wait others
        >> store c.idempotency_key (new_submission st widget c cleaned (enrich_ip net s c.ip)))
