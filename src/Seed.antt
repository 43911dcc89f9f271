-- ===== src/Seed.antt =====
-- scripts/seed.py: the demonstration data.
pub mod Again
use flyrank_capstone_lead_ca.Prelude.{
  ℕ, suc, String, Bool, true, false, Option, none, some, List, [], ◌∷◌, Dict, nat_eq, if◌then◌else◌,
}
use flyrank_capstone_lead_ca.Config.{Settings}
use flyrank_capstone_lead_ca.Errors.{Result, ok, err, uncaught, index_error}
use flyrank_capstone_lead_ca.Models.{
  Tenant, Widget, WidgetField, WidgetType, FieldType, Submission, Tables,
}
use flyrank_capstone_lead_ca.Session.{
  add_tenant, Engine, Action, pure, raise, lift, select, add, commit, scalar_one_or_none, ◌>>=◌,
  ◌>>◌,
}
use flyrank_capstone_lead_ca.Enrichment.{Network}
use flyrank_capstone_lead_ca.Schemas.{Value, SubmissionCreate, WidgetCreate}
use flyrank_capstone_lead_ca.Widgets.{create_widget, list_widgets, count_widgets}
use flyrank_capstone_lead_ca.Submissions.Create.{Stamp, Context, create_submission}
use flyrank_capstone_lead_ca.Auth.{Crypto, hash_password, with_email}

abbrev pub demo_password : String
demo_password = "demo-password-123"

-- An entry of `TENANTS`.
pub record Account : Type 0 where
  pub email : String
  pub name : String

abbrev pub acme : Account
acme = record { email = "acme@example.com"; name = "Acme Corp" }

abbrev pub globex : Account
globex = record { email = "globex@example.com"; name = "Globex Inc" }

-- The row that `upsert_tenant` adds; the email is kept as it is written.
abbrev pub seeded_tenant : ℕ → ℕ → Account → String → Tenant
seeded_tenant id now a password_hash = record {
  id = id;
  email = a.email;
  name = a.name;
  password_hash = password_hash;
  created_at = now;
}

module _ (c : Crypto) (e : Engine) where
  abbrev pub insert_tenant : ℕ → ℕ → ℕ → Account → Action Tenant
  insert_tenant id salt now a = do
    password_hash ← lift (hash_password c salt demo_password)
    add (add_tenant (seeded_tenant id now a password_hash))
    commit e
    pure (seeded_tenant id now a password_hash)

  -- `if tenant: return tenant`
  abbrev pub found_or_insert : ℕ → ℕ → ℕ → Account → Option Tenant → Action Tenant
  found_or_insert id salt now a none = insert_tenant id salt now a
  found_or_insert id salt now a (some tenant) = pure tenant

  unfoldable pub upsert_tenant : ℕ → ℕ → ℕ → Account → Action Tenant
  unfolding hash_password
  upsert_tenant id salt now a = do
    rows ← select (with_email a.email)
    tenant ← lift (scalar_one_or_none rows)
    found_or_insert id salt now a tenant

abbrev pub seed_email : String → WidgetField
seed_email label = record {
  name = "email";
  label = label;
  type = FieldType.email;
  required = true;
  placeholder = none;
}

abbrev pub newsletter_payload : WidgetCreate
newsletter_payload = record {
  name = "Newsletter signup";
  type = WidgetType.signup_form;
  title = "Join the Acme newsletter";
  description = some "Product news once a month. No spam, unsubscribe anytime.";
  button_text = "Subscribe";
  success_message = "You're on the list — check your inbox.";
  fields =
      record (seed_email "Email") { placeholder = some "you@company.com" }
      ∷ record {
        name = "first_name";
        label = "First name";
        type = FieldType.text;
        required = false;
        placeholder = none;
      }
      ∷ [];
  display = "{\"accent\": \"#2563eb\", \"theme\": \"light\"}";
  allowed_origins = [];
  notify_webhook_url = none;
  notify_email = some "leads@acme.example.com";
  active = true;
}

abbrev pub contact_payload : WidgetCreate
contact_payload = record {
  name = "Contact sales";
  type = WidgetType.cta;
  title = "Talk to sales";
  description = some "Tell us what you need and we'll reply within one business day.";
  button_text = "Request a call";
  success_message = "Thanks! We'll be in touch.";
  fields =
      seed_email "Work email"
      ∷ record {
        name = "company";
        label = "Company";
        type = FieldType.text;
        required = true;
        placeholder = none;
      }
      ∷ record {
        name = "message";
        label = "What do you need?";
        type = FieldType.textarea;
        required = false;
        placeholder = none;
      }
      ∷ [];
  display = "{\"accent\": \"#0f766e\"}";
  allowed_origins = [];
  notify_webhook_url = none;
  notify_email = some "sales@acme.example.com";
  active = true;
}

abbrev pub waitlist_payload : WidgetCreate
waitlist_payload = record {
  name = "Globex beta waitlist";
  type = WidgetType.popover;
  title = "Get early access";
  description = none;
  button_text = "Submit";
  success_message = "Thanks! We'll be in touch.";
  fields = seed_email "Email" ∷ [];
  display = "{\"accent\": \"#7c3aed\"}";
  allowed_origins = [];
  notify_webhook_url = none;
  notify_email = none;
  active = true;
}

abbrev pub demo_lead : String → String → Dict Value
demo_lead email first_name =
    ("email", Value.text email) ∷ ("first_name", Value.text first_name) ∷ []

abbrev pub demo_leads : List (Dict Value)
demo_leads =
    demo_lead "dana@northwind.example" "Dana"
    ∷ demo_lead "sam@initech.example" "Sam"
    ∷ demo_lead "rae@umbrella.example" "Rae"
    ∷ []

abbrev pub seed_context : Context
seed_context = record {
  ip = some "8.8.8.8";
  user_agent = some "seed-script/1.0";
  referer = none;
  origin = some "http://localhost:5500";
  idempotency_key = none;
}

-- `widgets[-1]`, which raises on an empty list
abbrev pub last_widget : List Widget → Action Widget
last_widget [] = raise (uncaught index_error)
last_widget (w ∷ []) = pure w
last_widget (w ∷ w' ∷ ws) = last_widget (w' ∷ ws)

-- What a run takes from outside. Each new row has an id, and each new widget the candidates for its
-- public id; `stamps` gives those of the leads, one by one.
pub record Run : Type 0 where
  pub engine : Engine
  pub settings : Settings
  pub crypto : Crypto
  pub network : Network
  pub now : ℕ
  pub acme_id : ℕ
  pub globex_id : ℕ
  pub acme_salt : ℕ
  pub globex_salt : ℕ
  pub newsletter_id : ℕ
  pub contact_id : ℕ
  pub waitlist_id : ℕ
  pub newsletter_candidates : List String
  pub contact_candidates : List String
  pub waitlist_candidates : List String
  pub newest_first : List Widget → List Widget
  pub stamps : ℕ → Stamp
  pub others : Tables → Tables

module _ (v : Run) where
  -- Acme's widgets: made where there are none. What follows uses the newsletter.
  abbrev pub acme_widgets : ℕ → ℕ → Action Widget
  acme_widgets tenant_id number =
      if nat_eq number 0
      then (do
        newsletter ←
            create_widget v.engine v.newsletter_id v.now v.newsletter_candidates tenant_id
              newsletter_payload
        contact ←
            create_widget v.engine v.contact_id v.now v.contact_candidates tenant_id contact_payload
        pure newsletter)
      else (do rows ← select (list_widgets v.newest_first tenant_id); last_widget rows)

  abbrev pub globex_widgets : ℕ → ℕ → Action (Unit {0})
  globex_widgets tenant_id number =
      if nat_eq number 0
      then (do
        waitlist ←
            create_widget v.engine v.waitlist_id v.now v.waitlist_candidates tenant_id
              waitlist_payload
        pure tt)
      else pure tt

  abbrev pub add_leads : Widget → ℕ → List (Dict Value) → Action (Unit {0})
  add_leads newsletter number [] = pure tt
  add_leads newsletter number (entry ∷ more) =
      create_submission v.engine v.settings (v.stamps number) newsletter v.network v.others
        (record {
          widget_id = newsletter.public_id;
          lead = entry;
          honeypot = none;
          elapsed_ms = none;
        })
        seed_context
      >> add_leads newsletter (suc number) more

  -- `main`, without what it prints
  unfoldable pub main : Action (Unit {0})
  unfolding upsert_tenant create_widget list_widgets count_widgets create_submission
  main = do
    a ← upsert_tenant v.crypto v.engine v.acme_id v.acme_salt v.now acme
    b ← upsert_tenant v.crypto v.engine v.globex_id v.globex_salt v.now globex
    acme_count ← select (count_widgets a.id)
    newsletter ← acme_widgets a.id acme_count
    globex_count ← select (count_widgets b.id)
    globex_widgets b.id globex_count
    add_leads newsletter 0 demo_leads
