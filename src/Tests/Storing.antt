-- ===== src/Tests/Storing.antt =====
-- The theorems on the constraints of the database and the seed script at concrete inputs.
use flyrank_capstone_lead_ca.Prelude.{
  ◌≤◌, ◌≡◌, refl, String, Bool, true, false, none, some, [], ◌∷◌, arith, len, has_char, where_, inl,
  ◌==◌, if◌then◌else◌, map, All, lookup, insert, is_space, lstrip_by, rstrip_by, split, strip,
}
use flyrank_capstone_lead_ca.Config.{defaults}
use flyrank_capstone_lead_ca.Errors.{integrity_error, ok}
use flyrank_capstone_lead_ca.Models.{Tables}
use flyrank_capstone_lead_ca.Session.{Engine, opened, apply, write_all, commit, flush}
use flyrank_capstone_lead_ca.Auth.{
  Crypto, expired, byte_len, hash_password, register, RegisterRequest, with_email,
}
use flyrank_capstone_lead_ca.Widgets.{generate_public_id, create_widget, new_widget}
use flyrank_capstone_lead_ca.Schemas.{Value, SubmissionCreate}
use flyrank_capstone_lead_ca.Submissions.Create.{
  Context, create_submission, effects, find_by_idempotency_key, store,
}
use flyrank_capstone_lead_ca.Submissions.Create.Replay.{EnforcesKeys}
use flyrank_capstone_lead_ca.Integrity.{
  satisfies, Enforces, fits_tenant, fits_widget, tenants_apart, widgets_apart, events_apart,
  fits_event, fits_submission, submissions_apart,
}
use flyrank_capstone_lead_ca.Invariant.Reachable.{
  no_rows, Reachable, migrated, registers, creates, submits,
}
use flyrank_capstone_lead_ca.Integrity.Owners.{Reachable-HasOwner}
use flyrank_capstone_lead_ca.Dashboard.Totals.{HasOwner}
use flyrank_capstone_lead_ca.Dashboard.{summary}
use flyrank_capstone_lead_ca.Dashboard.Sorted.{sum_by}
use flyrank_capstone_lead_ca.Integrity.Summary.{Reachable-summary}
use flyrank_capstone_lead_ca.Integrity.Keys.{Enforces-EnforcesKeys}
use flyrank_capstone_lead_ca.Integrity.Widths.{StoresNothing, create_submission-StoresNothing}
use flyrank_capstone_lead_ca.Seed.{
  acme, seeded_tenant, upsert_tenant, demo_password, contact_payload,
}
use flyrank_capstone_lead_ca.Seed.Again.{upsert_tenant_again}
use flyrank_capstone_lead_ca.Public.{Request, client_ip}
use flyrank_capstone_lead_ca.Public.Submit.{World, submit, identify, take_in}
use flyrank_capstone_lead_ca.Ratelimit.{SubmissionRateLimiter, after_ip, check}
use flyrank_capstone_lead_ca.Ratelimit.Window.Admission.{fresh}
use flyrank_capstone_lead_ca.Widgets.Serving.{
  get_active_widget_by_public_id, origin_allowed, without_slash,
}
use flyrank_capstone_lead_ca.Spam.{classify}
use flyrank_capstone_lead_ca.Enrichment.{
  address, build_chain, enrich_ip, enrich_with, is_public_ip, lookup_ip, try_each,
}
use flyrank_capstone_lead_ca.Python.{digit_value, is_digit, is_float, show, show_from}
use flyrank_capstone_lead_ca.Submissions.Validate.{
  bad_email, check_field, check_fields, declare, type_error_of, unknown_keys,
  validate_against_widget,
}
use flyrank_capstone_lead_ca.Ratelimit.Window.{decide, prune}
use flyrank_capstone_lead_ca.Ratelimit.Window
use flyrank_capstone_lead_ca.Tests.Samples.{
  widget, tables, as_stored, as_stored-OnlySorts, offline, stamp, lead_payload, keyed,
}

-- An engine that refuses exactly what breaks a constraint.
abbrev checking : Engine
checking = record {
  refusal = λ t w. if satisfies t w then none else some integrity_error;
  null_refusal = λ t. integrity_error;
}

accepted_satisfies : (b : Bool) → (if b then none else some integrity_error) ≡ none → b ≡ true
accepted_satisfies true h = refl
accepted_satisfies false h = absurd (cc)

checking-Enforces : Enforces checking
checking-Enforces = record { accepted = λ t w h. accepted_satisfies (satisfies t w) h }

-- A library whose hash of a password is the password.
abbrev plain : Crypto
plain = record {
  hashpw = λ password salt. some password;
  checkpw = λ password h. some (password == h);
  encode = λ k. "token";
  decode = λ now t. expired;
  lower = λ t. t;
}

abbrev ann : RegisterRequest
ann = record { email = "ann@mail.org"; name = "Ann"; password = "correct horse" }

abbrev with_ann : Tables
with_ann = (register plain defaults checking 5 0 60 ann (opened no_rows)).1.saved

abbrev with_widget : Tables
with_widget =
    (create_widget checking 7 61 ("w0123456789" ∷ []) 5 contact_payload (opened with_ann)).1.saved

widget_stored : with_widget.widgets ≡ new_widget 7 61 5 "w0123456789" contact_payload ∷ []
unfolding register hash_password byte_len commit write_all apply where_ create_widget
    generate_public_id satisfies fits_tenant tenants_apart fits_widget widgets_apart len has_char
widget_stored = refl

-- Every widget's id is drawn for tenant 5.
made : Reachable checking (λ id tenant_id. 5 ≡ tenant_id) with_widget
made =
    creates 7 61 ("w0123456789" ∷ []) 5 contact_payload refl
      (registers plain defaults 5 0 60 ann migrated refl) refl

abbrev sales_lead : SubmissionCreate
sales_lead = record {
  widget_id = "w0123456789";
  lead = ("email", Value.text "bo@mail.org") ∷ ("company", Value.text "Initech") ∷ [];
  honeypot = none;
  elapsed_ms = some 4_000;
}

abbrev world : World
world = record {
  engine = checking;
  settings = defaults;
  tick = 1;
  ip_now = 5;
  widget_now = 5;
  stamp = stamp;
  network = offline;
  others = λ _. with_widget;
}

abbrev request : Request
request = record {
  forwarded_for = none;
  client_host = some "10.0.0.1";
  origin = some "https://shop.io";
  user_agent = none;
  referer = none;
  if_none_match = none;
  idempotency_key = some "abc";
}

abbrev limiter : SubmissionRateLimiter
limiter = record { ip = fresh 60; widget = fresh 60 }

abbrev with_lead : Tables
with_lead = (submit world request sales_lead limiter (opened with_widget)).2.saved

-- The lead is accepted, and stored for the tenant.
lead_stored : map (λ r. r.tenant_id) with_lead.submissions ≡ 5 ∷ []
unfolding get_active_widget_by_public_id origin_allowed without_slash classify address build_chain
    enrich_ip enrich_with is_public_ip lookup_ip try_each events_apart fits_event fits_submission
    submissions_apart lookup insert is_space lstrip_by rstrip_by split strip identify take_in
    client_ip digit_value is_digit is_float show show_from after_ip check flush effects
    find_by_idempotency_key store bad_email check_field check_fields declare type_error_of
    unknown_keys validate_against_widget decide prune Window.check create_submission submit
    create_widget register generate_public_id hash_password byte_len commit write_all apply where_
    satisfies fits_tenant tenants_apart fits_widget widgets_apart len has_char
lead_stored = refl

Reachable-HasOwner_example : All (HasOwner with_lead.widgets) with_lead.submissions
Reachable-HasOwner_example =
    Reachable-HasOwner (λ id. 5) checking checking-Enforces
      (submits world request sales_lead limiter made made refl)

Reachable-summary_example :
    let s = summary as_stored 90 5 with_lead in
    (sum_by (λ p. p.submissions) s.per_widget ≡ s.total_submissions)
    × (s.submissions_last_24h ≤ s.submissions_last_7_days)
    × (s.submissions_last_7_days ≤ s.total_submissions)
    × (s.active_widgets ≤ s.total_widgets)
Reachable-summary_example =
    Reachable-summary (λ id. 5) checking checking-Enforces
      (submits world request sales_lead limiter made made refl) as_stored as_stored-OnlySorts 90 5

Enforces-EnforcesKeys_example : EnforcesKeys checking
Enforces-EnforcesKeys_example = Enforces-EnforcesKeys checking checking-Enforces

-- An address of 65 characters.
abbrev long_address : String
long_address = "00000000000000000000000000000000000000000000000000000000000000000"

abbrev from_long_address : Context
from_long_address = record (keyed "") { ip = some long_address; idempotency_key = none }

create_submission-StoresNothing_example : StoresNothing tables tables 7 none (
    create_submission checking defaults stamp widget offline
      (λ t. t)
      lead_payload
      from_long_address
      (opened tables))
unfolding len
create_submission-StoresNothing_example =
    create_submission-StoresNothing checking checking-Enforces defaults stamp widget offline
      (λ t. t) from_long_address tables (inl (long_address, refl, omega arith)) lead_payload

abbrev with_acme : Tables
with_acme = record no_rows { tenants = seeded_tenant 1 60 acme demo_password ∷ [] }

upsert_tenant_runs :
    upsert_tenant plain checking 1 0 60 acme (opened no_rows)
    ≡ (ok (seeded_tenant 1 60 acme demo_password), opened with_acme)
unfolding upsert_tenant hash_password byte_len commit write_all apply where_ satisfies fits_tenant
    tenants_apart len has_char
upsert_tenant_runs = refl

upsert_tenant_again_example :
    (with_email acme.email with_acme ≡ seeded_tenant 1 60 acme demo_password ∷ [])
    × (upsert_tenant plain checking 2 1 90 acme (opened with_acme)
        ≡ (ok (seeded_tenant 1 60 acme demo_password), opened with_acme))
upsert_tenant_again_example =
    upsert_tenant_again plain checking 1 0 60 acme no_rows (seeded_tenant 1 60 acme demo_password)
      (opened with_acme) plain checking 2 1 90 upsert_tenant_runs
