-- ===== src/Integrity.antt =====
-- The tables of app/models.py under the constraints of migrations/versions/0001_initial_schema.py:
-- when they keep all of them, and which writes PostgreSQL may accept.
pub mod Keeping
pub mod Cascade
pub mod Editing
pub mod Applying
pub mod Reachable
pub mod Owners
pub mod Summary
pub mod Widths
pub mod Keys
pub mod Accepted
use flyrank_capstone_lead_ca.Prelude.{
  ℕ, ◌≡◌, String, Bool, true, false, ◌&&◌, ◌||◌, Option, none, some, List, Dict, any, all, nat_eq,
}
use flyrank_capstone_lead_ca.Models.{Tenant, Widget, Submission, OutboxEvent, SpamEvent, Tables}
use flyrank_capstone_lead_ca.Session.{
  Write, add_tenant, add_widget, set_widget, drop_widget, add_submission, add_event, set_event,
  add_spam, Engine,
}
use flyrank_capstone_lead_ca.Migrations.{
  tenants_columns, widgets_columns, submissions_columns, outbox_events_columns, spam_events_columns,
}
use flyrank_capstone_lead_ca.Migrations.RoundTrip.{initial_schema}
use flyrank_capstone_lead_ca.Migrations.Rows.{
  tenant_row, widget_row, submission_row, outbox_event_row, spam_event_row,
}
use flyrank_capstone_lead_ca.Migrations.Constraints.{unique_keys, fits, apart, is_consistent}

abbrev pub keys_of : String → List (List String)
keys_of table = unique_keys table initial_schema.indexes

-- For each table: does a row fit its columns, and have two rows no key in common?
unfoldable pub fits_tenant : Tenant → Bool
fits_tenant = fits tenant_row tenants_columns (keys_of "tenants")

unfoldable pub tenants_apart : Tenant → Tenant → Bool
tenants_apart = apart tenant_row tenants_columns (keys_of "tenants")

unfoldable pub fits_widget : Widget → Bool
fits_widget = fits widget_row widgets_columns (keys_of "widgets")

unfoldable pub widgets_apart : Widget → Widget → Bool
widgets_apart = apart widget_row widgets_columns (keys_of "widgets")

unfoldable pub fits_submission : Submission → Bool
fits_submission = fits submission_row submissions_columns (keys_of "submissions")

unfoldable pub submissions_apart : Submission → Submission → Bool
submissions_apart = apart submission_row submissions_columns (keys_of "submissions")

unfoldable pub fits_event : OutboxEvent → Bool
fits_event = fits outbox_event_row outbox_events_columns (keys_of "outbox_events")

unfoldable pub events_apart : OutboxEvent → OutboxEvent → Bool
events_apart = apart outbox_event_row outbox_events_columns (keys_of "outbox_events")

unfoldable pub fits_spam : SpamEvent → Bool
fits_spam = fits spam_event_row spam_events_columns (keys_of "spam_events")

unfoldable pub spam_apart : SpamEvent → SpamEvent → Bool
spam_apart = apart spam_event_row spam_events_columns (keys_of "spam_events")

abbrev pub has_tenant : List Tenant → ℕ → Bool
has_tenant rows id = any (λ r. nat_eq r.id id) rows

abbrev pub has_widget : List Widget → ℕ → Bool
has_widget rows id = any (λ r. nat_eq r.id id) rows

abbrev pub has_submission : List Submission → ℕ → Bool
has_submission rows id = any (λ r. nat_eq r.id id) rows

-- A foreign key that is null refers to nothing and needs nothing.
abbrev pub or_null : (ℕ → Bool) → Option ℕ → Bool
or_null has none = true
or_null has (some id) = has id

-- The foreign keys of a row.
abbrev pub refers_widget : List Tenant → Widget → Bool
refers_widget ts r = has_tenant ts r.tenant_id

abbrev pub refers_submission : List Widget → List Tenant → Submission → Bool
refers_submission ws ts r = has_widget ws r.widget_id && has_tenant ts r.tenant_id

abbrev pub refers_event : List Submission → OutboxEvent → Bool
refers_event ss r = or_null (has_submission ss) r.submission_id

abbrev pub refers_spam : List Widget → List Tenant → SpamEvent → Bool
refers_spam ws ts r = or_null (has_widget ws) r.widget_id && or_null (has_tenant ts) r.tenant_id

-- Every row fits its columns, keys are unique, and every reference leads to a row.
pub record Integrity (t : Tables) : Type 0 where
  pub tenants : is_consistent fits_tenant tenants_apart t.tenants ≡ true
  pub widgets : is_consistent fits_widget widgets_apart t.widgets ≡ true
  pub submissions : is_consistent fits_submission submissions_apart t.submissions ≡ true
  pub outbox_events : is_consistent fits_event events_apart t.outbox_events ≡ true
  pub spam_events : is_consistent fits_spam spam_apart t.spam_events ≡ true
  pub widgets_refer : all (refers_widget t.tenants) t.widgets ≡ true
  pub submissions_refer : all (refers_submission t.widgets t.tenants) t.submissions ≡ true
  pub outbox_events_refer : all (refers_event t.submissions) t.outbox_events ≡ true
  pub spam_events_refer : all (refers_spam t.widgets t.tenants) t.spam_events ≡ true

-- Does the write keep the constraints that the migration declares?
unfoldable pub satisfies : Tables → Write → Bool
unfolding fits_tenant tenants_apart fits_widget widgets_apart fits_submission submissions_apart
    fits_event events_apart fits_spam spam_apart
satisfies t (add_tenant r) = fits_tenant r && all (tenants_apart r) t.tenants
satisfies t (add_widget r) =
    fits_widget r && all (widgets_apart r) t.widgets && refers_widget t.tenants r
satisfies t (set_widget r) =
    fits_widget r
    && all (λ b. nat_eq b.id r.id || widgets_apart r b) t.widgets
    && refers_widget t.tenants r
satisfies t (drop_widget id) = true
satisfies t (add_submission r) =
    fits_submission r
    && all (submissions_apart r) t.submissions
    && refers_submission t.widgets t.tenants r
satisfies t (add_event r) =
    fits_event r && all (events_apart r) t.outbox_events && refers_event t.submissions r
satisfies t (set_event r) =
    fits_event r
    && all (λ b. nat_eq b.id r.id || events_apart r b) t.outbox_events
    && refers_event t.submissions r
satisfies t (add_spam r) =
    fits_spam r && all (spam_apart r) t.spam_events && refers_spam t.widgets t.tenants r

-- What PostgreSQL documents of declared constraints: a write that breaks one is refused.
pub record Enforces (e : Engine) : Type 0 where
  pub accepted : (t : Tables) (w : Write) → e.refusal t w ≡ none → satisfies t w ≡ true
