-- ===== src/Migrations/Rows.antt =====
-- The rows of app/models.py as PostgreSQL stores them: a cell for each column of the migration.
use flyrank_capstone_lead_ca.Prelude.{
  ℕ, ◌^◌, String, Bool, true, false, not, ◌&&◌, Option, none, some, List, [], ◌∷◌, Dict, len,
  has_char, leb, ltb, all, ◌==◌, if◌then◌else◌,
}
use flyrank_capstone_lead_ca.Models.{
  Tenant, WidgetType, signup_form, cta, popover, Widget, GeoStatus, enriched, unavailable, skipped,
  Submission, EventStatus, pending, delivered, failed, OutboxEvent, SpamEvent,
}
use flyrank_capstone_lead_ca.Migrations.{
  ColumnType, uuid, long_text, jsonb, boolean, integer, date_time, string, Column,
}

pub data Cell : Type 0 where
  null document flag moment : Cell
  key : ℕ → Cell
  count : ℕ → Cell
  chars : String → Cell

abbrev pub chars_or_null : Option String → Cell
chars_or_null none = null
chars_or_null (some t) = chars t

abbrev pub key_or_null : Option ℕ → Cell
key_or_null none = null
key_or_null (some id) = key id

abbrev pub moment_or_null : Option ℕ → Cell
moment_or_null none = null
moment_or_null (some at) = moment

-- Does a column of the type hold the value? An integer has 32 bits, a sign among them, and no text
-- can_hold the character zero.
abbrev pub can_hold : ColumnType → Cell → Bool
can_hold uuid (key id) = true
can_hold (string n) (chars t) = leb (len t) n && not (has_char 0 t)
can_hold long_text (chars t) = not (has_char 0 t)
can_hold jsonb document = true
can_hold boolean flag = true
can_hold integer (count n) = ltb n (2 ^ 31)
can_hold date_time moment = true
can_hold type cell = false

abbrev pub fits_column : Column → Cell → Bool
fits_column c null = c.nullable
fits_column c (key id) = can_hold c.type (key id)
fits_column c (count n) = can_hold c.type (count n)
fits_column c (chars t) = can_hold c.type (chars t)
fits_column c document = can_hold c.type document
fits_column c flag = can_hold c.type flag
fits_column c moment = can_hold c.type moment

-- The value of a column in a row; a column that is not given is null.
abbrev pub cell : String → Dict Cell → Cell
cell n [] = null
cell n ((m, v) ∷ row) = let rest = cell n row in if m == n then v else rest

-- `nullable=False`, the lengths of the texts and the ranges of the integers.
abbrev pub fits_row : List Column → Dict Cell → Bool
fits_row columns row = all (λ c. fits_column c (cell c.name row)) columns

abbrev pub tenant_row : Tenant → Dict Cell
tenant_row r =
    ("id", key r.id)
    ∷ ("email", chars r.email)
    ∷ ("name", chars r.name)
    ∷ ("password_hash", chars r.password_hash)
    ∷ ("created_at", moment)
    ∷ []

abbrev pub type_text : WidgetType → String
type_text signup_form = "signup_form"
type_text cta = "cta"
type_text popover = "popover"

abbrev pub widget_row : Widget → Dict Cell
widget_row r =
    ("id", key r.id)
    ∷ ("tenant_id", key r.tenant_id)
    ∷ ("public_id", chars r.public_id)
    ∷ ("name", chars r.name)
    ∷ ("type", chars (type_text r.type))
    ∷ ("title", chars r.title)
    ∷ ("description", chars_or_null r.description)
    ∷ ("button_text", chars r.button_text)
    ∷ ("success_message", chars r.success_message)
    ∷ ("fields", document)
    ∷ ("display", document)
    ∷ ("allowed_origins", document)
    ∷ ("notify_webhook_url", chars_or_null r.notify_webhook_url)
    ∷ ("notify_email", chars_or_null r.notify_email)
    ∷ ("active", flag)
    ∷ ("config_version", count r.config_version)
    ∷ ("created_at", moment)
    ∷ ("updated_at", moment)
    ∷ []

abbrev pub geo_text : GeoStatus → String
geo_text enriched = "enriched"
geo_text unavailable = "unavailable"
geo_text skipped = "skipped"

abbrev pub submission_row : Submission → Dict Cell
submission_row r =
    ("id", key r.id)
    ∷ ("widget_id", key r.widget_id)
    ∷ ("tenant_id", key r.tenant_id)
    ∷ ("data", document)
    ∷ ("ip", chars_or_null r.ip)
    ∷ ("user_agent", chars_or_null r.user_agent)
    ∷ ("referer", chars_or_null r.referer)
    ∷ ("origin", chars_or_null r.origin)
    ∷ ("geo_status", chars (geo_text r.geo_status))
    ∷ ("geo_provider", chars_or_null r.geo_provider)
    ∷ ("country", chars_or_null r.country)
    ∷ ("country_code", chars_or_null r.country_code)
    ∷ ("region", chars_or_null r.region)
    ∷ ("city", chars_or_null r.city)
    ∷ ("idempotency_key", chars_or_null r.idempotency_key)
    ∷ ("created_at", moment)
    ∷ []

abbrev pub status_text : EventStatus → String
status_text pending = "pending"
status_text delivered = "delivered"
status_text failed = "failed"

abbrev pub outbox_event_row : OutboxEvent → Dict Cell
outbox_event_row r =
    ("id", key r.id)
    ∷ ("submission_id", key_or_null r.submission_id)
    ∷ ("event_type", chars r.event_type)
    ∷ ("payload", document)
    ∷ ("status", chars (status_text r.status))
    ∷ ("attempts", count r.attempts)
    ∷ ("max_attempts", count r.max_attempts)
    ∷ ("next_attempt_at", moment)
    ∷ ("last_error", chars_or_null r.last_error)
    ∷ ("created_at", moment)
    ∷ ("delivered_at", moment_or_null r.delivered_at)
    ∷ []

abbrev pub spam_event_row : SpamEvent → Dict Cell
spam_event_row r =
    ("id", key r.id)
    ∷ ("widget_id", key_or_null r.widget_id)
    ∷ ("tenant_id", key_or_null r.tenant_id)
    ∷ ("reason", chars r.reason)
    ∷ ("ip", chars_or_null r.ip)
    ∷ ("created_at", moment)
    ∷ []
