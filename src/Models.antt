-- ===== src/Models.antt =====
-- app/models.py: the rows of the five tables. A UUID is a number, since it is only compared, and a
-- date is a number of microseconds.
use flyrank_capstone_lead_ca.Prelude.{ℕ, String, Bool, Option, List, Dict}

pub record Tenant : Type 0 where
  pub id : ℕ
  pub email : String
  pub name : String
  pub password_hash : String
  pub created_at : ℕ

-- `FIELD_TYPES` and `WIDGET_TYPES` of app/schemas.py
pub data FieldType : Type 0 where
  text email tel textarea number url : FieldType

pub data WidgetType : Type 0 where
  signup_form cta popover : WidgetType

-- One entry of the `fields` column, as `WidgetField.model_dump()` writes it.
pub record WidgetField : Type 0 where
  pub name : String
  pub label : String
  pub type : FieldType
  pub required : Bool
  pub placeholder : Option String

-- `fields`, `display` and `allowed_origins` are JSONB columns: `none` is the JSON value null, which
-- a column that is not nullable accepts. `display` is opaque to the code: its JSON text stands here.
pub record Widget : Type 0 where
  pub id : ℕ
  pub tenant_id : ℕ
  pub public_id : String
  pub name : String
  pub type : WidgetType
  pub title : String
  pub description : Option String
  pub button_text : String
  pub success_message : String
  pub fields : Option (List WidgetField)
  pub display : Option String
  pub allowed_origins : Option (List String)
  pub notify_webhook_url : Option String
  pub notify_email : Option String
  pub active : Bool
  pub config_version : ℕ
  pub created_at : ℕ
  pub updated_at : ℕ

-- `geo_status`
pub data GeoStatus : Type 0 where
  enriched unavailable skipped : GeoStatus

pub record Submission : Type 0 where
  pub id : ℕ
  pub widget_id : ℕ
  pub tenant_id : ℕ
  pub lead : Dict String
  pub ip : Option String
  pub user_agent : Option String
  pub referer : Option String
  pub origin : Option String
  pub geo_status : GeoStatus
  pub geo_provider : Option String
  pub country : Option String
  pub country_code : Option String
  pub region : Option String
  pub city : Option String
  pub idempotency_key : Option String
  pub created_at : ℕ

-- The `geo` part of a side effect's payload.
pub record GeoPayload : Type 0 where
  pub status : GeoStatus
  pub provider : Option String
  pub country : Option String
  pub country_code : Option String
  pub region : Option String
  pub city : Option String

pub record Payload : Type 0 where
  pub submission_id : ℕ
  pub widget_public_id : String
  pub widget_name : String
  pub notify_email : Option String
  pub notify_webhook_url : Option String
  pub lead : Dict String
  pub geo : GeoPayload
  pub created_at : ℕ

pub data EventStatus : Type 0 where
  pending delivered failed : EventStatus

pub record OutboxEvent : Type 0 where
  pub id : ℕ
  pub submission_id : Option ℕ
  pub event_type : String
  pub payload : Payload
  pub status : EventStatus
  pub attempts : ℕ
  pub max_attempts : ℕ
  pub next_attempt_at : ℕ
  pub last_error : Option String
  pub created_at : ℕ
  pub delivered_at : Option ℕ

pub record SpamEvent : Type 0 where
  pub id : ℕ
  pub widget_id : Option ℕ
  pub tenant_id : Option ℕ
  pub reason : String
  pub ip : Option String
  pub created_at : ℕ

pub record Tables : Type 0 where
  pub tenants : List Tenant
  pub widgets : List Widget
  pub submissions : List Submission
  pub outbox_events : List OutboxEvent
  pub spam_events : List SpamEvent
