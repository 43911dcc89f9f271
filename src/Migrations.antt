-- ===== src/Migrations.antt =====
-- migrations/versions/0001_initial_schema.py: the declarations of the five tables, as data, and what
-- the operations of a migration do to a schema.
pub mod Running
pub mod RoundTrip
pub mod Rows
pub mod Constraints
use flyrank_capstone_lead_ca.Prelude.{
  ℕ, String, append, Bool, true, false, not, ◌&&◌, ◌||◌, Option, none, some, List, [], ◌∷◌, ◌++◌,
  map, Dict, contains, erase, where_, any, all, ◌==◌, if◌then◌else◌,
}

-- The column types of the migration; `string n` holds at most n characters.
pub data ColumnType : Type 0 where
  uuid long_text jsonb boolean integer date_time : ColumnType
  string : ℕ → ColumnType

-- `sa.ForeignKey("<table>.id", ondelete="CASCADE")` names the table, and what follows its deletions.
pub record Column : Type 0 where
  pub name : String
  pub type : ColumnType
  pub primary_key : Bool
  pub nullable : Bool
  pub server_default : Option String
  pub foreign_key : Option String
  pub on_delete : Option String

abbrev pub required_column : String → ColumnType → Column
required_column name type = record {
  name = name;
  type = type;
  primary_key = false;
  nullable = false;
  server_default = none;
  foreign_key = none;
  on_delete = none;
}

abbrev pub id_column : String → Column
id_column name = record (required_column name uuid) { primary_key = true }

abbrev pub optional_column : String → ColumnType → Column
optional_column name type = record (required_column name type) { nullable = true }

abbrev pub default_column : String → ColumnType → String → Column
default_column name type text = record (required_column name type) { server_default = some text }

abbrev pub reference_column : String → String → Bool → Column
reference_column name table nullable = record (required_column name uuid) {
  nullable = nullable;
  foreign_key = some table;
  on_delete = some "CASCADE";
}

-- The operations that the migration uses.
pub data Operation : Type 0 where
  create_table : String → List Column → Operation
  create_index : String → String → List String → Bool → Operation
  create_unique_constraint : String → String → List String → Operation
  drop_table : String → Operation

abbrev pub tenants_columns : List Column
tenants_columns =
    id_column "id"
    ∷ required_column "email" (string 255)
    ∷ required_column "name" (string 200)
    ∷ required_column "password_hash" (string 255)
    ∷ required_column "created_at" date_time
    ∷ []

abbrev pub widgets_columns : List Column
widgets_columns =
    id_column "id"
    ∷ reference_column "tenant_id" "tenants" false
    ∷ required_column "public_id" (string 32)
    ∷ required_column "name" (string 200)
    ∷ required_column "type" (string 32)
    ∷ required_column "title" (string 200)
    ∷ optional_column "description" long_text
    ∷ default_column "button_text" (string 100) "Submit"
    ∷ default_column "success_message" (string 300) "Thanks!"
    ∷ default_column "fields" jsonb "[]"
    ∷ default_column "display" jsonb "{}"
    ∷ default_column "allowed_origins" jsonb "[]"
    ∷ optional_column "notify_webhook_url" long_text
    ∷ optional_column "notify_email" (string 255)
    ∷ default_column "active" boolean "true"
    ∷ default_column "config_version" integer "1"
    ∷ required_column "created_at" date_time
    ∷ required_column "updated_at" date_time
    ∷ []

abbrev pub submissions_columns : List Column
submissions_columns =
    id_column "id"
    ∷ reference_column "widget_id" "widgets" false
    ∷ reference_column "tenant_id" "tenants" false
    ∷ default_column "data" jsonb "{}"
    ∷ optional_column "ip" (string 64)
    ∷ optional_column "user_agent" long_text
    ∷ optional_column "referer" long_text
    ∷ optional_column "origin" long_text
    ∷ default_column "geo_status" (string 24) "unavailable"
    ∷ optional_column "geo_provider" (string 48)
    ∷ optional_column "country" (string 80)
    ∷ optional_column "country_code" (string 8)
    ∷ optional_column "region" (string 120)
    ∷ optional_column "city" (string 120)
    ∷ optional_column "idempotency_key" (string 128)
    ∷ required_column "created_at" date_time
    ∷ []

abbrev pub outbox_events_columns : List Column
outbox_events_columns =
    id_column "id"
    ∷ reference_column "submission_id" "submissions" true
    ∷ required_column "event_type" (string 64)
    ∷ default_column "payload" jsonb "{}"
    ∷ default_column "status" (string 16) "pending"
    ∷ default_column "attempts" integer "0"
    ∷ default_column "max_attempts" integer "5"
    ∷ required_column "next_attempt_at" date_time
    ∷ optional_column "last_error" long_text
    ∷ required_column "created_at" date_time
    ∷ optional_column "delivered_at" date_time
    ∷ []

abbrev pub spam_events_columns : List Column
spam_events_columns =
    id_column "id"
    ∷ reference_column "widget_id" "widgets" true
    ∷ reference_column "tenant_id" "tenants" true
    ∷ required_column "reason" (string 48)
    ∷ optional_column "ip" (string 64)
    ∷ required_column "created_at" date_time
    ∷ []

unfoldable pub upgrade : List Operation
upgrade =
    create_table "tenants" tenants_columns
    ∷ create_index "ix_tenants_email" "tenants" ("email" ∷ []) true
    ∷ create_table "widgets" widgets_columns
    ∷ create_index "ix_widgets_public_id" "widgets" ("public_id" ∷ []) true
    ∷ create_index "ix_widgets_tenant_id_created_at" "widgets" ("tenant_id" ∷ "created_at" ∷ [])
        false
    ∷ create_table "submissions" submissions_columns
    ∷ create_index "ix_submissions_widget_id_created_at" "submissions"
        ("widget_id" ∷ "created_at" ∷ []) false
    ∷ create_index "ix_submissions_tenant_id_created_at" "submissions"
        ("tenant_id" ∷ "created_at" ∷ []) false
    ∷ create_unique_constraint "uq_submissions_widget_idem" "submissions"
        ("widget_id" ∷ "idempotency_key" ∷ [])
    ∷ create_table "outbox_events" outbox_events_columns
    ∷ create_index "ix_outbox_status_next_attempt" "outbox_events"
        ("status" ∷ "next_attempt_at" ∷ []) false
    ∷ create_table "spam_events" spam_events_columns
    ∷ create_index "ix_spam_events_tenant_created" "spam_events" ("tenant_id" ∷ "created_at" ∷ [])
        false
    ∷ []

unfoldable pub downgrade : List Operation
downgrade =
    drop_table "spam_events"
    ∷ drop_table "outbox_events"
    ∷ drop_table "submissions"
    ∷ drop_table "widgets"
    ∷ drop_table "tenants"
    ∷ []
