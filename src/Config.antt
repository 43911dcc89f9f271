-- ===== src/Config.antt =====
-- app/config.py: the settings that the modelled code reads.
use flyrank_capstone_lead_ca.Prelude.{ℕ, String, Bool, true, false}

-- Times in seconds that the source keeps as floats are whole microseconds here.
pub record Settings : Type 0 where
  pub base_url : String
  pub jwt_expire_minutes : ℕ
  pub rate_limit_enabled : Bool
  pub rate_limit_ip_per_minute : ℕ
  pub rate_limit_widget_per_minute : ℕ
  pub max_body_bytes : ℕ
  pub max_field_length : ℕ
  pub honeypot_field : String
  -- `min_fill_seconds`, in microseconds
  pub min_fill_micros : ℕ
  pub geo_mode : String
  pub geo_mock_a_up : Bool
  pub geo_mock_b_up : Bool
  pub geo_dev_fallback_ip : String
  pub outbox_max_attempts : ℕ
  pub outbox_backoff_base_seconds : ℕ
  pub outbox_worker_enabled : Bool
  pub email_mode : String
  pub email_from : String
  pub side_effect_force_fail : Bool
  pub widget_bundle_version : String
  pub config_cache_max_age : ℕ

-- The defaults, which an unset environment gives.
abbrev pub defaults : Settings
defaults = record {
  base_url = "http://localhost:8000";
  jwt_expire_minutes = 1440;
  rate_limit_enabled = true;
  rate_limit_ip_per_minute = 30;
  rate_limit_widget_per_minute = 120;
  max_body_bytes = 8192;
  max_field_length = 2000;
  honeypot_field = "website_url";
  min_fill_micros = 1_500_000;
  geo_mode = "mock";
  geo_mock_a_up = true;
  geo_mock_b_up = true;
  geo_dev_fallback_ip = "8.8.8.8";
  outbox_max_attempts = 5;
  outbox_backoff_base_seconds = 2;
  outbox_worker_enabled = true;
  email_mode = "console";
  email_from = "no-reply@leadcapture.local";
  side_effect_force_fail = false;
  widget_bundle_version = "v1";
  config_cache_max_age = 60;
}
