-- ===== src/Tests/Migrating.antt =====
-- The theorems on the migration and the columns it declares at concrete inputs.
use flyrank_capstone_lead_ca.Prelude.{◌≡◌, refl, true, some, [], ◌∷◌, arith, len, has_char}
use flyrank_capstone_lead_ca.Config.{defaults}
use flyrank_capstone_lead_ca.Widgets.{new_widget}
use flyrank_capstone_lead_ca.Schemas.{
  accepts_widget, valid_field, valid_name, field_name_re, name_rest, unique_names,
  origins_look_like_origins,
}
use flyrank_capstone_lead_ca.Migrations.{id_column, upgrade, downgrade}
use flyrank_capstone_lead_ca.Migrations.Running.{Schema, run, run_all, Performs, beside}
use flyrank_capstone_lead_ca.Migrations.RoundTrip.{initial_schema, upgrade-downgrade}
use flyrank_capstone_lead_ca.Integrity.{fits_widget}
use flyrank_capstone_lead_ca.Integrity.Accepted.{IsStorable, accepts_widget-fits_widget}
use flyrank_capstone_lead_ca.Seed.{contact_payload}

-- A schema that a tool has put one table into.
abbrev with_versions : Schema
with_versions = record {
  tables = ("alembic_version", id_column "version_num" ∷ []) ∷ [];
  indexes = [];
}

run-Performs : Performs run
run-Performs = record { documented = λ o s. refl }

upgrade-downgrade_example :
    (run_all run upgrade with_versions ≡ some (beside with_versions initial_schema))
    × (run_all run downgrade (beside with_versions initial_schema) ≡ some with_versions)
unfolding upgrade
upgrade-downgrade_example = upgrade-downgrade run run-Performs with_versions (
  (refl, (refl, tt)),
  (
    (refl, tt),
    (
      (refl, (refl, tt)),
      (
        (refl, tt),
        (
          (refl, tt),
          (
            (refl, (refl, tt)),
            (
              (refl, tt),
              (
                (refl, tt),
                (
                  (refl, tt),
                  ((refl, (refl, tt)), ((refl, tt), ((refl, (refl, tt)), ((refl, tt), tt)))),
                ),
              ),
            ),
          ),
        ),
      ),
    ),
  ),
)

contact_payload-IsStorable : IsStorable contact_payload
unfolding len has_char
contact_payload-IsStorable = record {
  name = refl;
  title = refl;
  description = refl;
  button_text = refl;
  success_message = refl;
  notify_webhook_url = refl;
  notify_email = refl;
}

accepts_widget-fits_widget_example :
    fits_widget (new_widget 7 61 5 "w0123456789" contact_payload) ≡ true
unfolding accepts_widget valid_field valid_name field_name_re name_rest unique_names
    origins_look_like_origins len has_char
accepts_widget-fits_widget_example =
    accepts_widget-fits_widget defaults 7 61 5 "w0123456789" contact_payload refl
      contact_payload-IsStorable (omega arith) refl
