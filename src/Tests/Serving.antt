-- ===== src/Tests/Serving.antt =====
-- The theorems on the endpoint and on the tenants' widgets at concrete inputs.
use flyrank_capstone_lead_ca.Prelude.{
  ◌≡◌, true, refl, none, some, [], ◌∷◌, ◌↔◌, strip, lstrip_by, rstrip_by, is_space, where_,
}
use flyrank_capstone_lead_ca.Config.{defaults}
use flyrank_capstone_lead_ca.Errors.{err, ok, uncaught, type_error}
use flyrank_capstone_lead_ca.Models.{Widget, Tables}
use flyrank_capstone_lead_ca.Session.{opened, write_all, commit, apply}
use flyrank_capstone_lead_ca.Ratelimit.{SubmissionRateLimiter}
use flyrank_capstone_lead_ca.Ratelimit.Window.Admission.{fresh}
use flyrank_capstone_lead_ca.Schemas.{WidgetUpdate, unset, to_null, to}
use flyrank_capstone_lead_ca.Widgets.{
  with_public_id, owned, get_widget_for_tenant, has_changes, breaks_not_null, updated, write_update,
  update_widget,
}
use flyrank_capstone_lead_ca.Widgets.Serving.{public_config}
use flyrank_capstone_lead_ca.Widgets.Isolation.{
  of_others, get_widget_for_tenant_isolated, update_widget-of_others,
}
use flyrank_capstone_lead_ca.Widgets.Versions.{
  Leaves, Described, Counted, update_widget-Leaves, update_widget_null_fields,
}
use flyrank_capstone_lead_ca.Public.{Request, config_response, with_headers, config_headers}
use flyrank_capstone_lead_ca.Public.Identify.{Allows, identify_iff}
use flyrank_capstone_lead_ca.Public.Etag.{config_response_updated}
use flyrank_capstone_lead_ca.Python.{show, show_from}
use flyrank_capstone_lead_ca.Public.Submit.{World, identify, submit}
use flyrank_capstone_lead_ca.Public.Order.{Ends, submit-Ends}
use flyrank_capstone_lead_ca.Tests.Samples.{
  widget, others_widget, tables, unique_engine, offline, stamp, lead_payload,
}

abbrev world : World
world = record {
  engine = unique_engine;
  settings = defaults;
  tick = 1;
  ip_now = 5;
  widget_now = 5;
  stamp = stamp;
  network = offline;
  others = λ t. t;
}

abbrev request : Request
request = record {
  forwarded_for = none;
  client_host = some "10.0.0.1";
  origin = some "https://shop.io";
  user_agent = none;
  referer = none;
  if_none_match = none;
  idempotency_key = some "abc";
}

abbrev limiter : SubmissionRateLimiter
limiter = record { ip = fresh 60; widget = fresh 60 }

submit-Ends_example :
    Ends world request lead_payload tables
      (identify request lead_payload (opened tables)).0
      limiter
      (submit world request lead_payload limiter (opened tables))
submit-Ends_example = submit-Ends world request lead_payload tables limiter

-- The same widgets for tenant 1, others for tenant 2.
abbrev tables_without_others : Tables
tables_without_others = record tables { widgets = widget ∷ [] }

get_widget_for_tenant_isolated_example :
    (get_widget_for_tenant 1 7 (opened tables)).0
    ≡ (get_widget_for_tenant 1 7 (opened tables_without_others)).0
unfolding where_
get_widget_for_tenant_isolated_example =
    get_widget_for_tenant_isolated 1 7 tables tables_without_others refl

abbrev no_change : WidgetUpdate
no_change = record {
  name = unset;
  type = unset;
  title = unset;
  description = unset;
  button_text = unset;
  success_message = unset;
  fields = unset;
  display = unset;
  allowed_origins = unset;
  notify_webhook_url = unset;
  notify_email = unset;
  active = unset;
}

abbrev new_title : WidgetUpdate
new_title = record no_change { title = to "Welcome" }

update_widget-of_others_example :
    of_others 1 (update_widget unique_engine 60 1 7 new_title (opened tables)).1.saved
    ≡ of_others 1 tables
update_widget-of_others_example =
    update_widget-of_others unique_engine 1 tables ((refl, tt), (tt, tt)) 60 7 new_title

abbrev retitled : Tables
retitled = record tables { widgets = updated 60 new_title widget ∷ others_widget ∷ [] }

update_runs :
    update_widget unique_engine 60 1 7 new_title (opened tables)
    ≡ (ok (updated 60 new_title widget), opened retitled)
unfolding update_widget get_widget_for_tenant write_update has_changes breaks_not_null updated
    commit write_all apply where_
update_runs = refl

update_widget-Leaves_example :
    (old : Widget) × (owned 1 7 tables ≡ old ∷ [])
    × Leaves unique_engine 60 new_title tables old (updated 60 new_title widget) (opened retitled)
    × Described unique_engine 60 new_title tables old (updated 60 new_title widget)
    × (Counted unique_engine 60 new_title tables old (updated 60 new_title widget))
update_widget-Leaves_example =
    update_widget-Leaves unique_engine 60 new_title tables 1 7 (updated 60 new_title widget)
      (opened retitled) update_runs

abbrev null_fields : WidgetUpdate
null_fields = record no_change { fields = to_null }

abbrev without_fields : Tables
without_fields = record tables { widgets = updated 60 null_fields widget ∷ others_widget ∷ [] }

null_fields_runs :
    update_widget unique_engine 60 1 7 null_fields (opened tables)
    ≡ (ok (updated 60 null_fields widget), opened without_fields)
unfolding update_widget get_widget_for_tenant write_update has_changes breaks_not_null updated
    commit write_all apply where_
null_fields_runs = refl

update_widget_null_fields_example :
    public_config defaults (updated 60 null_fields widget) ≡ err (uncaught type_error)
unfolding has_changes
update_widget_null_fields_example =
    update_widget_null_fields unique_engine 60 null_fields tables defaults 1 7
      (updated 60 null_fields widget) (opened without_fields) refl refl null_fields_runs

config_response_updated_example :
    config_response defaults (updated 60 new_title widget) (some "\"wabcdefghi-v3\"")
    ≡ with_headers
        (config_headers defaults (updated 60 new_title widget))
        (public_config defaults (updated 60 new_title widget))
unfolding has_changes where_ show show_from strip lstrip_by rstrip_by is_space
config_response_updated_example =
    config_response_updated unique_engine 60 new_title tables 1 7 widget
      (updated 60 new_title widget) (opened retitled) defaults (some "\"wabcdefghi-v3\"") refl refl
      update_runs refl

identify_iff_example :
    (identify request lead_payload (opened tables) ≡ (ok widget, opened tables)) ↔ (
      (with_public_id "wabcdefghi" tables ≡ widget ∷ [])
      × (widget.active ≡ true)
      × Allows widget (some "https://shop.io"))
identify_iff_example = identify_iff request lead_payload tables widget
