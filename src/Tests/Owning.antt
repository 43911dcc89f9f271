-- ===== src/Tests/Owning.antt =====
-- The theorems on the dashboard and on widget creation at concrete inputs.
use mathlib.Core.List.{Permᴰ}
use flyrank_capstone_lead_ca.Prelude.{
  ◌/◌, ◌≤◌, ◌≡◌, ◌↔◌, refl, true, ◌&&◌, none, some, List, [], ◌∷◌, ◌++◌, where_, length, nat_eq,
  All, arith,
}
use flyrank_capstone_lead_ca.Config.{defaults}
use flyrank_capstone_lead_ca.Errors.{ok}
use flyrank_capstone_lead_ca.Models.{Widget, WidgetType, Tables}
use flyrank_capstone_lead_ca.Session.{opened, write_all, commit, apply}
use flyrank_capstone_lead_ca.App.{limit_body_size, Passes, limit_body_size_iff}
use flyrank_capstone_lead_ca.Schemas.{WidgetCreate}
use flyrank_capstone_lead_ca.Widgets.{with_public_id, generate_public_id, new_widget, create_widget}
use flyrank_capstone_lead_ca.Widgets.Serving.{get_active_widget_by_public_id}
use flyrank_capstone_lead_ca.Widgets.Creation.{Holds, create_widget_served}
use flyrank_capstone_lead_ca.Widgets.Routes.{WidgetOut, is_complete, get_widgets, get_widgets_iff}
use flyrank_capstone_lead_ca.Dashboard.{
  day, since, of_tenant_widget, list_submissions, submission_page, widget_stats,
}
use flyrank_capstone_lead_ca.Dashboard.Pages.{selected, pages, pages-all, submission_page_isolated}
use flyrank_capstone_lead_ca.Dashboard.Days.{count_of, IsHistogram, widget_stats-days}
use flyrank_capstone_lead_ca.Dashboard.Sorted.{IsOrdered}
use flyrank_capstone_lead_ca.Tests.Sorting.{by_time, by_time-OnlySorts, by_time-IsNewestFirst}
use flyrank_capstone_lead_ca.Tests.Samples.{
  widget, others_widget, tables, email_field, unique_engine, lead_row, as_stored, same_rows,
}

-- Three leads of tenant 1 and one of tenant 2.
abbrev with_leads : Tables
with_leads = record tables {
  submissions =
      lead_row
      ∷ record lead_row { id = 201; country = some "Kenya" }
      ∷ record lead_row { id = 202; widget_id = 8; tenant_id = 2 }
      ∷ record lead_row { id = 203; created_at = 86_400_000_100 }
      ∷ [];
}

-- Two of the tenant's leads, stored at two times.
abbrev two_leads : Tables
two_leads = record tables {
  submissions = lead_row ∷ record lead_row { id = 203; created_at = 86_400_000_100 } ∷ [];
}

pages-all_example :
    Permᴰ (pages by_time 1 none 1 two_leads 2 0) (selected 1 none two_leads)
    × IsOrdered (pages by_time 1 none 1 two_leads 2 0)
    × (length (list_submissions by_time 1 none 1 1 two_leads).0 ≤ 1)
unfolding list_submissions where_
pages-all_example =
    pages-all by_time 1 none 1 two_leads by_time-OnlySorts by_time-IsNewestFirst
      ((omega arith, tt), (tt, tt)) 2 1 (omega arith)

submission_page_isolated_example :
    (submission_page as_stored 2 (some 8) 10 0 (opened tables)).0
    ≡ (submission_page as_stored 2
        (some 8)
        10
        0
        (opened (record tables { widgets = others_widget ∷ [] }))).0
unfolding where_
submission_page_isolated_example =
    submission_page_isolated as_stored 2 10 0 tables
      (record tables { widgets = others_widget ∷ [] }) (some 8) refl refl

widget_stats-days_example :
    IsHistogram (widget_stats as_stored 86_400_000_200 1 widget 30 with_leads).days
    × (count_of 1 (widget_stats as_stored 86_400_000_200 1 widget 30 with_leads).days
        ≡ length (
            where_
              (λ r. nat_eq (r.created_at / day) 1)
              (where_
                (λ r. of_tenant_widget 1 widget r && since 86_400_000_200 30 r)
                with_leads.submissions)))
widget_stats-days_example = widget_stats-days as_stored 86_400_000_200 1 widget 30 1 with_leads

limit_body_size_iff_example :
    (limit_body_size defaults "POST" (some "8193") ≡ none) ↔ Passes defaults "POST" (some "8193")
limit_body_size_iff_example = limit_body_size_iff defaults "POST" (some "8193")

abbrev order_form : WidgetCreate
order_form = record {
  name = "Orders";
  type = WidgetType.cta;
  title = "Order";
  description = none;
  button_text = "Send";
  success_message = "Thanks!";
  fields = email_field ∷ [];
  display = "{}";
  allowed_origins = [];
  notify_webhook_url = none;
  notify_email = none;
  active = true;
}

abbrev created : Widget
created = new_widget 9 60 1 "w1234567890" order_form

-- The first candidate is taken.
create_runs :
    create_widget unique_engine 9 60
      ("wabcdefghi" ∷ "w1234567890" ∷ [])
      1
      order_form
      (opened tables)
    ≡ (ok created, opened (record tables { widgets = tables.widgets ++ created ∷ [] }))
unfolding create_widget generate_public_id commit write_all apply where_
create_runs = refl

create_widget_served_example :
    (with_public_id "w1234567890" tables ≡ [])
    × Holds 9 60 1 order_form created
    × (opened (record tables { widgets = tables.widgets ++ created ∷ [] })
        ≡ opened (record tables { widgets = tables.widgets ++ created ∷ [] }))
    × (get_active_widget_by_public_id "w1234567890"
          (opened (record tables { widgets = tables.widgets ++ created ∷ [] }))
        ≡ (ok created, opened (record tables { widgets = tables.widgets ++ created ∷ [] })))
create_widget_served_example =
    create_widget_served unique_engine 9 60 1 order_form tables ("wabcdefghi" ∷ "w1234567890" ∷ [])
      created (opened (record tables { widgets = tables.widgets ++ created ∷ [] })) create_runs

get_widgets_iff_example :
    ((os : List WidgetOut) × (get_widgets defaults unique_engine 1 (λ rows. rows) (opened tables)
        ≡ (ok os, opened tables)))
    ↔ All (λ w. w.tenant_id ≡ 1 → is_complete w ≡ true) tables.widgets
get_widgets_iff_example =
    get_widgets_iff defaults unique_engine 1 (λ rows. rows) tables (λ rows. same_rows rows)
