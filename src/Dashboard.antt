-- ===== src/Dashboard.antt =====
-- app/services/dashboard_service.py and app/routers/dashboard.py: what a tenant is shown of its leads.
-- A date is a number of microseconds, so a day is the quotient by the microseconds of a day, as
-- `date_trunc` gives it in UTC. One time stands for the clock in a call.
pub mod Sorted
pub mod Pages
pub mod Totals
pub mod Days
pub mod Countries
use flyrank_capstone_lead_ca.Prelude.{
  ℕ, suc, ◌+◌, ◌*◌, ◌/◌, String, Bool, true, false, ◌&&◌, Option, none, some, List, [], ◌∷◌, map,
  Dict, length, take, drop, where_, leb, ltb, nat_eq, ◌==◌, if◌then◌else◌,
}
use flyrank_capstone_lead_ca.Models.{
  Widget, Submission, GeoStatus, enriched, unavailable, skipped, SpamEvent, Tables,
}
use flyrank_capstone_lead_ca.Session.{Action, pure, select, ◌>>=◌}
use flyrank_capstone_lead_ca.Widgets.{get_widget_for_tenant}

abbrev pub is_same : ℕ → Option ℕ → Bool
is_same id none = false
is_same id (some i) = nat_eq i id

-- `filters` of `list_submissions`
abbrev pub in_filters : ℕ → Option ℕ → Submission → Bool
in_filters tenant_id none r = nat_eq r.tenant_id tenant_id
in_filters tenant_id (some w) r = nat_eq r.tenant_id tenant_id && nat_eq r.widget_id w

-- What the database does with `ORDER BY` where rows may be equal in it. The order of equal rows may
-- be another one for each LIMIT and OFFSET, the first two arguments of `newest_first`.
pub record Sorting : Type 1 where
  pub newest_first : ℕ → ℕ → List Submission → List Submission
  pub most_first : {A : Type 0} → (A → ℕ) → List A → List A

unfoldable pub list_submissions : Sorting → ℕ → Option ℕ → ℕ → ℕ → Tables → List Submission × ℕ
list_submissions o tenant_id widget_id limit offset t = (
  take limit (
      drop offset
        (o.newest_first limit offset (where_ (in_filters tenant_id widget_id) t.submissions))),
  length (where_ (in_filters tenant_id widget_id) t.submissions),
)

abbrev pub day : ℕ
day = 86_400_000_000

-- `created_at >= utcnow() - timedelta(days=days)`
abbrev pub since : ℕ → ℕ → Submission → Bool
since now days r = leb now (r.created_at + days * day)

unfoldable pub count_since : ℕ → ℕ → ℕ → Tables → ℕ
count_since now tenant_id days t =
    length (where_ (λ r. nat_eq r.tenant_id tenant_id && since now days r) t.submissions)

abbrev pub is_enriched : GeoStatus → Bool
is_enriched enriched = true
is_enriched unavailable = false
is_enriched skipped = false

-- What the route shows of a submission: nothing of its context or its key.
pub record SubmissionOut : Type 0 where
  pub id : ℕ
  pub widget_id : ℕ
  pub lead : Dict String
  pub country : Option String
  pub country_code : Option String
  pub region : Option String
  pub city : Option String
  pub geo_status : GeoStatus
  pub geo_provider : Option String
  pub created_at : ℕ

abbrev pub submission_out : Submission → SubmissionOut
submission_out r = record {
  id = r.id;
  widget_id = r.widget_id;
  lead = r.lead;
  country = r.country;
  country_code = r.country_code;
  region = r.region;
  city = r.city;
  geo_status = r.geo_status;
  geo_provider = r.geo_provider;
  created_at = r.created_at;
}

pub record SubmissionPage : Type 0 where
  pub items : List SubmissionOut
  pub total : ℕ
  pub limit : ℕ
  pub offset : ℕ

abbrev pub page_out : ℕ → ℕ → List Submission × ℕ → SubmissionPage
page_out limit offset (rows, total) = record {
  items = map submission_out rows;
  total = total;
  limit = limit;
  offset = offset;
}

pub record PerWidget : Type 0 where
  pub widget_id : ℕ
  pub public_id : String
  pub name : String
  pub active : Bool
  pub submissions : ℕ

-- `enrichment_success_rate` is the fraction that the source divides and rounds to four places;
-- `none` is its `0.0`.
pub record DashboardSummary : Type 0 where
  pub total_widgets : ℕ
  pub active_widgets : ℕ
  pub total_submissions : ℕ
  pub submissions_last_24h : ℕ
  pub submissions_last_7_days : ℕ
  pub spam_blocked : ℕ
  pub enrichment_success_rate : Option (ℕ × ℕ)
  pub per_widget : List PerWidget

-- One group of the outer join of widgets with submissions. The join compares the widget only.
abbrev pub joined : Tables → Widget → PerWidget
joined t w = record {
  widget_id = w.id;
  public_id = w.public_id;
  name = w.name;
  active = w.active;
  submissions = length (where_ (λ r. nat_eq r.widget_id w.id) t.submissions);
}

unfoldable pub summary : Sorting → ℕ → ℕ → Tables → DashboardSummary
unfolding count_since
summary o now tenant_id t =
    let total = length (where_ (λ r. nat_eq r.tenant_id tenant_id) t.submissions) in
    let good =
      length
        (where_ (λ r. nat_eq r.tenant_id tenant_id && is_enriched r.geo_status) t.submissions) in
    record {
      total_widgets = length (where_ (λ w. nat_eq w.tenant_id tenant_id) t.widgets);
      active_widgets = length (where_ (λ w. nat_eq w.tenant_id tenant_id && w.active) t.widgets);
      total_submissions = total;
      submissions_last_24h = count_since now tenant_id 1 t;
      submissions_last_7_days = count_since now tenant_id 7 t;
      spam_blocked = length (where_ (λ r. is_same tenant_id r.tenant_id) t.spam_events);
      enrichment_success_rate = if nat_eq total 0 then none else some (good, total);
      per_widget =
          o.most_first (λ p. p.submissions)
            (map (joined t) (where_ (λ w. nat_eq w.tenant_id tenant_id) t.widgets));
    }

-- `GROUP BY` a number with `count(*)`, in the order of the number: one more row of the key.
unfoldable pub count_day : ℕ → List (ℕ × ℕ) → List (ℕ × ℕ)
count_day d [] = (d, 1) ∷ []
count_day d ((j, n) ∷ groups) =
    let rest = count_day d groups in
    if ltb d j
    then (d, 1) ∷ (j, n) ∷ groups
    else if nat_eq d j
    then (j, suc n) ∷ groups
    else (j, n) ∷ rest

unfoldable pub by_day : List Submission → List (ℕ × ℕ)
unfolding count_day
by_day [] = []
by_day (r ∷ rows) = count_day (r.created_at / day) (by_day rows)

pub record GeoBucket : Type 0 where
  pub country : Option String
  pub country_code : Option String
  pub count : ℕ

abbrev pub same_text : Option String → Option String → Bool
same_text none none = true
same_text none (some u) = false
same_text (some t) none = false
same_text (some t) (some u) = t == u

-- One more row of a country. `GROUP BY` takes nulls for equal.
unfoldable pub count_country : Submission → List GeoBucket → List GeoBucket
count_country r [] = record { country = r.country; country_code = r.country_code; count = 1 } ∷ []
count_country r (b ∷ groups) =
    let rest = count_country r groups in
    if same_text r.country b.country && same_text r.country_code b.country_code
    then record b { count = suc b.count } ∷ groups
    else b ∷ rest

unfoldable pub by_country : List Submission → List GeoBucket
unfolding count_country
by_country [] = []
by_country (r ∷ rows) = count_country r (by_country rows)

pub record WidgetStats : Type 0 where
  pub widget_id : ℕ
  pub public_id : String
  pub name : String
  pub total_submissions : ℕ
  pub submissions_last_7_days : ℕ
  pub spam_blocked : ℕ
  pub days : List (ℕ × ℕ)
  pub countries : List GeoBucket

-- The rows of one widget, as its statistics select them.
abbrev pub of_tenant_widget : ℕ → Widget → Submission → Bool
of_tenant_widget tenant_id w r = nat_eq r.tenant_id tenant_id && nat_eq r.widget_id w.id

unfoldable pub widget_stats : Sorting → ℕ → ℕ → Widget → ℕ → Tables → WidgetStats
unfolding by_day by_country
widget_stats o now tenant_id w days t = record {
  widget_id = w.id;
  public_id = w.public_id;
  name = w.name;
  total_submissions = length (where_ (of_tenant_widget tenant_id w) t.submissions);
  submissions_last_7_days =
      length (where_ (λ r. of_tenant_widget tenant_id w r && since now 7 r) t.submissions);
  spam_blocked = length (where_ (λ r. is_same w.id r.widget_id) t.spam_events);
  days = by_day (where_ (λ r. of_tenant_widget tenant_id w r && since now days r) t.submissions);
  countries =
      o.most_first (λ b. b.count)
        (by_country (where_ (of_tenant_widget tenant_id w) t.submissions));
}

-- `if widget_id is not None: get_widget_for_tenant(…)`
abbrev pub check_widget : ℕ → Option ℕ → Action (Unit {0})
check_widget tenant_id none = pure tt
check_widget tenant_id (some w) = do widget ← get_widget_for_tenant tenant_id w; pure tt

module _ (o : Sorting) where
  -- The routes `list_submissions` and `widget_stats`.
  unfoldable pub submission_page : ℕ → Option ℕ → ℕ → ℕ → Action (List Submission × ℕ)
  unfolding list_submissions get_widget_for_tenant
  submission_page tenant_id widget_id limit offset = do
    found ← check_widget tenant_id widget_id
    select (list_submissions o tenant_id widget_id limit offset)

  unfoldable pub stats_page : ℕ → ℕ → ℕ → ℕ → Action WidgetStats
  unfolding widget_stats get_widget_for_tenant
  stats_page now tenant_id widget_id days = do
    w ← get_widget_for_tenant tenant_id widget_id
    select (widget_stats o now tenant_id w days)

  -- The routes' answers: the page with its parameters, and the summary.
  unfoldable pub get_submissions : ℕ → Option ℕ → ℕ → ℕ → Action SubmissionPage
  unfolding submission_page
  get_submissions tenant_id widget_id limit offset = do
    page ← submission_page tenant_id widget_id limit offset
    pure (page_out limit offset page)

  unfoldable pub get_summary : ℕ → ℕ → Action DashboardSummary
  unfolding summary
  get_summary now tenant_id = select (summary o now tenant_id)
