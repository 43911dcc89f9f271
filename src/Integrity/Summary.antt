-- ===== src/Integrity/Summary.antt =====
-- The dashboard's summary (app/services/dashboard_service.py) in the tables that the application can
-- lead to.
use flyrank_capstone_lead_ca.Prelude.{ℕ, ◌≡◌, ◌≤◌}
use flyrank_capstone_lead_ca.Models.{Tables}
use flyrank_capstone_lead_ca.Session.{Engine}
use flyrank_capstone_lead_ca.Dashboard.{Sorting, summary}
use flyrank_capstone_lead_ca.Dashboard.Sorted.{OnlySorts, sum_by}
use flyrank_capstone_lead_ca.Dashboard.Totals.{summary_totals}
use flyrank_capstone_lead_ca.Invariant.Reachable.{Reachable}
use flyrank_capstone_lead_ca.Integrity.{Enforces}
use flyrank_capstone_lead_ca.Integrity.Owners.{Reachable-HasOwner}

-- Where the engine refuses every write that breaks a constraint of the migration, a widget's id is
-- drawn for one tenant only, and ORDER BY only sorts: in all tables that the application's requests
-- and its worker can lead to, the submissions of the widgets in a tenant's summary add up to the
-- tenant's total; those of the last day are at most those of the last week, and these at most the
-- total; and there are at most as many active widgets as widgets.
pub Reachable-summary :
    (owner : ℕ → ℕ) (e : Engine)
    → Enforces e
    → {t : Tables} → Reachable e (λ id tenant_id. owner id ≡ tenant_id) t
    → (o : Sorting) → OnlySorts o
    → (now tenant_id : ℕ)
    → let s = summary o now tenant_id t in
      (sum_by (λ p. p.submissions) s.per_widget ≡ s.total_submissions)
      × (s.submissions_last_24h ≤ s.submissions_last_7_days)
      × (s.submissions_last_7_days ≤ s.total_submissions)
      × (s.active_widgets ≤ s.total_widgets)
Reachable-summary owner e enforces {t = t} reached o sorts now tenant_id =
    summary_totals o now tenant_id t sorts (Reachable-HasOwner owner e enforces reached)
