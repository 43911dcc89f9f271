-- ===== src/Integrity/Reachable.antt =====
-- The constraints of migrations/versions/0001_initial_schema.py over time.
use flyrank_capstone_lead_ca.Prelude.{refl, List, [], ◌∷◌, All}
use flyrank_capstone_lead_ca.Models.{Widget, Tables}
use flyrank_capstone_lead_ca.Session.{Engine}
use flyrank_capstone_lead_ca.Migrations.Constraints.{is_consistent}
use flyrank_capstone_lead_ca.Invariant.{Invariant}
use flyrank_capstone_lead_ca.Invariant.Reachable.{no_rows, Reachable, Reachable-Holds}
use flyrank_capstone_lead_ca.Integrity.{Integrity, Enforces}
use flyrank_capstone_lead_ca.Integrity.Applying.{apply-Integrity}

pub no_rows-Integrity : Integrity no_rows
unfolding is_consistent
no_rows-Integrity = record {
  tenants = refl;
  widgets = refl;
  submissions = refl;
  outbox_events = refl;
  spam_events = refl;
  widgets_refer = refl;
  submissions_refer = refl;
  outbox_events_refer = refl;
  spam_events_refer = refl;
}

All-Unit : (rows : List Widget) → All (λ w. Unit {0}) rows
All-Unit [] = tt
All-Unit (w ∷ rows) = (tt, All-Unit rows)

-- The engine's refusals are what keeps the constraints: nothing is needed of a write or of a widget.
abbrev constraints : (e : Engine) → Enforces e → Invariant e
constraints e enforces = record {
  holds = Integrity;
  allows = λ w. Unit;
  knows = λ w. Unit;
  lawful = λ id tenant_id. Unit;
  step = λ t w h a n. apply-Integrity t w h (enforces.accepted t w n);
  known = λ t h. All-Unit t.widgets;
  allows_tenant = λ r. tt;
  allows_widget = λ id now tenant_id public_id p law. tt;
  allows_update = λ now p w k. tt;
  allows_drop = λ id. tt;
  allows_submission = λ w r k same_widget same_tenant. tt;
  allows_event = λ r. tt;
  allows_outcome = λ r. tt;
  allows_spam = λ r. tt;
}

-- Where the engine refuses every write that breaks a constraint of the migration, all tables that
-- registrations, the editing of widgets, submissions, batches of the worker and the seed script can
-- lead to, whatever ids are drawn, keep every constraint: each row fits its columns, keys are
-- unique, and every reference leads to a row.
pub Reachable-Integrity :
    (e : Engine) → Enforces e → {t : Tables} → Reachable e (λ id tenant_id. Unit) t → Integrity t
Reachable-Integrity e enforces r =
    Reachable-Holds e (constraints e enforces) (λ any_id w. tt) no_rows-Integrity r
