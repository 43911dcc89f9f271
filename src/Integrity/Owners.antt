-- ===== src/Integrity/Owners.antt =====
-- Submissions and the tenants of their widgets (app/models.py): the column `tenant_id` of a
-- submission repeats that of its widget, which no constraint of the database says.
use flyrank_capstone_lead_ca.Prelude.{
  ℕ, ◌≡◌, refl, sym, ap, ◌∙◌, true, not, List, [], ◌∷◌, map, All, All-append, all, where_, nat_eq,
  arith, Bool-cases, inl, inr, All-where_,
}
use flyrank_capstone_lead_ca.Models.{Tenant, Widget, Submission, Tables}
use flyrank_capstone_lead_ca.Session.{
  Write, add_tenant, add_widget, set_widget, drop_widget, add_submission, add_event, set_event,
  add_spam, Engine, apply, replace_widget,
}
use flyrank_capstone_lead_ca.Widgets.{updated}
use flyrank_capstone_lead_ca.Dashboard.Totals.{HasOwner}
use flyrank_capstone_lead_ca.Migrations.Constraints.{is_consistent}
use flyrank_capstone_lead_ca.Invariant.{Invariant}
use flyrank_capstone_lead_ca.Invariant.Reachable.{Reachable, Reachable-Holds}
use flyrank_capstone_lead_ca.Integrity.{
  Integrity, Enforces, refers_submission, fits_widget, widgets_apart, has_widget,
}
use flyrank_capstone_lead_ca.Integrity.Keeping.{widget_identity}
use flyrank_capstone_lead_ca.Integrity.Applying.{apply-Integrity}
use flyrank_capstone_lead_ca.Integrity.Reachable.{no_rows-Integrity}

-- `owner` gives the tenant for which a widget's id was drawn.
module _ (owner : ℕ → ℕ) where
  abbrev WidgetOwned : Widget → Type 0
  WidgetOwned w = owner w.id ≡ w.tenant_id

  abbrev SubmissionOwned : Submission → Type 0
  SubmissionOwned r = owner r.widget_id ≡ r.tenant_id

  record Owned (t : Tables) : Type 0 where
    widgets : All WidgetOwned t.widgets
    submissions : All SubmissionOwned t.submissions

  abbrev Fair : Write → Type 0
  Fair (add_tenant r) = Unit
  Fair (add_widget w) = WidgetOwned w
  Fair (set_widget w) = WidgetOwned w
  Fair (drop_widget id) = Unit
  Fair (add_submission r) = SubmissionOwned r
  Fair (add_event r) = Unit
  Fair (set_event r) = Unit
  Fair (add_spam r) = Unit

  All-replaced :
      (new : Widget) (ws : List Widget)
      → WidgetOwned new
      → All WidgetOwned ws
      → All WidgetOwned (map (replace_widget new) ws)
  All-replaced new [] n h = tt
  All-replaced new (w ∷ ws) n h = elim (Bool-cases (nat_eq w.id new.id)) [
    | inl e ↦ rw e (n, All-replaced new ws n h.1)
    | inr e ↦ rw e (h.0, All-replaced new ws n h.1)
  ]

  apply-Owned : (t : Tables) (w : Write) → Owned t → Fair w → Owned (apply t w)
  unfolding apply
  apply-Owned t (add_tenant r) h f = record { widgets = h.widgets; submissions = h.submissions }
  apply-Owned t (add_widget w) h f = record {
    widgets = All-append WidgetOwned t.widgets (w ∷ []) h.widgets (f, tt);
    submissions = h.submissions;
  }
  apply-Owned t (set_widget w) h f = record {
    widgets = All-replaced w t.widgets f h.widgets;
    submissions = h.submissions;
  }
  apply-Owned t (drop_widget id) h f = record {
    widgets = All-where_ WidgetOwned (λ w. not (nat_eq w.id id)) t.widgets h.widgets;
    submissions =
        All-where_ SubmissionOwned (λ r. not (nat_eq r.widget_id id)) t.submissions h.submissions;
  }
  apply-Owned t (add_submission r) h f = record {
    widgets = h.widgets;
    submissions = All-append SubmissionOwned t.submissions (r ∷ []) h.submissions (f, tt);
  }
  apply-Owned t (add_event r) h f = record { widgets = h.widgets; submissions = h.submissions }
  apply-Owned t (set_event r) h f = record { widgets = h.widgets; submissions = h.submissions }
  apply-Owned t (add_spam r) h f = record { widgets = h.widgets; submissions = h.submissions }

  abbrev ownership : (e : Engine) → Enforces e → Invariant e
  ownership e enforces = record {
    holds = λ t. Integrity t × Owned t;
    allows = Fair;
    knows = WidgetOwned;
    lawful = λ id tenant_id. owner id ≡ tenant_id;
    step = λ t w h a n. (apply-Integrity t w h.0 (enforces.accepted t w n), apply-Owned t w h.1 a);
    known = λ t h. h.1.widgets;
    allows_tenant = λ r. tt;
    allows_widget = λ id now tenant_id public_id p law. law;
    allows_update = λ now p w k. unfold updated in k;
    allows_drop = λ id. tt;
    allows_submission =
        λ w r k same_widget same_tenant. ap owner same_widget ∙ (k ∙ sym same_tenant);
    allows_event = λ r. tt;
    allows_outcome = λ r. tt;
    allows_spam = λ r. tt;
  }

-- No widget after one has its id.
where-others :
    (a : Widget) (k : ℕ) (ws : List Widget)
    → nat_eq a.id k ≡ true
    → all (widgets_apart a) ws ≡ true
    → where_ (λ w. nat_eq w.id k) ws ≡ []
unfolding where_
where-others a k [] e h = refl
where-others a k (w ∷ ws) e h = ground (arith, widget_identity a w, where-others a k ws)

-- In a table that keeps its constraints, an id that is there is one widget's.
only_widget :
    (Q : Widget → Type 0) (k : ℕ) (ws : List Widget)
    → is_consistent fits_widget widgets_apart ws ≡ true
    → has_widget ws k ≡ true
    → All Q ws
    → (w : Widget) × (where_ (λ v. nat_eq v.id k) ws ≡ w ∷ []) × (nat_eq w.id k ≡ true) × Q w
unfolding where_ is_consistent
only_widget Q k [] c h q = absurd (cc)
only_widget Q k (w ∷ ws) c h q = elim (Bool-cases (nat_eq w.id k)) [
  | inl e ↦ (w, rw (e, where-others w k ws e (ground arith)) refl, e, q.0)
  | inr e ↦
      let (v, only, same, r) = only_widget Q k ws (ground arith) (rw e at h) q.1 in
      (v, rw (e, only) refl, same, r)
]

All-HasOwner :
    (owner : ℕ → ℕ) (ws : List Widget) (ts : List Tenant) (rs : List Submission)
    → is_consistent fits_widget widgets_apart ws ≡ true
    → All (WidgetOwned owner) ws
    → all (refers_submission ws ts) rs ≡ true
    → All (SubmissionOwned owner) rs
    → All (HasOwner ws) rs
All-HasOwner owner ws ts [] c q k h = tt
All-HasOwner owner ws ts (r ∷ rs) c q k h =
    let (w, only, same, owned) =
      only_widget (WidgetOwned owner) r.widget_id ws c (ground arith) q in
    let named : w.id ≡ r.widget_id = ground arith in
    (
      (w, only, sym owned ∙ (ap owner named ∙ h.0)),
      All-HasOwner owner ws ts rs c q (ground arith) h.1,
    )

-- Where the engine refuses every write that breaks a constraint of the migration, and a widget's id
-- is drawn for one tenant only: in all tables that the application's requests and its worker can
-- lead to, every submission names exactly one widget, and has that widget's tenant.
pub Reachable-HasOwner :
    (owner : ℕ → ℕ) (e : Engine)
    → Enforces e
    → {t : Tables} → Reachable e (λ id tenant_id. owner id ≡ tenant_id) t
    → All (HasOwner t.widgets) t.submissions
Reachable-HasOwner owner e enforces {t = t} reached =
    let (whole, owned) =
      Reachable-Holds e (ownership owner e enforces) (λ any_id w. any_id w.id w.tenant_id)
        (no_rows-Integrity, record { widgets = tt; submissions = tt }) reached in
    All-HasOwner owner t.widgets t.tenants t.submissions whole.widgets owned.widgets
      whole.submissions_refer owned.submissions
