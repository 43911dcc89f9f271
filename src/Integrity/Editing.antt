-- ===== src/Integrity/Editing.antt =====
-- The writes of accounts and widgets (app/routers/auth.py, app/services/widget_service.py) on tables
-- under the constraints of the migration.
use flyrank_capstone_lead_ca.Prelude.{◌≡◌, true, nat_eq, arith}
use flyrank_capstone_lead_ca.Models.{Tenant, Widget, Tables}
use flyrank_capstone_lead_ca.Session.{add_tenant, add_widget, set_widget, apply, replace_widget}
use flyrank_capstone_lead_ca.Migrations.Constraints.{is_consistent-append, is_consistent-map}
use flyrank_capstone_lead_ca.Integrity.{
  fits_tenant, tenants_apart, fits_widget, widgets_apart, refers_widget, Integrity, satisfies,
}
use flyrank_capstone_lead_ca.Integrity.Keeping.{
  all_snoc, any_snoc, any-map, all-map, Keeps, Refers-Keeps, tenants_apart_sym, widgets_apart_sym,
  widget_identity,
}

pub add_tenant-Integrity :
    (t : Tables) (r : Tenant)
    → Integrity t
    → satisfies t (add_tenant r) ≡ true
    → Integrity (apply t (add_tenant r))
unfolding satisfies apply
add_tenant-Integrity t r h k =
    let keeps : Keeps t (apply t (add_tenant r)) = record {
      tenants = λ id. any_snoc (λ (x : Tenant). nat_eq x.id id) r t.tenants;
      widgets = λ id known. known;
      submissions = λ id known. known;
    } in
    let refers = Refers-Keeps t (apply t (add_tenant r)) keeps h in
    record {
      tenants =
          is_consistent-append fits_tenant tenants_apart tenants_apart_sym r t.tenants h.tenants
            (ground arith) (ground arith);
      widgets = h.widgets;
      submissions = h.submissions;
      outbox_events = h.outbox_events;
      spam_events = h.spam_events;
      widgets_refer = refers.widgets;
      submissions_refer = refers.submissions;
      outbox_events_refer = refers.outbox_events;
      spam_events_refer = refers.spam_events;
    }

pub add_widget-Integrity :
    (t : Tables) (r : Widget)
    → Integrity t
    → satisfies t (add_widget r) ≡ true
    → Integrity (apply t (add_widget r))
unfolding satisfies apply
add_widget-Integrity t r h k =
    let keeps : Keeps t (apply t (add_widget r)) = record {
      tenants = λ id known. known;
      widgets = λ id. any_snoc (λ (x : Widget). nat_eq x.id id) r t.widgets;
      submissions = λ id known. known;
    } in
    let refers = Refers-Keeps t (apply t (add_widget r)) keeps h in
    record {
      tenants = h.tenants;
      widgets =
          is_consistent-append fits_widget widgets_apart widgets_apart_sym r t.widgets h.widgets
            (ground arith) (ground arith);
      submissions = h.submissions;
      outbox_events = h.outbox_events;
      spam_events = h.spam_events;
      widgets_refer = all_snoc (refers_widget t.tenants) r t.widgets refers.widgets (ground arith);
      submissions_refer = refers.submissions;
      outbox_events_refer = refers.outbox_events;
      spam_events_refer = refers.spam_events;
    }

pub set_widget-Integrity :
    (t : Tables) (r : Widget)
    → Integrity t
    → satisfies t (set_widget r) ≡ true
    → Integrity (apply t (set_widget r))
unfolding satisfies apply
set_widget-Integrity t r h k =
    let keeps : Keeps t (apply t (set_widget r)) = record {
      tenants = λ id known. known;
      widgets = λ id.
          any-map (replace_widget r) (λ (x : Widget). nat_eq x.id id) t.widgets (λ x. ground arith);
      submissions = λ id known. known;
    } in
    let refers = Refers-Keeps t (apply t (set_widget r)) keeps h in
    record {
      tenants = h.tenants;
      widgets =
          is_consistent-map fits_widget widgets_apart widgets_apart_sym (λ b. b.id) widget_identity
            r t.widgets h.widgets (ground arith) (ground arith);
      submissions = h.submissions;
      outbox_events = h.outbox_events;
      spam_events = h.spam_events;
      widgets_refer =
          all-map (replace_widget r) (refers_widget t.tenants) t.widgets (λ x. ground arith)
            refers.widgets;
      submissions_refer = refers.submissions;
      outbox_events_refer = refers.outbox_events;
      spam_events_refer = refers.spam_events;
    }
