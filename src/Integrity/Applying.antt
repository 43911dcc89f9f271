-- ===== src/Integrity/Applying.antt =====
-- Each write of app/db.py's sessions on tables under the constraints of the migration.
use flyrank_capstone_lead_ca.Prelude.{◌≡◌, refl, Bool, true, false, ◌&&◌, nat_eq, arith}
use flyrank_capstone_lead_ca.Models.{Submission, OutboxEvent, SpamEvent, Tables}
use flyrank_capstone_lead_ca.Session.{
  Write, add_tenant, add_widget, set_widget, drop_widget, add_submission, add_event, set_event,
  add_spam, apply, replace_event,
}
use flyrank_capstone_lead_ca.Migrations.Constraints.{is_consistent-append, is_consistent-map}
use flyrank_capstone_lead_ca.Integrity.{
  fits_submission, submissions_apart, fits_event, events_apart, fits_spam, spam_apart,
  refers_submission, refers_event, refers_spam, Integrity, satisfies,
}
use flyrank_capstone_lead_ca.Integrity.Keeping.{
  all_snoc, any_snoc, all-map, Keeps, Refers-Keeps, submissions_apart_sym, events_apart_sym,
  spam_apart_sym, event_identity,
}
use flyrank_capstone_lead_ca.Integrity.Cascade.{drop_widget-Integrity}
use flyrank_capstone_lead_ca.Integrity.Editing.{
  add_tenant-Integrity, add_widget-Integrity, set_widget-Integrity,
}

pub and_parts : (a b c : Bool) → (a && b && c) ≡ true → (a ≡ true) × ((b ≡ true) × (c ≡ true))
and_parts true true true h = (refl, (refl, refl))
and_parts true true false h = absurd (cc)
and_parts true false c h = absurd (cc)
and_parts false b c h = absurd (cc)

add_submission-Integrity :
    (t : Tables) (r : Submission)
    → Integrity t
    → satisfies t (add_submission r) ≡ true
    → Integrity (apply t (add_submission r))
unfolding satisfies apply
add_submission-Integrity t r h k =
    let (fit, (new, known)) = and_parts _ _ _ k in
    let keeps : Keeps t (apply t (add_submission r)) = record {
      tenants = λ id known. known;
      widgets = λ id known. known;
      submissions = λ id. any_snoc (λ (x : Submission). nat_eq x.id id) r t.submissions;
    } in
    let refers = Refers-Keeps t (apply t (add_submission r)) keeps h in
    record {
      tenants = h.tenants;
      widgets = h.widgets;
      submissions =
          is_consistent-append fits_submission submissions_apart submissions_apart_sym r
            t.submissions h.submissions fit new;
      outbox_events = h.outbox_events;
      spam_events = h.spam_events;
      widgets_refer = refers.widgets;
      submissions_refer =
          all_snoc (refers_submission t.widgets t.tenants) r t.submissions refers.submissions known;
      outbox_events_refer = refers.outbox_events;
      spam_events_refer = refers.spam_events;
    }

add_event-Integrity :
    (t : Tables) (r : OutboxEvent)
    → Integrity t
    → satisfies t (add_event r) ≡ true
    → Integrity (apply t (add_event r))
unfolding satisfies apply
add_event-Integrity t r h k =
    let keeps : Keeps t (apply t (add_event r)) = record {
      tenants = λ id known. known;
      widgets = λ id known. known;
      submissions = λ id known. known;
    } in
    let refers = Refers-Keeps t (apply t (add_event r)) keeps h in
    record {
      tenants = h.tenants;
      widgets = h.widgets;
      submissions = h.submissions;
      outbox_events =
          is_consistent-append fits_event events_apart events_apart_sym r t.outbox_events
            h.outbox_events (ground arith) (ground arith);
      spam_events = h.spam_events;
      widgets_refer = refers.widgets;
      submissions_refer = refers.submissions;
      outbox_events_refer =
          all_snoc (refers_event t.submissions) r t.outbox_events refers.outbox_events
            (ground arith);
      spam_events_refer = refers.spam_events;
    }

set_event-Integrity :
    (t : Tables) (r : OutboxEvent)
    → Integrity t
    → satisfies t (set_event r) ≡ true
    → Integrity (apply t (set_event r))
unfolding satisfies apply
set_event-Integrity t r h k =
    let keeps : Keeps t (apply t (set_event r)) = record {
      tenants = λ id known. known;
      widgets = λ id known. known;
      submissions = λ id known. known;
    } in
    let refers = Refers-Keeps t (apply t (set_event r)) keeps h in
    record {
      tenants = h.tenants;
      widgets = h.widgets;
      submissions = h.submissions;
      outbox_events =
          is_consistent-map fits_event events_apart events_apart_sym (λ b. b.id) event_identity r
            t.outbox_events h.outbox_events (ground arith) (ground arith);
      spam_events = h.spam_events;
      widgets_refer = refers.widgets;
      submissions_refer = refers.submissions;
      outbox_events_refer =
          all-map (replace_event r) (refers_event t.submissions) t.outbox_events (λ x. ground arith)
            refers.outbox_events;
      spam_events_refer = refers.spam_events;
    }

add_spam-Integrity :
    (t : Tables) (r : SpamEvent)
    → Integrity t
    → satisfies t (add_spam r) ≡ true
    → Integrity (apply t (add_spam r))
unfolding satisfies apply
add_spam-Integrity t r h k =
    let keeps : Keeps t (apply t (add_spam r)) = record {
      tenants = λ id known. known;
      widgets = λ id known. known;
      submissions = λ id known. known;
    } in
    let refers = Refers-Keeps t (apply t (add_spam r)) keeps h in
    record {
      tenants = h.tenants;
      widgets = h.widgets;
      submissions = h.submissions;
      outbox_events = h.outbox_events;
      spam_events =
          is_consistent-append fits_spam spam_apart spam_apart_sym r t.spam_events h.spam_events
            (ground arith) (ground arith);
      widgets_refer = refers.widgets;
      submissions_refer = refers.submissions;
      outbox_events_refer = refers.outbox_events;
      spam_events_refer =
          all_snoc (refers_spam t.widgets t.tenants) r t.spam_events refers.spam_events
            (ground arith);
    }

-- From tables that keep every constraint of the migration, a write that breaks none of them leads to
-- tables that keep every constraint, the deletion of a widget with its cascade included.
pub apply-Integrity :
    (t : Tables) (w : Write) → Integrity t → satisfies t w ≡ true → Integrity (apply t w)
apply-Integrity t (add_tenant r) h k = add_tenant-Integrity t r h k
apply-Integrity t (add_widget r) h k = add_widget-Integrity t r h k
apply-Integrity t (set_widget r) h k = set_widget-Integrity t r h k
apply-Integrity t (drop_widget id) h k = drop_widget-Integrity t id h
apply-Integrity t (add_submission r) h k = add_submission-Integrity t r h k
apply-Integrity t (add_event r) h k = add_event-Integrity t r h k
apply-Integrity t (set_event r) h k = set_event-Integrity t r h k
apply-Integrity t (add_spam r) h k = add_spam-Integrity t r h k
