-- ===== src/Integrity/Cascade.antt =====
-- Deleting a widget with what refers to it, under the constraints of the migration.
use flyrank_capstone_lead_ca.Prelude.{
  ℕ, ◌≡◌, refl, Bool, true, false, not, Option, none, some, List, [], ◌∷◌, where_, all, nat_eq,
  arith,
}
use flyrank_capstone_lead_ca.Models.{Widget, Submission, Tables}
use flyrank_capstone_lead_ca.Session.{drop_widget, apply, names_widget, of_widget}
use flyrank_capstone_lead_ca.Migrations.Constraints.{is_consistent-where}
use flyrank_capstone_lead_ca.Integrity.{
  fits_widget, widgets_apart, fits_submission, submissions_apart, fits_event, events_apart,
  fits_spam, spam_apart, has_widget, has_submission, or_null, refers_widget, refers_submission,
  refers_event, refers_spam, Integrity,
}
use flyrank_capstone_lead_ca.Integrity.Keeping.{any-where, all-where}

-- A submission that an event keeps when a widget goes is not one of the widget's, and stays.
has_submission-where :
    (id k : ℕ) (rs : List Submission)
    → of_widget id rs (some k) ≡ false
    → has_submission rs k ≡ true
    → has_submission (where_ (λ r. not (nat_eq r.widget_id id)) rs) k ≡ true
unfolding where_
has_submission-where id k [] h n = absurd (cc)
has_submission-where id k (r ∷ rs) h n = ground (arith, has_submission-where id k rs)

all-where_mono :
    {A : Type 0} (p q q' : A → Bool) (rs : List A)
    → ((r : A) → p r ≡ true → q r ≡ true → q' r ≡ true)
    → all q rs ≡ true
    → all q' (where_ p rs) ≡ true
unfolding where_
all-where_mono p q q' [] f h = refl
all-where_mono p q q' (x ∷ rs) f h = ground (arith, all-where_mono p q q' rs f, f x)

has_widget-where :
    (ws : List Widget) (id k : ℕ)
    → nat_eq k id ≡ false
    → has_widget ws k ≡ true
    → has_widget (where_ (λ w. not (nat_eq w.id id)) ws) k ≡ true
has_widget-where ws id k other h =
    any-where (λ (w : Widget). not (nat_eq w.id id)) (λ w. nat_eq w.id k) ws (λ w. ground arith) h

refers_event-where :
    (id : ℕ) (ss : List Submission) (o : Option ℕ)
    → not (of_widget id ss o) ≡ true
    → or_null (has_submission ss) o ≡ true
    → or_null (has_submission (where_ (λ r. not (nat_eq r.widget_id id)) ss)) o ≡ true
refers_event-where id ss none h n = refl
refers_event-where id ss (some k) h n = has_submission-where id k ss (ground arith) n

refers_spam-where :
    (id : ℕ) (ws : List Widget) (o : Option ℕ)
    → not (names_widget id o) ≡ true
    → or_null (has_widget ws) o ≡ true
    → or_null (has_widget (where_ (λ w. not (nat_eq w.id id)) ws)) o ≡ true
refers_spam-where id ws none h n = refl
refers_spam-where id ws (some k) h n = has_widget-where ws id k (ground arith) n

-- The cascade of the deletion leaves no reference without its row.
pub drop_widget-Integrity :
    (t : Tables) (id : ℕ) → Integrity t → Integrity (apply t (drop_widget id))
unfolding apply
drop_widget-Integrity t id h = record {
  tenants = h.tenants;
  widgets = is_consistent-where fits_widget widgets_apart _ t.widgets h.widgets;
  submissions = is_consistent-where fits_submission submissions_apart _ t.submissions h.submissions;
  outbox_events = is_consistent-where fits_event events_apart _ t.outbox_events h.outbox_events;
  spam_events = is_consistent-where fits_spam spam_apart _ t.spam_events h.spam_events;
  widgets_refer = all-where _ (refers_widget t.tenants) t.widgets h.widgets_refer;
  submissions_refer =
      all-where_mono _ (refers_submission t.widgets t.tenants) _ t.submissions
        (λ r. ground (arith, has_widget-where t.widgets id r.widget_id)) h.submissions_refer;
  outbox_events_refer =
      all-where_mono _ (refers_event t.submissions) _ t.outbox_events
        (λ r. refers_event-where id t.submissions r.submission_id) h.outbox_events_refer;
  spam_events_refer =
      all-where_mono _ (refers_spam t.widgets t.tenants) _ t.spam_events
        (λ r p q. ground (arith, refers_spam-where id t.widgets r.widget_id)) h.spam_events_refer;
}
