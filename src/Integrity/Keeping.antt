-- ===== src/Integrity/Keeping.antt =====
-- References between the tables of app/models.py when rows are added, replaced and deleted.
use flyrank_capstone_lead_ca.Prelude.{
  all_mono, ℕ, ◌≡◌, refl, Bool, true, false, Option, none, some, List, [], ◌∷◌, ◌++◌, map, where_,
  any, all, nat_eq, arith,
}
use flyrank_capstone_lead_ca.Models.{Tenant, Widget, Submission, OutboxEvent, SpamEvent, Tables}
use flyrank_capstone_lead_ca.Migrations.{
  tenants_columns, widgets_columns, submissions_columns, outbox_events_columns, spam_events_columns,
}
use flyrank_capstone_lead_ca.Migrations.Rows.{
  tenant_row, widget_row, submission_row, outbox_event_row, spam_event_row,
}
use flyrank_capstone_lead_ca.Migrations.Constraints.{apart_sym}
use flyrank_capstone_lead_ca.Integrity.{
  keys_of, tenants_apart, widgets_apart, submissions_apart, events_apart, spam_apart, has_tenant,
  has_widget, has_submission, or_null, refers_widget, refers_submission, refers_event, refers_spam,
  Integrity,
}

pub all_snoc :
    {A : Type 0} (p : A → Bool) (r : A) (rs : List A)
    → all p rs ≡ true
    → p r ≡ true
    → all p (rs ++ r ∷ []) ≡ true
all_snoc p r [] h k = ground arith
all_snoc p r (x ∷ rs) h k = ground (arith, all_snoc p r rs)

pub any_snoc :
    {A : Type 0} (p : A → Bool) (r : A) (rs : List A)
    → any p rs ≡ true
    → any p (rs ++ r ∷ []) ≡ true
any_snoc p r [] h = absurd (cc)
any_snoc p r (x ∷ rs) h = ground (arith, any_snoc p r rs)

pub any-where :
    {A : Type 0} (p q : A → Bool) (rs : List A)
    → ((r : A) → q r ≡ true → p r ≡ true)
    → any q rs ≡ true
    → any q (where_ p rs) ≡ true
unfolding where_
any-where p q [] f h = absurd (cc)
any-where p q (x ∷ rs) f h = ground (arith, any-where p q rs f, f x)

pub any-map :
    {A : Type 0} (f : A → A) (q : A → Bool) (rs : List A)
    → ((r : A) → q r ≡ true → q (f r) ≡ true)
    → any q rs ≡ true
    → any q (map f rs) ≡ true
any-map f q [] h k = absurd (cc)
any-map f q (x ∷ rs) h k = ground (arith, any-map f q rs h, h x)

pub all-map :
    {A : Type 0} (f : A → A) (p : A → Bool) (rs : List A)
    → ((r : A) → p r ≡ true → p (f r) ≡ true)
    → all p rs ≡ true
    → all p (map f rs) ≡ true
all-map f p [] h k = refl
all-map f p (x ∷ rs) h k = ground (arith, all-map f p rs h, h x)

pub all-where :
    {A : Type 0} (p q : A → Bool) (rs : List A) → all q rs ≡ true → all q (where_ p rs) ≡ true
unfolding where_
all-where p q [] h = refl
all-where p q (x ∷ rs) h = ground (arith, all-where p q rs)

or_null_mono :
    (f g : ℕ → Bool) (o : Option ℕ)
    → ((id : ℕ) → f id ≡ true → g id ≡ true)
    → or_null f o ≡ true
    → or_null g o ≡ true
or_null_mono f g none m h = refl
or_null_mono f g (some id) m h = m id h

-- The rows that can be referred to are still there.
pub record Keeps (t t' : Tables) : Type 0 where
  pub tenants : (id : ℕ) → has_tenant t.tenants id ≡ true → has_tenant t'.tenants id ≡ true
  pub widgets : (id : ℕ) → has_widget t.widgets id ≡ true → has_widget t'.widgets id ≡ true
  pub submissions :
      (id : ℕ) → has_submission t.submissions id ≡ true → has_submission t'.submissions id ≡ true

-- The references of the rows of some tables, to the rows of others.
pub record Refers (t t' : Tables) : Type 0 where
  pub widgets : all (refers_widget t'.tenants) t.widgets ≡ true
  pub submissions : all (refers_submission t'.widgets t'.tenants) t.submissions ≡ true
  pub outbox_events : all (refers_event t'.submissions) t.outbox_events ≡ true
  pub spam_events : all (refers_spam t'.widgets t'.tenants) t.spam_events ≡ true

pub Refers-Keeps : (t t' : Tables) → Keeps t t' → Integrity t → Refers t t'
Refers-Keeps t t' k h = record {
  widgets = all_mono _ _ t.widgets (λ r. k.tenants r.tenant_id) h.widgets_refer;
  submissions =
      all_mono _ _ t.submissions (λ r. ground (arith, k.widgets r.widget_id, k.tenants r.tenant_id))
        h.submissions_refer;
  outbox_events =
      all_mono _ _ t.outbox_events (λ r. or_null_mono _ _ r.submission_id k.submissions)
        h.outbox_events_refer;
  spam_events =
      all_mono _ _ t.spam_events
        (λ r. ground (
          arith,
          or_null_mono (has_widget t.widgets) (has_widget t'.widgets) r.widget_id k.widgets,
          or_null_mono (has_tenant t.tenants) (has_tenant t'.tenants) r.tenant_id k.tenants,
        ))
        h.spam_events_refer;
}

pub tenants_apart_sym : (a b : Tenant) → tenants_apart a b ≡ tenants_apart b a
unfolding tenants_apart
tenants_apart_sym = apart_sym tenant_row tenants_columns (keys_of "tenants")

pub widgets_apart_sym : (a b : Widget) → widgets_apart a b ≡ widgets_apart b a
unfolding widgets_apart
widgets_apart_sym = apart_sym widget_row widgets_columns (keys_of "widgets")

pub submissions_apart_sym : (a b : Submission) → submissions_apart a b ≡ submissions_apart b a
unfolding submissions_apart
submissions_apart_sym = apart_sym submission_row submissions_columns (keys_of "submissions")

pub events_apart_sym : (a b : OutboxEvent) → events_apart a b ≡ events_apart b a
unfolding events_apart
events_apart_sym = apart_sym outbox_event_row outbox_events_columns (keys_of "outbox_events")

pub spam_apart_sym : (a b : SpamEvent) → spam_apart a b ≡ spam_apart b a
unfolding spam_apart
spam_apart_sym = apart_sym spam_event_row spam_events_columns (keys_of "spam_events")

pub widget_identity : (a b : Widget) → widgets_apart a b ≡ true → nat_eq a.id b.id ≡ false
unfolding widgets_apart
widget_identity a b h = ground arith

pub event_identity : (a b : OutboxEvent) → events_apart a b ≡ true → nat_eq a.id b.id ≡ false
unfolding events_apart
event_identity a b h = ground arith
