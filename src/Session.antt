-- ===== src/Session.antt =====
-- app/db.py: a request's session, with what the services do with it. Tables are lists of rows, and
-- a statement reads the rows that the session's transaction sees. What is added is pending until a
-- flush writes it; whether the database accepts a write is the engine's answer, a parameter.
use flyrank_capstone_lead_ca.Prelude.{
  ℕ, Bool, true, false, Option, none, some, List, [], ◌∷◌, ◌++◌, map, nat_eq, not, where_,
  if◌then◌else◌,
}
use flyrank_capstone_lead_ca.Errors.{Error, uncaught, Exception, Result, ok, err, multiple_results}
use flyrank_capstone_lead_ca.Models.{Tenant, Widget, Submission, OutboxEvent, SpamEvent, Tables}

-- One row written.
pub data Write : Type 0 where
  add_tenant : Tenant → Write
  add_widget : Widget → Write
  set_widget : Widget → Write
  drop_widget : ℕ → Write
  add_submission : Submission → Write
  add_event : OutboxEvent → Write
  set_event : OutboxEvent → Write
  add_spam : SpamEvent → Write

-- The answer of the database to a write, on the rows that are there: the exception that it raises.
pub record Engine : Type 0 where
  pub refusal : Tables → Write → Option Exception
  -- The exception for a row that has null in a column declared NOT NULL: it is never written.
  pub null_refusal : Tables → Exception

abbrev pub replace_widget : Widget → Widget → Widget
replace_widget new old = if nat_eq old.id new.id then new else old

abbrev pub replace_event : OutboxEvent → OutboxEvent → OutboxEvent
replace_event new old = if nat_eq old.id new.id then new else old

abbrev pub names_widget : ℕ → Option ℕ → Bool
names_widget id none = false
names_widget id (some w) = nat_eq w id

-- Is the event's submission one of the widget's?
abbrev pub of_widget : ℕ → List Submission → Option ℕ → Bool
of_widget id [] s = false
of_widget id (r ∷ rs) s =
    let rest = of_widget id rs s in
    if nat_eq r.widget_id id then (if names_widget r.id s then true else rest) else rest

-- The tables after an accepted write. Deleting a widget deletes what refers to it: the foreign keys
-- of submissions, spam events and (through the submissions) outbox events say `ON DELETE CASCADE`.
unfoldable pub apply : Tables → Write → Tables
apply t (add_tenant r) = record t { tenants = t.tenants ++ r ∷ [] }
apply t (add_widget r) = record t { widgets = t.widgets ++ r ∷ [] }
apply t (set_widget r) = record t { widgets = map (replace_widget r) t.widgets }
apply t (drop_widget id) = record {
  tenants = t.tenants;
  widgets = where_ (λ r. not (nat_eq r.id id)) t.widgets;
  submissions = where_ (λ r. not (nat_eq r.widget_id id)) t.submissions;
  outbox_events = where_ (λ r. not (of_widget id t.submissions r.submission_id)) t.outbox_events;
  spam_events = where_ (λ r. not (names_widget id r.widget_id)) t.spam_events;
}
apply t (add_submission r) = record t { submissions = t.submissions ++ r ∷ [] }
apply t (add_event r) = record t { outbox_events = t.outbox_events ++ r ∷ [] }
apply t (set_event r) = record t { outbox_events = map (replace_event r) t.outbox_events }
apply t (add_spam r) = record t { spam_events = t.spam_events ++ r ∷ [] }

-- `saved` is what other sessions see, `seen` what this transaction sees, `pending` what was added
-- and is not flushed.
pub record Session : Type 0 where
  pub saved : Tables
  pub seen : Tables
  pub pending : List Write

abbrev pub opened : Tables → Session
opened t = record { saved = t; seen = t; pending = [] }

-- A call that uses the session and may raise. What it did before raising stays done.
abbrev pub Action : Type 0 → Type 0
Action A = Session → Result A × Session

abbrev pub pure : {A : Type 0} → A → Action A
pure a s = (ok a, s)

abbrev pub raise : {A : Type 0} → Error → Action A
raise e s = (err e, s)

abbrev pub lift : {A : Type 0} → Result A → Action A
lift r s = (r, s)

abbrev pub raise_when : Bool → Error → Action (Unit {0})
raise_when b e s = (if b then err e else ok tt, s)

abbrev pub continue : {A B : Type 0} → Result A → (A → Action B) → Action B
continue (ok a) f s = f a s
continue (err e) f s = (err e, s)

infixl 5 ◌>>=◌ ◌>>◌
abbrev pub ◌>>=◌ : {A B : Type 0} → Action A → (A → Action B) → Action B
◌>>=◌ m f s = let (r, s') = m s in continue r f s'

abbrev pub ◌>>◌ : {A B : Type 0} → Action A → Action B → Action B
m >> k = m >>= λ _. k

-- A `select` executed in the session.
abbrev pub select : {A : Type 0} → (Tables → A) → Action A
select query s = (ok (query s.seen), s)

abbrev pub add : Write → Action (Unit {0})
add w s = (ok tt, record s { pending = s.pending ++ w ∷ [] })

module _ (e : Engine) where
  -- The pending writes in their order, up to the first that is refused.
  unfoldable pub write_all : List Write → Tables → Result Tables
  write_all [] t = ok t
  write_all (w ∷ ws) t = elim (e.refusal t w) [
    | none ↦ write_all ws (apply t w)
    | some x ↦ err (uncaught x)
  ]

  -- `db.flush()`
  unfoldable pub flush : Action (Unit {0})
  flush s = elim (write_all s.pending s.seen) [
    | ok t ↦ (ok tt, record s { seen = t; pending = [] })
    | err x ↦ (err x, s)
  ]

  -- `db.commit()` flushes, and then everybody sees what the transaction wrote.
  unfoldable pub commit : Action (Unit {0})
  commit s = elim (write_all s.pending s.seen) [
    | ok t ↦ (ok tt, record { saved = t; seen = t; pending = [] })
    | err x ↦ (err x, s)
  ]

-- `db.rollback()`
abbrev pub rollback : Action (Unit {0})
rollback s = (ok tt, record { saved = s.saved; seen = s.saved; pending = [] })

-- `scalar_one_or_none()`, which raises on more than one row
abbrev pub scalar_one_or_none : {A : Type 0} → List A → Result (Option A)
scalar_one_or_none [] = ok none
scalar_one_or_none (r ∷ []) = ok (some r)
scalar_one_or_none (r ∷ r' ∷ rs) = err (uncaught multiple_results)
