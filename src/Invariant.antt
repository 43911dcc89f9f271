-- ===== src/Invariant.antt =====
-- Invariants of the database: what a call on a session (app/db.py) keeps of the tables, whatever it
-- returns or raises, and the parts that app/services and app/outbox put together.
pub mod Editing
pub mod Calls
pub mod Requests
pub mod Submitting
pub mod Seeding
pub mod Reachable
use flyrank_capstone_lead_ca.Prelude.{
  ℕ, ◌≡◌, ◌⊎◌, refl, String, Bool, true, false, Option, none, some, List, [], ◌∷◌, ◌++◌, inl, inr,
  Option-cases, All, All-append, if◌then◌else◌,
}
use mathlib.Core.Path.{subst}
use flyrank_capstone_lead_ca.Errors.{Result-cases, Error, Result, ok, err}
use flyrank_capstone_lead_ca.Models.{Tenant, Widget, Submission, OutboxEvent, SpamEvent, Tables}
use flyrank_capstone_lead_ca.Session.{
  Write, add_tenant, add_widget, set_widget, drop_widget, add_submission, add_event, set_event,
  add_spam, Engine, Session, Action, opened, pure, raise, lift, select, add, continue, write_all,
  flush, commit, rollback, apply, scalar_one_or_none, ◌>>=◌, ◌>>◌,
}
use flyrank_capstone_lead_ca.Schemas.{WidgetCreate, WidgetUpdate}
use flyrank_capstone_lead_ca.Widgets.{new_widget, updated}
use flyrank_capstone_lead_ca.Submissions.Create.{wait, resume, try_else}

-- A property of the tables that the accepted writes of some kind keep, and what it says of a widget.
-- The writes of the application are of the kind: a new widget's if its id is drawn lawfully, and the
-- others' as far as the widget that they come from is as the property says.
pub record Invariant (e : Engine) : Type 1 where
  pub holds : Tables → Type 0
  pub allows : Write → Type 0
  pub knows : Widget → Type 0
  pub lawful : ℕ → ℕ → Type 0
  pub step :
      (t : Tables) (w : Write) → holds t → allows w → e.refusal t w ≡ none → holds (apply t w)
  pub known : (t : Tables) → holds t → All knows t.widgets
  pub allows_tenant : (r : Tenant) → allows (add_tenant r)
  pub allows_widget :
      (id now tenant_id : ℕ) (public_id : String) (p : WidgetCreate)
      → lawful id tenant_id
      → allows (add_widget (new_widget id now tenant_id public_id p))
  pub allows_update :
      (now : ℕ) (p : WidgetUpdate) (w : Widget) → knows w → allows (set_widget (updated now p w))
  pub allows_drop : (id : ℕ) → allows (drop_widget id)
  pub allows_submission :
      (w : Widget) (r : Submission)
      → knows w
      → r.widget_id ≡ w.id
      → r.tenant_id ≡ w.tenant_id
      → allows (add_submission r)
  pub allows_event : (r : OutboxEvent) → allows (add_event r)
  pub allows_outcome : (r : OutboxEvent) → allows (set_event r)
  pub allows_spam : (r : SpamEvent) → allows (add_spam r)

-- What is returned, if something is.
abbrev pub OnOk : {A : Type 0} → (A → Type 0) → Result A → Type 0
OnOk Q (ok a) = Q a
OnOk Q (err x) = Unit

abbrev pub OnSome : {A : Type 0} → (A → Type 0) → Option A → Type 0
OnSome Q none = Unit
OnSome Q (some a) = Q a

abbrev pub Anything : {A : Type 0} → A → Type 0
Anything a = Unit

module _ {e : Engine} (i : Invariant e) where
  -- What is saved and what the transaction sees are as the invariant says, and what is pending is of
  -- its kind.
  pub record Sound (z : Session) : Type 0 where
    pub saved : i.holds z.saved
    pub seen : i.holds z.seen
    pub pending : All i.allows z.pending

  -- Whatever the call returns or raises, it leaves such a session; and what it returns has `Q`.
  unfoldable pub Ensures : {A : Type 0} → (A → Type 0) → Action A → Type 0
  Ensures Q m = (z : Session) → Sound z → Sound (m z).1 × OnOk Q (m z).0

  abbrev pub Preserves : {A : Type 0} → Action A → Type 0
  Preserves m = Ensures Anything m

  pub pure-Ensures : {A : Type 0} (Q : A → Type 0) (a : A) → Q a → Ensures Q (pure a)
  unfolding Ensures
  pure-Ensures Q a q z h = (h, q)

  pub lift-Ensures : {A : Type 0} (Q : A → Type 0) (r : Result A) → OnOk Q r → Ensures Q (lift r)
  unfolding Ensures
  lift-Ensures Q r q z h = (h, q)

  pub raise-Ensures : {A : Type 0} (Q : A → Type 0) (x : Error) → Ensures Q (raise x)
  unfolding Ensures
  raise-Ensures Q x z h = (h, tt)

  pub select-Ensures :
      {A : Type 0} (Q : A → Type 0) (query : Tables → A)
      → ((t : Tables) → i.holds t → Q (query t))
      → Ensures Q (select query)
  unfolding Ensures
  select-Ensures Q query q z h = (h, q z.seen h.seen)

  pub add-Preserves : (w : Write) → i.allows w → Preserves (add w)
  unfolding Ensures
  add-Preserves w a z h = (
    record {
      saved = h.saved;
      seen = h.seen;
      pending = All-append i.allows z.pending (w ∷ []) h.pending (a, tt);
    },
    tt,
  )

  pub if-Ensures :
      {A : Type 0} (Q : A → Type 0) (b : Bool) (m k : Action A)
      → Ensures Q m
      → Ensures Q k
      → Ensures Q (if b then m else k)
  if-Ensures Q true m k h g = h
  if-Ensures Q false m k h g = g

  pub option-Ensures :
      {A B : Type 0} (Q : A → Type 0) (R : B → Type 0) (f : Option A → Action B)
      → Ensures R (f none)
      → ((a : A) → Q a → Ensures R (f (some a)))
      → (o : Option A) → OnSome Q o
      → Ensures R (f o)
  option-Ensures Q R f h g none q = h
  option-Ensures Q R f h g (some a) q = g a q

  -- What follows a call is reached only when the call returned.
  continue-Sound :
      {A B : Type 0} (Q : A → Type 0) (R : B → Type 0) (r : Result A) (f : A → Action B)
      (z : Session)
      → ((a : A) → Q a → Ensures R (f a))
      → Sound z
      → OnOk Q r
      → Sound (continue r f z).1 × OnOk R (continue r f z).0
  unfolding Ensures
  continue-Sound Q R (ok a) f z h g q = h a q z g
  continue-Sound Q R (err x) f z h g q = (g, tt)

  pub bind-Ensures :
      {A B : Type 0} (Q : A → Type 0) (R : B → Type 0) (m : Action A) (f : A → Action B)
      → Ensures Q m
      → ((a : A) → Q a → Ensures R (f a))
      → Ensures R (m >>= f)
  unfolding Ensures
  bind-Ensures Q R m f h g z k = continue-Sound Q R (m z).0 f (m z).1 g (h z k).0 (h z k).1

  write_all-Holds :
      (ws : List Write) (t t' : Tables)
      → i.holds t
      → All i.allows ws
      → write_all e ws t ≡ ok t'
      → i.holds t'
  unfolding write_all
  write_all-Holds [] t t' h a k = subst i.holds (cc k) h
  write_all-Holds (w ∷ ws) t t' h a k = elim (Option-cases (e.refusal t w)) [
    | inl n ↦ write_all-Holds ws (apply t w) t' (i.step t w h a.0 n) a.1 (rw (n, write_all) at k)
    | inr (x, n) ↦ absurd (cc (rw (n, write_all) at k))
  ]

  pub flush-Preserves : Preserves (flush e)
  unfolding Ensures flush
  flush-Preserves z h = elim (Result-cases (write_all e z.pending z.seen)) [
    | inl (t, w) ↦
        rw (w, flush)
          (
            record {
              saved = h.saved;
              seen = write_all-Holds z.pending z.seen t h.seen h.pending w;
              pending = tt;
            },
            tt,
          )
    | inr (x, w) ↦ rw (w, flush) (h, tt)
  ]

  pub commit-Preserves : Preserves (commit e)
  unfolding Ensures commit
  commit-Preserves z h = elim (Result-cases (write_all e z.pending z.seen)) [
    | inl (t, w) ↦
        let after = write_all-Holds z.pending z.seen t h.seen h.pending w in
        rw (w, commit) (record { saved = after; seen = after; pending = tt }, tt)
    | inr (x, w) ↦ rw (w, commit) (h, tt)
  ]

  pub rollback-Preserves : Preserves rollback
  unfolding Ensures
  rollback-Preserves z h = (record { saved = h.saved; seen = h.saved; pending = tt }, tt)
