-- ===== src/Invariant/Reachable.antt =====
-- The database over time: every request that writes, every batch of the worker and every run of the
-- seed script, in any order.
use flyrank_capstone_lead_ca.Prelude.{ℕ, ◌≡◌, String, List, [], sym}
use mathlib.Core.Path.{subst}
use flyrank_capstone_lead_ca.Config.{Settings}
use flyrank_capstone_lead_ca.Models.{Widget, OutboxEvent, Tables}
use flyrank_capstone_lead_ca.Session.{Engine, opened}
use flyrank_capstone_lead_ca.Ratelimit.{SubmissionRateLimiter}
use flyrank_capstone_lead_ca.Schemas.{SubmissionCreate, WidgetCreate, WidgetUpdate}
use flyrank_capstone_lead_ca.Widgets.{create_widget, update_widget, delete_widget}
use flyrank_capstone_lead_ca.Outbox.Handlers.{Outbound}
use flyrank_capstone_lead_ca.Outbox.Worker.{Claiming, process_due_events}
use flyrank_capstone_lead_ca.Auth.{Crypto, RegisterRequest, register}
use flyrank_capstone_lead_ca.Public.{Request}
use flyrank_capstone_lead_ca.Public.Submit.{World, submit}
use flyrank_capstone_lead_ca.Seed.{Run, main}
use flyrank_capstone_lead_ca.Invariant.{Invariant, Sound, Ensures}
use flyrank_capstone_lead_ca.Invariant.Editing.{
  create_widget-Preserves, update_widget-Preserves, delete_widget-Preserves,
}
use flyrank_capstone_lead_ca.Invariant.Requests.{process_due_events-Preserves, register-Preserves}
use flyrank_capstone_lead_ca.Invariant.Submitting.{submit-Sound}
use flyrank_capstone_lead_ca.Invariant.Seeding.{main-Preserves}

abbrev pub no_rows : Tables
no_rows = record {
  tenants = [];
  widgets = [];
  submissions = [];
  outbox_events = [];
  spam_events = [];
}

-- What an application on one engine can have committed, starting from the tables that the migration
-- makes. While a submission waits, the tables may become any others that can be reached. A new
-- widget's id is lawful for its tenant; the seed script takes its ids without a choice.
pub data Reachable (e : Engine) (lawful : ℕ → ℕ → Type 0) : Tables → Type 0 where
  migrated : Reachable e lawful no_rows
  registers :
      {t z : Tables} (c : Crypto) (s : Settings) (id salt now : ℕ) (p : RegisterRequest)
      → Reachable e lawful t
      → z ≡ (register c s e id salt now p (opened t)).1.saved
      → Reachable e lawful z
  creates :
      {t z : Tables} (id now : ℕ) (candidates : List String) (tenant_id : ℕ) (p : WidgetCreate)
      → lawful id tenant_id
      → Reachable e lawful t
      → z ≡ (create_widget e id now candidates tenant_id p (opened t)).1.saved
      → Reachable e lawful z
  updates :
      {t z : Tables} (now tenant_id widget_id : ℕ) (p : WidgetUpdate)
      → Reachable e lawful t
      → z ≡ (update_widget e now tenant_id widget_id p (opened t)).1.saved
      → Reachable e lawful z
  deletes :
      {t z : Tables} (tenant_id widget_id : ℕ)
      → Reachable e lawful t
      → z ≡ (delete_widget e tenant_id widget_id (opened t)).1.saved
      → Reachable e lawful z
  submits :
      {t u z : Tables} (v : World) (req : Request) (payload : SubmissionCreate)
      (l : SubmissionRateLimiter)
      → Reachable e lawful t
      → Reachable e lawful u
      → z ≡ (submit (record v { engine = e; others = λ _. u }) req payload l (opened t)).2.saved
      → Reachable e lawful z
  drains :
      {t z : Tables} (out : Outbound) (s : Settings) (clock : OutboxEvent → ℕ) (q : Claiming)
      (now limit : ℕ)
      → Reachable e lawful t
      → z ≡ (process_due_events out s clock e q now limit (opened t)).1.saved
      → Reachable e lawful z
  seeds :
      {t u z : Tables} (v : Run)
      → ((id tenant_id : ℕ) → lawful id tenant_id)
      → Reachable e lawful t
      → Reachable e lawful u
      → z ≡ (main (record v { engine = e; others = λ _. u }) (opened t)).1.saved
      → Reachable e lawful z

opened-Sound : {e : Engine} (i : Invariant e) (t : Tables) → i.holds t → Sound i (opened t)
opened-Sound i t h = record { saved = h; seen = h; pending = tt }

-- An invariant that the first tables have holds of all that can be reached.
module _ (e : Engine) (i : Invariant e)
    (any_widget : ((id tenant_id : ℕ) → i.lawful id tenant_id) → (w : Widget) → i.knows w)
    (first : i.holds no_rows) where
  pub Reachable-Holds : {t : Tables} → Reachable e i.lawful t → i.holds t
  unfolding Ensures
  Reachable-Holds migrated = first
  Reachable-Holds (registers {t = t} c s id salt now p before z) =
      subst i.holds (sym z)
        (register-Preserves i c s id salt now p (opened t)
          (opened-Sound i t (Reachable-Holds before))).0.saved
  Reachable-Holds (creates {t = t} id now candidates tenant_id p law before z) =
      subst i.holds (sym z)
        (create_widget-Preserves i id now candidates tenant_id p law (opened t)
          (opened-Sound i t (Reachable-Holds before))).0.saved
  Reachable-Holds (updates {t = t} now tenant_id widget_id p before z) =
      subst i.holds (sym z)
        (update_widget-Preserves i now tenant_id widget_id p (opened t)
          (opened-Sound i t (Reachable-Holds before))).0.saved
  Reachable-Holds (deletes {t = t} tenant_id widget_id before z) =
      subst i.holds (sym z)
        (delete_widget-Preserves i tenant_id widget_id (opened t)
          (opened-Sound i t (Reachable-Holds before))).0.saved
  Reachable-Holds (submits {t = t} {u = u} v req payload l before meanwhile z) =
      subst i.holds (sym z)
        (submit-Sound (record v { engine = e; others = λ _. u }) i
          (λ _ _. Reachable-Holds meanwhile) req payload l (opened t)
          (opened-Sound i t (Reachable-Holds before))).saved
  Reachable-Holds (drains {t = t} out s clock q now limit before z) =
      subst i.holds (sym z)
        (process_due_events-Preserves i out s clock q now limit (opened t)
          (opened-Sound i t (Reachable-Holds before))).0.saved
  Reachable-Holds (seeds {t = t} {u = u} v any_id before meanwhile z) =
      subst i.holds (sym z)
        (main-Preserves (record v { engine = e; others = λ _. u }) i any_id (any_widget any_id)
          (λ _ _. Reachable-Holds meanwhile) (opened t)
          (opened-Sound i t (Reachable-Holds before))).0.saved
