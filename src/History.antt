-- ===== src/History.antt =====
-- The database over time: submissions and worker batches in any order, where other work may be
-- committed while a submission waits for the network.
pub mod Running
pub mod Delivered
use flyrank_capstone_lead_ca.Prelude.{
  ℕ, zero, suc, ◌+◌, ◌≤◌, ◌<◌, ◌≡◌, ap, sym, inl, inr, String, Bool, true, false, not, ◌&&◌, Option,
  none, some, List, [], ◌∷◌, ◌++◌, map, Dict, arith, length, All, All-append, where_, nat_eq,
  eq_iff, if◌then◌else◌, Bool-cases, take,
}
use mathlib.Core.Path.{subst}
use flyrank_capstone_lead_ca.Config.{Settings}
use flyrank_capstone_lead_ca.Errors.{Result, ok, err}
use flyrank_capstone_lead_ca.Models.{Widget, Submission, OutboxEvent, EventStatus, Tables}
use flyrank_capstone_lead_ca.Session.{add_submission, Engine, Session, opened, replace_event}
use flyrank_capstone_lead_ca.Enrichment.{Network}
use flyrank_capstone_lead_ca.Schemas.{SubmissionCreate}
use flyrank_capstone_lead_ca.Submissions.Validate.{validate_against_widget}
use flyrank_capstone_lead_ca.Submissions.Create.{
  Stamp, Context, matching, has_key, effects, create_submission,
}
use flyrank_capstone_lead_ca.Submissions.Create.Atomic.{
  with_submission, Settles, IsAtomic, create_submission-IsAtomic,
}
use flyrank_capstone_lead_ca.Submissions.Create.Replay.{EnforcesKeys}
use flyrank_capstone_lead_ca.Outbox.Handlers.{Outbound, handle}
use flyrank_capstone_lead_ca.Outbox.Worker.{
  is_pending, is_due, Claiming, claim_due_events, process_event, Counts, process_due_events,
}
use flyrank_capstone_lead_ca.Outbox.Worker.Lifecycle.{IsAccounted, conclude-IsAccounted}
use flyrank_capstone_lead_ca.Outbox.Worker.Batch.{
  OnlyOrders, replace_all, handled, claimed, Drains, process_due_events-Drains,
}

-- What the two writers of the outbox and of the submissions can make of the tables `a`.
pub data History (e : Engine) (s : Settings) (q : Claiming) (a : Tables) : Tables → Type 0 where
  start : History e s q a a
  submit :
      {t z : Tables} (u : Tables) (st : Stamp) (widget : Widget) (net : Network)
      (payload : SubmissionCreate) (c : Context)
      → History e s q a t
      → History e s q a u
      → z ≡ (create_submission e s st widget net (λ _. u) payload c (opened t)).1.saved
      → History e s q a z
  batch :
      {t z : Tables} (out : Outbound) (clock : OutboxEvent → ℕ) (now limit : ℕ)
      → History e s q a t
      → z ≡ (process_due_events out s clock e q now limit (opened t)).1.saved
      → History e s q a z

-- No widget has two submissions with one key.
abbrev pub UniqueKeys : List Submission → Type 0
UniqueKeys rows = (widget_id : ℕ) (k : String) → length (matching widget_id k rows) ≤ 1

pub record IsSound (t : Tables) : Type 0 where
  pub accounted : All IsAccounted t.outbox_events
  pub unique_keys : UniqueKeys t.submissions

effects-IsAccounted :
    (s : Settings) (st : Stamp) (widget : Widget) (r : Submission)
    → 0 < s.outbox_max_attempts
    → All IsAccounted (effects s st widget r)
unfolding effects
effects-IsAccounted s st widget r h = ground arith

key_of_test : (k : String) (o : Option String) → has_key k o ≡ true → o ≡ some k
key_of_test k none h = absurd (cc)
key_of_test k (some j) h = ap some ((eq_iff j k).0 h)

length-where_snoc :
    (p : Submission → Bool) (rows : List Submission) (new : Submission)
    → length (where_ p (rows ++ new ∷ [])) ≡ length (where_ p rows) + (if p new then 1 else 0)
unfolding where_
length-where_snoc p [] new = ground arith
length-where_snoc p (r ∷ rows) new = ground (arith, length-where_snoc p rows new)

-- A new row whose key the engine has compared with the rows that are there.
snoc-UniqueKeys :
    (e : Engine) (t : Tables) (new : Submission)
    → EnforcesKeys e
    → e.refusal t (add_submission new) ≡ none
    → UniqueKeys t.submissions
    → UniqueKeys (t.submissions ++ new ∷ [])
snoc-UniqueKeys e t new enforces n u widget_id k =
    rw
      (length-where_snoc (λ r. nat_eq r.widget_id widget_id && has_key k r.idempotency_key)
        t.submissions new)
      (elim (Bool-cases (nat_eq new.widget_id widget_id && has_key k new.idempotency_key)) [
        | inl e' ↦ clash e'
        | inr e' ↦ rw e' (omega (arith, u widget_id k))
      ])
  where
    clash :
        (nat_eq new.widget_id widget_id && has_key k new.idempotency_key) ≡ true
        → length (matching widget_id k t.submissions)
            + (if nat_eq new.widget_id widget_id && has_key k new.idempotency_key then 1 else 0)
          ≤ 1
    clash e' =
        let same : new.widget_id ≡ widget_id = ground arith in
        let nothing : matching new.widget_id k t.submissions ≡ [] =
          enforces.unique t new k n (key_of_test k new.idempotency_key (ground arith)) in
        let here : matching widget_id k t.submissions ≡ [] =
          subst (λ w. matching w k t.submissions ≡ []) same nothing in
        rw (e', here) (omega arith)

replaced-IsAccounted :
    (r : OutboxEvent) (rows : List OutboxEvent)
    → IsAccounted r
    → All IsAccounted rows
    → All IsAccounted (map (replace_event r) rows)
replaced-IsAccounted r [] h k = tt
replaced-IsAccounted r (x ∷ xs) h k = (either (nat_eq x.id r.id), replaced-IsAccounted r xs h k.1)
  where
    either : (b : Bool) → IsAccounted (if b then r else x)
    either true = h
    either false = k.0

replace_all-IsAccounted :
    (rs rows : List OutboxEvent)
    → All IsAccounted rs
    → All IsAccounted rows
    → All IsAccounted (replace_all rs rows)
unfolding replace_all
replace_all-IsAccounted [] rows h k = k
replace_all-IsAccounted (r ∷ rs) rows h k =
    replace_all-IsAccounted rs (map (replace_event r) rows) h.1 (replaced-IsAccounted r rows h.0 k)

-- What is claimed is pending, and keeps what holds of the table's rows.
abbrev IsReady : OutboxEvent → Type 0
IsReady r = (r.status ≡ EventStatus.pending) × IsAccounted r

IsReady-due :
    (q : Claiming) (now : ℕ) (rows : List OutboxEvent)
    → All IsAccounted rows
    → All IsReady (where_ (λ r. is_due now r && not (q.locked r)) rows)
unfolding where_
IsReady-due q now [] h = tt
IsReady-due q now (r ∷ rows) h = elim (Bool-cases (is_due now r && not (q.locked r))) [
  | inl e ↦ rw e ((pending_of (ground arith), h.0), IsReady-due q now rows h.1)
  | inr e ↦ rw e (IsReady-due q now rows h.1)
]
  where
    pending_of : is_pending r.status ≡ true → r.status ≡ EventStatus.pending
    pending_of d = ground arith

All-take :
    (P : OutboxEvent → Type 0) (n : ℕ) (rows : List OutboxEvent) → All P rows → All P (take n rows)
unfolding take
All-take P zero rows h = tt
All-take P (suc n) [] h = tt
All-take P (suc n) (r ∷ rows) h = (h.0, All-take P n rows h.1)

module _ (e : Engine) (s : Settings) (q : Claiming) (orders : OnlyOrders q) where
  handled-IsAccounted :
      (out : Outbound) (clock : OutboxEvent → ℕ) (rs : List OutboxEvent)
      → All IsReady rs
      → All IsAccounted (map (handled out s clock) rs)
  handled-IsAccounted out clock [] h = tt
  handled-IsAccounted out clock (r ∷ rs) h = (
    unfold process_event in
        conclude-IsAccounted s (clock r) r (handle out s r.event_type r.payload) h.0.0 h.0.1,
    handled-IsAccounted out clock rs h.1,
  )

  claimed-IsReady :
      (out : Outbound) (clock : OutboxEvent → ℕ) (now limit : ℕ) (t : Tables)
      → All IsAccounted t.outbox_events
      → All IsReady (claimed out s clock e q now limit t)
  unfolding claim_due_events
  claimed-IsReady out clock now limit t h =
      All-take IsReady limit _
        (orders.only_selected IsReady _ (IsReady-due q now t.outbox_events h))

  Drains-IsSound :
      (out : Outbound) (clock : OutboxEvent → ℕ) (now limit : ℕ) (t : Tables)
      (r : Result Counts × Session)
      → Drains out s clock e q now limit t r
      → IsSound t
      → IsSound r.1.saved
  Drains-IsSound out clock now limit t (ok c, z) (saved, counted, few) h = rw saved (record {
    accounted =
        replace_all-IsAccounted (map (handled out s clock) (claimed out s clock e q now limit t))
          t.outbox_events
          (handled-IsAccounted out clock _ (claimed-IsReady out clock now limit t h.accounted))
          h.accounted;
    unique_keys = h.unique_keys;
  })
  Drains-IsSound out clock now limit t (err x, z) saved h = rw saved h

  module _ (enforces : EnforcesKeys e) (some_attempts : 0 < s.outbox_max_attempts) where
    with_submission-IsSound :
        (st : Stamp) (widget : Widget) (t : Tables) (new : Submission)
        → e.refusal t (add_submission new) ≡ none
        → IsSound t
        → IsSound (with_submission t new (effects s st widget new))
    with_submission-IsSound st widget t new n h = record {
      accounted =
          All-append IsAccounted t.outbox_events (effects s st widget new) h.accounted
            (effects-IsAccounted s st widget new some_attempts);
      unique_keys = snoc-UniqueKeys e t new enforces n h.unique_keys;
    }

    Settles-IsSound :
        (st : Stamp) (widget : Widget) (t : Tables) (key : Option String) (new : Submission)
        (r : Result Submission × Session)
        → Settles e (effects s st widget new) t widget.id key new r
        → IsSound t
        → IsSound r.1.saved
    Settles-IsSound st widget t key new (ok r, z) (inl (saved, _, _, _)) h = rw saved h
    Settles-IsSound st widget t key new (ok r, z) (inr (saved, same, n)) h =
        rw saved (with_submission-IsSound st widget t new n h)
    Settles-IsSound st widget t key new (err x, z) saved h = rw saved h

    IsAtomic-IsSound :
        (st : Stamp) (widget : Widget) (net : Network) (u : Tables) (c : Context) (t : Tables)
        (v : Result (Dict String)) (r : Result Submission × Session)
        → IsAtomic e s st widget net (λ _. u) c t v r
        → IsSound t
        → IsSound u
        → IsSound r.1.saved
    IsAtomic-IsSound st widget net u c t (err x) r a h k =
        subst (λ (o : Result Submission × Session). IsSound o.1.saved) (sym a) h
    IsAtomic-IsSound st widget net u c t (ok cleaned) r (inl a) h k =
        Settles-IsSound st widget t c.idempotency_key _ r a h
    IsAtomic-IsSound st widget net u c t (ok cleaned) r (inr a) h k =
        Settles-IsSound st widget u c.idempotency_key _ r a k

    -- From sound tables every history leads to sound tables: the books of every outbox event agree
    -- with its status, and no widget has two submissions with one key. This is where the engine
    -- enforces the unique constraint, `ORDER BY` only orders, and an event is given at least one
    -- attempt.
    pub History-IsSound : {a t : Tables} → IsSound a → History e s q a t → IsSound t
    History-IsSound h start = h
    History-IsSound h (submit {t = t} u st widget net payload c before meanwhile z) = rw z (
        IsAtomic-IsSound st widget net u c t (validate_against_widget s widget payload.lead) _
          (create_submission-IsAtomic e s st widget net (λ _. u) c t payload)
          (History-IsSound h before) (History-IsSound h meanwhile))
    History-IsSound h (batch {t = t} out clock now limit before z) = rw z (
        Drains-IsSound out clock now limit t _
          (process_due_events-Drains out s clock e q now limit t) (History-IsSound h before))
