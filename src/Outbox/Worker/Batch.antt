-- ===== src/Outbox/Worker/Batch.antt =====
-- One batch of the worker: what it claims, what it commits, and what it leaves alone.
use flyrank_capstone_lead_ca.Prelude.{
  ℕ, suc, ◌+◌, ◌≤◌, ◌≡◌, refl, ◌∙◌, inl, inr, not, ◌&&◌, List, [], ◌∷◌, ◌++◌, map, arith, length,
  All, where_, length-take, Option-cases,
}
use mathlib.Core.List.{append-nil, append_assoc}
use flyrank_capstone_lead_ca.Config.{Settings}
use flyrank_capstone_lead_ca.Errors.{Result, ok, err}
use flyrank_capstone_lead_ca.Models.{OutboxEvent, Tables}
use flyrank_capstone_lead_ca.Session.{
  set_event, Engine, Session, opened, apply, write_all, commit, replace_event,
}
use flyrank_capstone_lead_ca.Outbox.Handlers.{Outbound}
use flyrank_capstone_lead_ca.Outbox.Worker.{
  is_due, Claiming, claim_due_events, Outcome, process_event, Counts, zero_counts, count,
  process_all, process_due_events,
}

-- `ORDER BY` returns the rows that were selected, and nothing else.
pub record OnlyOrders (q : Claiming) : Type 1 where
  pub only_selected :
      (P : OutboxEvent → Type 0) (rs : List OutboxEvent) → All P rs → All P (q.by_next_attempt rs)

-- The rows of the table with some of them written anew.
unfoldable pub replace_all : List OutboxEvent → List OutboxEvent → List OutboxEvent
replace_all [] rows = rows
replace_all (r ∷ rs) rows = replace_all rs (map (replace_event r) rows)

abbrev pub total : Counts → ℕ
total c = c.delivered + c.retry + c.failed

total-count : (o : Outcome) (c : Counts) → total (count o c) ≡ suc (total c)
total-count Outcome.delivered c = omega arith
total-count Outcome.retry c = omega arith
total-count Outcome.failed c = omega arith

pub write_all-set_event :
    (e : Engine) (rs : List OutboxEvent) (t t' : Tables)
    → write_all e (map set_event rs) t ≡ ok t'
    → t' ≡ record t { outbox_events = replace_all rs t.outbox_events }
unfolding write_all apply replace_all
write_all-set_event e [] t t' h = ground arith
write_all-set_event e (r ∷ rs) t t' h = elim (Option-cases (e.refusal t (set_event r))) [
  | inl n ↦ write_all-set_event e rs (apply t (set_event r)) t' (ground arith)
  | inr (x, n) ↦ absurd (ground arith)
]

module _ (out : Outbound) (s : Settings) (clock : OutboxEvent → ℕ) where
  -- What is written for each claimed event.
  abbrev pub handled : OutboxEvent → OutboxEvent
  handled r = (process_event out s (clock r) r).1

  unfoldable pub counts_of : List OutboxEvent → Counts → Counts
  counts_of [] c = c
  counts_of (r ∷ rs) c = counts_of rs (count (process_event out s (clock r) r).0 c)

  process_all_lem :
      (rs : List OutboxEvent) (c : Counts) (z : Session)
      → process_all out s clock rs c z
        ≡ (ok (counts_of rs c), record z { pending = z.pending ++ map set_event (map handled rs) })
  unfolding process_all counts_of
  process_all_lem [] c z = rw append-nil
  process_all_lem (r ∷ rs) c z =
      process_all_lem rs _ (record z { pending = z.pending ++ set_event (handled r) ∷ [] })
      ∙ (rw append_assoc)

  total-counts_of :
      (rs : List OutboxEvent) (c : Counts) → total (counts_of rs c) ≡ total c + length rs
  unfolding counts_of
  total-counts_of [] c = omega arith
  total-counts_of (r ∷ rs) c = omega (
    arith,
    total-counts_of rs (count (process_event out s (clock r) r).0 c),
    total-count (process_event out s (clock r) r).0 c,
  )

  module _ (e : Engine) (q : Claiming) (now limit : ℕ) (t : Tables) where
    abbrev pub claimed : List OutboxEvent
    claimed = claim_due_events q now limit t

    -- How a batch ends: it commits the new state of the claimed events and of nothing else, and
    -- counts each of them once; or it raises and has committed nothing.
    abbrev pub Drains : Result Counts × Session → Type 0
    Drains (ok c, z) =
        (z.saved ≡ record t { outbox_events = replace_all (map handled claimed) t.outbox_events })
        × (total c ≡ length claimed)
        × (length claimed ≤ limit)
    Drains (err x, z) = z.saved ≡ t

    length-claimed-le : length claimed ≤ limit
    unfolding claim_due_events
    length-claimed-le = omega (
      arith,
      length-take limit
          (q.by_next_attempt (where_ (λ r. is_due now r && not (q.locked r)) t.outbox_events)),
    )

    abbrev pub finished : Result Tables → Result Counts × Session
    finished (ok t') = (ok (counts_of claimed zero_counts), opened t')
    finished (err x) =
        (err x, record { saved = t; seen = t; pending = map set_event (map handled claimed) })

    pub process_due_events_lem :
        process_due_events out s clock e q now limit (opened t)
        ≡ finished (write_all e (map set_event (map handled claimed)) t)
    unfolding process_due_events commit
    process_due_events_lem = rw process_all_lem (ground arith)

    finished-Drains :
        (r : Result Tables)
        → write_all e (map set_event (map handled claimed)) t ≡ r
        → Drains (finished r)
    finished-Drains (ok t') h = (
      write_all-set_event e (map handled claimed) t t' h,
      total-counts_of claimed zero_counts ∙ (omega arith),
      length-claimed-le,
    )
    finished-Drains (err x) h = refl

    -- A batch on a freshly opened session writes the new state of every claimed event and of no other
    -- row, counts each claimed event once, and claims at most `limit`; or it raises, and then nothing
    -- is committed.
    pub process_due_events-Drains : Drains (process_due_events out s clock e q now limit (opened t))
    process_due_events-Drains = rw process_due_events_lem (finished-Drains _ refl)
