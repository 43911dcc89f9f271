-- ===== src/Outbox/Worker.antt =====
-- app/outbox/worker.py: claiming due events, running their handlers, and recording what came of it.
pub mod Lifecycle
pub mod Batches
pub mod Batch
pub mod Rounds
pub mod Loop
use flyrank_capstone_lead_ca.Prelude.{
  ℕ, suc, ◌+◌, ◌*◌, ◌^◌, max, String, Bool, true, false, not, ◌&&◌, Option, none, some, List, [],
  ◌∷◌, map, take, where_, leb, if◌then◌else◌,
}
use flyrank_capstone_lead_ca.Config.{Settings}
use flyrank_capstone_lead_ca.Errors.{Result, ok, err}
use flyrank_capstone_lead_ca.Models.{OutboxEvent, EventStatus, Tables}
use flyrank_capstone_lead_ca.Session.{
  Write, set_event, Engine, Session, Action, pure, select, add, commit, ◌>>=◌, ◌>>◌,
}
use flyrank_capstone_lead_ca.Outbox.Handlers.{Delivery, completed, raised, Outbound, handle}

abbrev pub is_pending : EventStatus → Bool
is_pending EventStatus.pending = true
is_pending EventStatus.delivered = false
is_pending EventStatus.failed = false

-- `status == "pending" AND next_attempt_at <= now`
abbrev pub is_due : ℕ → OutboxEvent → Bool
is_due now r = is_pending r.status && leb r.next_attempt_at now

-- What the database does with `ORDER BY next_attempt_at` and `SKIP LOCKED`: an order of the rows,
-- and whether another transaction holds the lock of a row.
pub record Claiming : Type 0 where
  pub by_next_attempt : List OutboxEvent → List OutboxEvent
  pub locked : OutboxEvent → Bool

unfoldable pub claim_due_events : Claiming → ℕ → ℕ → Tables → List OutboxEvent
claim_due_events q now limit t =
    take limit (q.by_next_attempt (where_ (λ r. is_due now r && not (q.locked r)) t.outbox_events))

-- `timedelta(seconds=base ** max(1, attempts))`, in microseconds
unfoldable pub backoff_delay : Settings → ℕ → ℕ
backoff_delay s attempts = s.outbox_backoff_base_seconds ^ max 1 attempts * 1_000_000

-- The three results of `process_event`.
pub data Outcome : Type 0 where
  delivered retry failed : Outcome

-- `process_event` after the handler has ended, at the time `now`.
unfoldable pub conclude : Settings → ℕ → OutboxEvent → Delivery → Outcome × OutboxEvent
conclude s now r (completed text) = (
  Outcome.delivered,
  record r {
    attempts = r.attempts + 1;
    status = EventStatus.delivered;
    delivered_at = some now;
    last_error = none;
  },
)
conclude s now r (raised text) =
    if leb r.max_attempts (r.attempts + 1)
    then (
      Outcome.failed,
      record r { attempts = r.attempts + 1; last_error = some text; status = EventStatus.failed },
    )
    else (
      Outcome.retry,
      record r {
        attempts = r.attempts + 1;
        last_error = some text;
        next_attempt_at = now + backoff_delay s (r.attempts + 1);
      },
    )

unfoldable pub process_event : Outbound → Settings → ℕ → OutboxEvent → Outcome × OutboxEvent
unfolding conclude
process_event out s now r = conclude s now r (handle out s r.event_type r.payload)

pub record Counts : Type 0 where
  pub delivered : ℕ
  pub retry : ℕ
  pub failed : ℕ

abbrev pub zero_counts : Counts
zero_counts = record { delivered = 0; retry = 0; failed = 0 }

abbrev pub count : Outcome → Counts → Counts
count Outcome.delivered c = record c { delivered = c.delivered + 1 }
count Outcome.retry c = record c { retry = c.retry + 1 }
count Outcome.failed c = record c { failed = c.failed + 1 }

module _ (out : Outbound) (s : Settings) (clock : OutboxEvent → ℕ) where
  -- The loop over the claimed events; `clock r` is the time at which `r` is handled.
  unfoldable pub process_all : List OutboxEvent → Counts → Action Counts
  unfolding process_event
  process_all [] c = pure c
  process_all (r ∷ rs) c =
      let (o, r') = process_event out s (clock r) r in
      add (set_event r') >> process_all rs (count o c)

  unfoldable pub process_due_events : Engine → Claiming → ℕ → ℕ → Action Counts
  unfolding process_all claim_due_events
  process_due_events e q now limit = do
    claimed ← select (claim_due_events q now limit)
    counts ← process_all claimed zero_counts
    commit e
    pure counts
