-- ===== src/Outbox/Worker/Loop.antt =====
-- `OutboxWorker` of app/outbox/worker.py: starting, polling and stopping.
use flyrank_capstone_lead_ca.Prelude.{ℕ, Bool, true, false, List, [], ◌∷◌, if◌then◌else◌}
use flyrank_capstone_lead_ca.Config.{Settings}
use flyrank_capstone_lead_ca.Models.{OutboxEvent, Tables}
use flyrank_capstone_lead_ca.Session.{Engine, opened}
use flyrank_capstone_lead_ca.Outbox.Handlers.{Outbound}
use flyrank_capstone_lead_ca.Outbox.Worker.{Claiming, process_due_events}

-- `_task is not None`, and the event `_stopping`.
pub record OutboxWorker : Type 0 where
  pub running : Bool
  pub stopping : Bool

unfoldable pub start_worker : OutboxWorker → OutboxWorker
start_worker w = if w.running then w else record { running = true; stopping = false }

-- `stop` waits for the task, or cancels it after five seconds; either way it is gone then.
unfoldable pub stop_worker : OutboxWorker → OutboxWorker
stop_worker w = if w.running then record { running = false; stopping = true } else w

-- What one turn of the loop meets: whether `_stopping` is set when the turn begins, what others have
-- made of the tables since the turn before, the outside world, and the clock.
pub record Turn : Type 0 where
  pub stopping : Bool
  pub others : Tables → Tables
  pub out : Outbound
  pub clock : OutboxEvent → ℕ
  pub now : ℕ

abbrev pub batch_limit : ℕ
batch_limit = 20

module _ (s : Settings) (e : Engine) (q : Claiming) where
  -- `_drain_once` on a session of its own, which is closed at the end. An exception is logged by the
  -- loop, and what was committed stays.
  unfoldable pub drain_once : Turn → Tables → Tables
  unfolding process_due_events
  drain_once r t = (process_due_events r.out s r.clock e q r.now batch_limit (opened t)).1.saved

  -- `_loop` over the turns until `_stopping` is set.
  unfoldable pub loop : List Turn → Tables → Tables
  unfolding drain_once
  loop [] t = t
  loop (r ∷ rs) t = let rest = loop rs (drain_once r (r.others t)) in if r.stopping then t else rest
