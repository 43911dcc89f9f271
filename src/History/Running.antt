-- ===== src/History/Running.antt =====
-- The worker's loop as a history.
use flyrank_capstone_lead_ca.Prelude.{◌<◌, refl, List, [], ◌∷◌, All, inl, inr, Bool-cases}
use flyrank_capstone_lead_ca.Config.{Settings}
use flyrank_capstone_lead_ca.Models.{Tables}
use flyrank_capstone_lead_ca.Session.{Engine}
use flyrank_capstone_lead_ca.Submissions.Create.Replay.{EnforcesKeys}
use flyrank_capstone_lead_ca.Outbox.Worker.{Claiming}
use flyrank_capstone_lead_ca.Outbox.Worker.Batch.{OnlyOrders}
use flyrank_capstone_lead_ca.Outbox.Worker.Loop.{Turn, drain_once, loop, batch_limit}
use flyrank_capstone_lead_ca.History.{History, batch, IsSound, History-IsSound}

module _ (e : Engine) (s : Settings) (q : Claiming) (a : Tables) where
  -- What others do between two turns is a history too.
  abbrev pub OthersAct : Turn → Type 0
  OthersAct r = (t : Tables) → History e s q a t → History e s q a (r.others t)

  loop-History :
      (turns : List Turn) (t : Tables)
      → All OthersAct turns
      → History e s q a t
      → History e s q a (loop s e q turns t)
  unfolding loop
  loop-History [] t h before = before
  loop-History (r ∷ rs) t (act, h) before = elim (Bool-cases r.stopping) [
    | inl stop ↦ rw stop before
    | inr go ↦ rw go (
        loop-History rs (drain_once s e q r (r.others t)) h
          (batch r.out r.clock r.now batch_limit (act t before) (unfold drain_once in refl)))
  ]

  -- Where the engine enforces the unique constraint, `ORDER BY` only orders, an event is given at
  -- least one attempt, and what others do between two turns is a history of the database: from sound
  -- tables the worker's loop, for any number of turns, whatever its batches raise and whenever it is
  -- stopped, leads to sound tables.
  pub loop-IsSound :
      (turns : List Turn)
      → OnlyOrders q
      → EnforcesKeys e
      → 0 < s.outbox_max_attempts
      → All OthersAct turns
      → IsSound a
      → IsSound (loop s e q turns a)
  loop-IsSound turns orders enforces some_attempts act sound =
      History-IsSound e s q orders enforces some_attempts sound
        (loop-History turns a act History.start)
