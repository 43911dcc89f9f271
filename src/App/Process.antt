-- ===== src/App/Process.antt =====
-- The life of the process, in app/main.py, and the answers about it, in app/main.py and
-- app/routers/health.py.
use flyrank_capstone_lead_ca.Prelude.{ℕ, ◌≡◌, String, append, Bool, false, arith, if◌then◌else◌}
use flyrank_capstone_lead_ca.Config.{Settings}
use flyrank_capstone_lead_ca.Models.{Tables}
use flyrank_capstone_lead_ca.Session.{Action, select, ◌>>=◌, pure}
use flyrank_capstone_lead_ca.Outbox.Worker.Loop.{OutboxWorker, start_worker, stop_worker}

-- `lifespan` up to its `yield`, and after it, which is reached however the application ends.
unfoldable pub startup : Settings → OutboxWorker → OutboxWorker
unfolding start_worker
startup s w = if s.outbox_worker_enabled then start_worker w else w

unfoldable pub shutdown : OutboxWorker → OutboxWorker
unfolding stop_worker
shutdown w = stop_worker w

pub record IndexPage : Type 0 where
  pub service : String
  pub docs : String
  pub health : String
  pub widget_bundle : String

unfoldable pub index : Settings → IndexPage
index s = record {
  service = "Embeddable Widget & Lead-Capture Platform";
  docs = "/docs";
  health = "/healthz";
  widget_bundle = append "/embed/widget." (append s.widget_bundle_version ".js");
}

unfoldable pub healthz : String
healthz = "ok"

pub record Readiness : Type 0 where
  pub status : String
  pub database : String
  pub geo_mode : String
  pub outbox_worker : Bool

-- `select(1)` reads no table.
abbrev one_row : Tables → ℕ
one_row t = 1

unfoldable pub readyz : Settings → Action Readiness
readyz s = do
  one ← select one_row
  pure (record {
    status = "ready";
    database = "ok";
    geo_mode = s.geo_mode;
    outbox_worker = s.outbox_worker_enabled;
  })

-- After the application has ended, no worker runs, whether one was started or not.
lifespan_idle : (s : Settings) (w : OutboxWorker) → (shutdown (startup s w)).running ≡ false
unfolding startup shutdown start_worker stop_worker
lifespan_idle s w = ground arith
