-- ===== src/Public/Submit.antt =====
-- `create_submission` of app/routers/public.py: the hardened submission endpoint.
use flyrank_capstone_lead_ca.Prelude.{ℕ, String, Option, none, some, if◌then◌else◌}
use flyrank_capstone_lead_ca.Config.{Settings}
use flyrank_capstone_lead_ca.Errors.{Error, app, rate, Result, ok, err, app_error}
use flyrank_capstone_lead_ca.Python.{show}
use flyrank_capstone_lead_ca.Models.{Widget, Tables}
use flyrank_capstone_lead_ca.Session.{Engine, Session, Action, pure, raise, ◌>>=◌, ◌>>◌}
use flyrank_capstone_lead_ca.Ratelimit.Window.{LimitDecision}
use flyrank_capstone_lead_ca.Ratelimit.{SubmissionRateLimiter, check}
use flyrank_capstone_lead_ca.Spam.{classify}
use flyrank_capstone_lead_ca.Enrichment.{Network}
use flyrank_capstone_lead_ca.Schemas.{SubmissionCreate}
use flyrank_capstone_lead_ca.Widgets.Serving.{get_active_widget_by_public_id, origin_allowed}
use flyrank_capstone_lead_ca.Submissions.Create.{Stamp, Context, record_spam, create_submission}
use flyrank_capstone_lead_ca.Public.{Request, client_ip}

-- `SubmissionAccepted`, with the two headers that are set on the response.
pub record Accepted : Type 0 where
  pub id : Option ℕ
  pub message : String
  pub rate_limit : String
  pub rate_remaining : String

abbrev pub accepted : LimitDecision → Option ℕ → String → Accepted
accepted d id message = record {
  id = id;
  message = message;
  rate_limit = show d.limit;
  rate_remaining = show d.remaining;
}

-- The widget that is submitted to, if it is active and the origin may use it.
unfoldable pub identify : Request → SubmissionCreate → Action Widget
identify req payload = do
  widget ← get_active_widget_by_public_id payload.widget_id
  if origin_allowed widget req.origin
      then pure widget
      else raise (app_error "this origin is not allowed to submit to this widget" 403)

abbrev pub too_many : LimitDecision → Error
too_many d = app (record {
  message = "too many requests — slow down";
  status_code = 429;
  detail = rate d.scope d.limit;
})

abbrev pub context : Request → Context
context req = record {
  ip = some (client_ip req);
  user_agent = req.user_agent;
  referer = req.referer;
  origin = req.origin;
  idempotency_key = req.idempotency_key;
}

-- What the endpoint takes from outside: the engine, the settings, the clock of the rate limiter in
-- ticks, the ids and the time, the network, and what others commit while it waits.
pub record World : Type 0 where
  pub engine : Engine
  pub settings : Settings
  pub tick : ℕ
  pub ip_now : ℕ
  pub widget_now : ℕ
  pub stamp : Stamp
  pub network : Network
  pub others : Tables → Tables

module _ (v : World) (req : Request) (payload : SubmissionCreate) where
  -- After the rate limiter has let the request pass.
  unfoldable pub take_in : Widget → LimitDecision → Action Accepted
  take_in widget d =
      let verdict = classify v.settings payload.honeypot payload.elapsed_ms in
      if verdict.is_spam
      then (do
        record_spam v.engine v.stamp widget (some (client_ip req)) verdict.reason
        pure (accepted d none widget.success_message))
      else (do
        r ←
            create_submission v.engine v.settings v.stamp widget v.network v.others payload
              (context req)
        pure (accepted d (some r.id) widget.success_message))

  abbrev pub after_limit : Widget → Result LimitDecision → Action Accepted
  after_limit widget (err x) = raise x
  after_limit widget (ok d) = if d.allowed then take_in widget d else raise (too_many d)

  -- The limiter is asked only for a widget that was identified.
  abbrev pub after_identify :
      Result Widget
      → SubmissionRateLimiter
      → Session
      → Result Accepted × SubmissionRateLimiter × Session
  after_identify (err x) l z = (err x, l, z)
  after_identify (ok widget) l z =
      let (r, l') =
        check v.tick v.settings v.ip_now v.widget_now (client_ip req) widget.public_id l in
      let (a, z') = after_limit widget r z in (a, l', z')

  unfoldable pub submit :
      SubmissionRateLimiter → Session → Result Accepted × SubmissionRateLimiter × Session
  unfolding identify take_in
  submit l z = let (r, z') = identify req payload z in after_identify r l z'
