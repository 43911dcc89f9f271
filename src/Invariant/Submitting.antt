-- ===== src/Invariant/Submitting.antt =====
-- What the submission endpoint of app/routers/public.py keeps.
use flyrank_capstone_lead_ca.Prelude.{none, some, ◌==◌}
use flyrank_capstone_lead_ca.Errors.{Result, ok, err}
use flyrank_capstone_lead_ca.Models.{Widget, Tables}
use flyrank_capstone_lead_ca.Session.{Session}
use flyrank_capstone_lead_ca.Ratelimit.{SubmissionRateLimiter}
use flyrank_capstone_lead_ca.Ratelimit.Window.{LimitDecision}
use flyrank_capstone_lead_ca.Schemas.{SubmissionCreate}
use flyrank_capstone_lead_ca.Widgets.{not_found}
use flyrank_capstone_lead_ca.Widgets.Serving.{active_or_raise, get_active_widget_by_public_id}
use flyrank_capstone_lead_ca.Public.{Request, client_ip}
use flyrank_capstone_lead_ca.Public.Submit.{
  World, identify, accepted, context, take_in, too_many, after_limit, after_identify, submit,
}
use flyrank_capstone_lead_ca.Invariant.{
  Invariant, Anything, OnOk, Sound, Ensures, Preserves, pure-Ensures, raise-Ensures, if-Ensures,
  bind-Ensures,
}
use flyrank_capstone_lead_ca.Invariant.Editing.{query-Ensures}
use flyrank_capstone_lead_ca.Invariant.Calls.{then-Preserves}
use flyrank_capstone_lead_ca.Invariant.Requests.{create_submission-Preserves, record_spam-Preserves}

module _ (v : World) (i : Invariant v.engine)
    (keeps : (t : Tables) → i.holds t → i.holds (v.others t)) (req : Request)
    (payload : SubmissionCreate) where
  identify-Ensures : Ensures i i.knows (identify req payload)
  unfolding identify get_active_widget_by_public_id
  identify-Ensures =
      bind-Ensures i i.knows i.knows _ _
        (query-Ensures i i.knows (λ w. w.public_id == payload.widget_id) active_or_raise
          (raise-Ensures i i.knows not_found)
          (λ w q.
            if-Ensures i i.knows w.active _ _ (pure-Ensures i i.knows w q)
              (raise-Ensures i i.knows _)))
        (λ w q. if-Ensures i i.knows _ _ _ (pure-Ensures i i.knows w q) (raise-Ensures i i.knows _))

  take_in-Preserves :
      (w : Widget) (d : LimitDecision) → i.knows w → Preserves i (take_in v req payload w d)
  unfolding take_in
  take_in-Preserves w d known =
      if-Ensures i Anything _ _ _
        (then-Preserves i _ _ (record_spam-Preserves i v.stamp w (some (client_ip req)) _)
          (λ u. pure-Ensures i Anything (accepted d none w.success_message) tt))
        (then-Preserves i _ _
          (create_submission-Preserves i v.settings v.stamp w v.network v.others payload
            (context req) known keeps)
          (λ r. pure-Ensures i Anything (accepted d (some r.id) w.success_message) tt))

  after_limit-Preserves :
      (w : Widget) (r : Result LimitDecision)
      → i.knows w
      → Preserves i (after_limit v req payload w r)
  after_limit-Preserves w (err x) known = raise-Ensures i Anything x
  after_limit-Preserves w (ok d) known =
      if-Ensures i Anything d.allowed _ _ (take_in-Preserves w d known)
        (raise-Ensures i Anything (too_many d))

  after_identify-Sound :
      (r : Result Widget) (l : SubmissionRateLimiter) (z : Session)
      → Sound i z
      → OnOk i.knows r
      → Sound i (after_identify v req payload r l z).2
  unfolding Ensures
  after_identify-Sound (err x) l z h q = h
  after_identify-Sound (ok w) l z h q = (after_limit-Preserves w _ q z h).0

  pub submit-Sound :
      (l : SubmissionRateLimiter) (z : Session) → Sound i z → Sound i (submit v req payload l z).2
  unfolding submit Ensures
  submit-Sound l z h =
      let (after, q) = identify-Ensures z h in
      after_identify-Sound (identify req payload z).0 l (identify req payload z).1 after q
