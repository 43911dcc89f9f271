-- ===== src/Public/Order.antt =====
-- What a submission request leaves behind, by the stage at which it ends.
use flyrank_capstone_lead_ca.Prelude.{
  Bool, true, false, ℕ, ◌≡◌, ◌⊎◌, refl, inl, inr, String, Option, none, some, [], ◌∷◌, ◌++◌, Dict,
  arith, Bool-cases, if◌then◌else◌, Option-cases,
}
use flyrank_capstone_lead_ca.Errors.{Error, app_error, Result, ok, err}
use flyrank_capstone_lead_ca.Models.{Widget, Submission, SpamEvent, Tables}
use flyrank_capstone_lead_ca.Session.{
  Session, opened, Action, apply, add_spam, scalar_one_or_none, continue, pure, raise, ◌>>◌,
  write_all, commit,
}
use flyrank_capstone_lead_ca.Ratelimit.Window.{LimitDecision}
use flyrank_capstone_lead_ca.Ratelimit.{SubmissionRateLimiter, check}
use flyrank_capstone_lead_ca.Spam.{classify}
use flyrank_capstone_lead_ca.Schemas.{SubmissionCreate}
use flyrank_capstone_lead_ca.Widgets.{with_public_id}
use flyrank_capstone_lead_ca.Widgets.Serving.{
  get_active_widget_by_public_id, active_or_raise, origin_allowed,
}
use flyrank_capstone_lead_ca.Submissions.Validate.{validate_against_widget}
use flyrank_capstone_lead_ca.Submissions.Create.{record_spam}
use flyrank_capstone_lead_ca.Submissions.Create.Atomic.{IsAtomic, create_submission-IsAtomic}
use flyrank_capstone_lead_ca.Public.{Request, client_ip}
use flyrank_capstone_lead_ca.Public.Submit.{
  Accepted, accepted, World, identify, context, take_in, too_many, after_limit, after_identify,
  submit,
}

-- Looking for the widget writes nothing.
active_or_raise_lem : (o : Option Widget) (z : Session) → (active_or_raise o z).1 ≡ z
active_or_raise_lem none z = refl
active_or_raise_lem (some w) z = ground arith

continue-active : (r : Result (Option Widget)) (z : Session) → (continue r active_or_raise z).1 ≡ z
continue-active (ok o) z = active_or_raise_lem o z
continue-active (err x) z = refl

get_active_lem : (id : String) (z : Session) → (get_active_widget_by_public_id id z).1 ≡ z
unfolding get_active_widget_by_public_id
get_active_lem id z = continue-active (scalar_one_or_none (with_public_id id z.seen)) z

continue_lem :
    {A B : Type 0} (r : Result A) (f : A → Action B) (z : Session)
    → ((a : A) → (f a z).1 ≡ z)
    → (continue r f z).1 ≡ z
continue_lem (ok a) f z keeps = keeps a
continue_lem (err x) f z keeps = refl

identify_lem :
    (req : Request) (payload : SubmissionCreate) (z : Session) → (identify req payload z).1 ≡ z
unfolding identify
identify_lem req payload z = rw (get_active_lem payload.widget_id z) (
    continue_lem (get_active_widget_by_public_id payload.widget_id z).0
      (λ w.
        if origin_allowed w req.origin
        then pure w
        else raise (app_error "this origin is not allowed to submit to this widget" 403))
      z (λ w. ground arith))

-- The refused attempt as the endpoint records it.
abbrev pub spam_row : World → Request → SubmissionCreate → Widget → SpamEvent
spam_row v req payload widget = record {
  id = v.stamp.spam_id;
  widget_id = some widget.id;
  tenant_id = some widget.tenant_id;
  reason = (classify v.settings payload.honeypot payload.elapsed_ms).reason;
  ip = some (client_ip req);
  created_at = v.stamp.now;
}

module _ (v : World) (req : Request) (payload : SubmissionCreate) (t : Tables) where
  abbrev Kept : Widget → Option ℕ → Session → Type 0
  Kept widget none z =
      ((classify v.settings payload.honeypot payload.elapsed_ms).is_spam ≡ true)
      × (z.saved ≡ record t { spam_events = t.spam_events ++ spam_row v req payload widget ∷ [] })
  Kept widget (some id) z =
      ((classify v.settings payload.honeypot payload.elapsed_ms).is_spam ≡ false)
      × ((r : Submission) × (id ≡ r.id)
          × (IsAtomic v.engine v.settings v.stamp widget v.network v.others (context req) t
              (validate_against_widget v.settings widget payload.lead) (ok r, z)))

  -- What an answer tells of the tables that are committed then. An answer with no id: the verdict
  -- was spam, and one spam event was written. An answer with an id: the verdict was not spam, and
  -- the call of the service returned a row with that id. An error: nothing was written.
  abbrev pub Leaves : Widget → Result Accepted × Session → Type 0
  Leaves widget (err x, z) = (z.saved ≡ t) ⊎ (z.saved ≡ v.others t)
  Leaves widget (ok a, z) = Kept widget a.id z

  record_spam_lem :
      (widget : Widget) (d : LimitDecision) (message : String)
      → (classify v.settings payload.honeypot payload.elapsed_ms).is_spam ≡ true
      → Leaves widget (
          (record_spam v.engine v.stamp widget
                (some (client_ip req))
                (classify v.settings payload.honeypot payload.elapsed_ms).reason
              >> pure (accepted d none message))
            (opened t))
  unfolding record_spam commit write_all apply
  record_spam_lem widget d message spam =
      elim (Option-cases (v.engine.refusal t (add_spam (spam_row v req payload widget)))) [
        | inl n ↦ rw n (spam, refl)
        | inr (x, n) ↦ rw n (inl refl)
      ]

  saved_anyway :
      (widget : Widget) (cleaned : Result (Dict String)) (x : Error) (z : Session)
      → IsAtomic v.engine v.settings v.stamp widget v.network v.others
          (context req)
          t
          cleaned
          (err x, z)
      → (z.saved ≡ t) ⊎ (z.saved ≡ v.others t)
  saved_anyway widget (err y) x z h = inl (ground arith)
  saved_anyway widget (ok cleaned) x z h = h

  create_lem :
      (widget : Widget) (d : LimitDecision) (message : String) (out : Result Submission × Session)
      → (classify v.settings payload.honeypot payload.elapsed_ms).is_spam ≡ false
      → IsAtomic v.engine v.settings v.stamp widget v.network v.others
          (context req)
          t
          (validate_against_widget v.settings widget payload.lead)
          out
      → Leaves widget (continue out.0 (λ r. pure (accepted d (some r.id) message)) out.1)
  create_lem widget d message (ok r, z) fine h = (fine, (r, refl, h))
  create_lem widget d message (err x, z) fine h = saved_anyway widget _ x z h

  take_in_lem :
      (widget : Widget) (d : LimitDecision)
      → Leaves widget (take_in v req payload widget d (opened t))
  unfolding take_in
  take_in_lem widget d =
      elim (Bool-cases (classify v.settings payload.honeypot payload.elapsed_ms).is_spam) [
        | inl spam ↦ rw spam (record_spam_lem widget d widget.success_message spam)
        | inr fine ↦ rw fine (
            create_lem widget d widget.success_message _ fine (
              create_submission-IsAtomic v.engine v.settings v.stamp widget v.network v.others
                (context req) t payload))
      ]

  -- How the request ends, by the limiter's answer.
  abbrev Limited : Widget → Result LimitDecision → Result Accepted × Session → Type 0
  Limited widget (err x) out = out ≡ (err x, opened t)
  Limited widget (ok d) out =
      ((d.allowed ≡ true) × Leaves widget out)
      ⊎ ((d.allowed ≡ false) × (out ≡ (err (too_many d), opened t)))

  -- The limiter's answer and its state after it.
  abbrev pub asked : Widget → SubmissionRateLimiter → Result LimitDecision × SubmissionRateLimiter
  asked widget l = check v.tick v.settings v.ip_now v.widget_now (client_ip req) widget.public_id l

  -- How the request ends, by what `identify` says.
  abbrev pub Ends :
      Result Widget
      → SubmissionRateLimiter
      → Result Accepted × SubmissionRateLimiter × Session
      → Type 0
  Ends (err x) l out = out ≡ (err x, l, opened t)
  Ends (ok widget) l (a, l', z) =
      (l' ≡ (asked widget l).1) × Limited widget (asked widget l).0 (a, z)

  allowed-Limited :
      (widget : Widget) (d : LimitDecision) (b : Bool)
      → d.allowed ≡ b
      → Limited widget
          (ok d)
          ((if b then take_in v req payload widget d else raise (too_many d)) (opened t))
  allowed-Limited widget d true passed = inl (passed, take_in_lem widget d)
  allowed-Limited widget d false refused = inr (refused, refl)

  after_limit-Limited :
      (widget : Widget) (r : Result LimitDecision)
      → Limited widget r (after_limit v req payload widget r (opened t))
  after_limit-Limited widget (err x) = refl
  after_limit-Limited widget (ok d) = allowed-Limited widget d d.allowed refl

  after_identify-Ends :
      (r : Result Widget) (l : SubmissionRateLimiter)
      → Ends r l (after_identify v req payload r l (opened t))
  after_identify-Ends (err x) l = refl
  after_identify-Ends (ok widget) l = (refl, after_limit-Limited widget (asked widget l).0)

  -- For every state of the limiter, on a freshly opened session. Where the widget is not served to
  -- this request, the error is raised and neither the limiter nor a table changes. Otherwise the
  -- limiter is asked exactly once, whatever comes after. If it refuses, the answer is 429 and no
  -- table changes. If it lets the request pass, then an answer without an id means that the verdict
  -- was spam, and exactly one spam event was written; an answer with an id means that it was not,
  -- and that the service returned the row with that id, in one of the ways in which it may; and an
  -- error means that this request wrote nothing.
  pub submit-Ends :
      (l : SubmissionRateLimiter)
      → Ends (identify req payload (opened t)).0 l (submit v req payload l (opened t))
  unfolding submit
  submit-Ends l =
      rw (identify_lem req payload (opened t))
        (after_identify-Ends (identify req payload (opened t)).0 l)
