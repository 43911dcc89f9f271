-- ===== src/Ratelimit.antt =====
-- app/ratelimit.py: `SubmissionRateLimiter`, the two buckets that the submission endpoint consults.
pub mod Window
pub mod Buckets
use flyrank_capstone_lead_ca.Prelude.{
  ℕ, String, append, Bool, true, false, none, leb, if◌then◌else◌,
}
use flyrank_capstone_lead_ca.Config.{Settings}
use flyrank_capstone_lead_ca.Errors.{Result, ok, err}
use Window.{LimitDecision, SlidingWindowLimiter}

pub record SubmissionRateLimiter : Type 0 where
  pub ip : SlidingWindowLimiter
  pub widget : SlidingWindowLimiter

abbrev pub disabled : LimitDecision
disabled = record { allowed = true; limit = 0; remaining = 0; retry_after = 0; scope = "disabled" }

-- `min(ip_decision, widget_decision, key=lambda d: d.remaining)`: the first of two equals
abbrev pub closest : LimitDecision → LimitDecision → LimitDecision
closest a b = if leb a.remaining b.remaining then a else b

abbrev pub ip_key : String → String
ip_key ip = append "ip:" ip

abbrev pub widget_key : String → String
widget_key public_id = append "widget:" public_id

-- What is answered once the widget's bucket was consulted too.
abbrev pub combine : LimitDecision → Result LimitDecision → Result LimitDecision
combine a (err e) = err e
combine a (ok b) = ok (if b.allowed then closest a b else b)

-- The rest of `check` after the address's bucket: the widget's bucket is consulted only when the
-- address has passed, and an address that passed has spent a hit even where the widget is refused.
unfoldable pub after_ip :
    ℕ
    → Settings
    → ℕ
    → String
    → SubmissionRateLimiter
    → Result LimitDecision
    → Result LimitDecision × SubmissionRateLimiter
after_ip tick s now public_id l (err e) = (err e, l)
after_ip tick s now public_id l (ok a) =
    let (r, widget') =
      Window.check tick s.rate_limit_widget_per_minute now (widget_key public_id) "widget"
        l.widget in
    if a.allowed then (combine a r, record l { widget = widget' }) else (ok a, l)

-- `SubmissionRateLimiter.check`; each bucket reads the clock for itself.
unfoldable pub check :
    ℕ
    → Settings
    → ℕ
    → ℕ
    → String
    → String
    → SubmissionRateLimiter
    → Result LimitDecision × SubmissionRateLimiter
unfolding after_ip
check tick s now now' ip public_id l =
    let (r, ip') = Window.check tick s.rate_limit_ip_per_minute now (ip_key ip) "ip" l.ip in
    if s.rate_limit_enabled
    then after_ip tick s now' public_id (record l { ip = ip' }) r
    else (ok disabled, l)

-- `SubmissionRateLimiter.reset`
unfoldable pub reset : SubmissionRateLimiter → SubmissionRateLimiter
reset l = record { ip = Window.reset none l.ip; widget = Window.reset none l.widget }
