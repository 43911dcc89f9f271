-- ===== src/Ratelimit/Buckets.antt =====
-- The two buckets together: which of them a request spends, and what the client is told.
use flyrank_capstone_lead_ca.Prelude.{ℕ, ◌≡◌, refl, String, true, ◌&&◌, arith, if◌then◌else◌}
use flyrank_capstone_lead_ca.Config.{Settings}
use flyrank_capstone_lead_ca.Errors.{Result, ok, err}
use flyrank_capstone_lead_ca.Ratelimit.{
  SubmissionRateLimiter, ip_key, widget_key, combine, after_ip, check,
}
use flyrank_capstone_lead_ca.Ratelimit.Window
use flyrank_capstone_lead_ca.Ratelimit.Window.{LimitDecision, SlidingWindowLimiter, decide}
use flyrank_capstone_lead_ca.Ratelimit.Window.Admission.{passed}

module _ (tick : ℕ) (s : Settings) (now now' : ℕ) (ip public_id : String)
    (l : SubmissionRateLimiter) where
  -- What each bucket would answer alone.
  abbrev pub ip_alone : Result LimitDecision × SlidingWindowLimiter
  ip_alone = Window.check tick s.rate_limit_ip_per_minute now (ip_key ip) "ip" l.ip

  abbrev pub widget_alone : Result LimitDecision × SlidingWindowLimiter
  widget_alone =
      Window.check tick s.rate_limit_widget_per_minute now' (widget_key public_id) "widget" l.widget

  passed-combine :
      (a : LimitDecision) (r : Result LimitDecision)
      → a.allowed ≡ true
      → passed (combine a r) ≡ passed r
  passed-combine a (err e) h = refl
  passed-combine a (ok b) h = ground arith

  after_ip_lem :
      (r : Result LimitDecision) (ip' : SlidingWindowLimiter)
      → (passed (after_ip tick s now' public_id (record l { ip = ip' }) r).0
          ≡ passed r && passed widget_alone.0)
        × ((after_ip tick s now' public_id (record l { ip = ip' }) r).1.ip ≡ ip')
        × ((after_ip tick s now' public_id (record l { ip = ip' }) r).1.widget
            ≡ (if passed r then widget_alone.1 else l.widget))
  unfolding after_ip
  after_ip_lem (err e) ip' = (refl, refl, refl)
  after_ip_lem (ok a) ip' =
      (ground (arith, passed-combine a widget_alone.0), ground arith, ground arith)

  -- With rate limiting enabled a request passes exactly when both buckets, asked alone, let it pass.
  -- The address's bucket is always charged as it would be alone. The widget's bucket is charged so
  -- when the address has passed, and is left as it was otherwise.
  pub check-passed :
      s.rate_limit_enabled ≡ true
      → (passed (check tick s now now' ip public_id l).0
          ≡ passed ip_alone.0 && passed widget_alone.0)
        × ((check tick s now now' ip public_id l).1.ip ≡ ip_alone.1)
        × ((check tick s now now' ip public_id l).1.widget
            ≡ (if passed ip_alone.0 then widget_alone.1 else l.widget))
  unfolding check
  check-passed h = rw h (after_ip_lem ip_alone.0 ip_alone.1)
