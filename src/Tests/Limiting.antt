-- ===== src/Tests/Limiting.antt =====
-- The theorems on rate limiting, spam and enrichment at concrete inputs.
use flyrank_capstone_lead_ca.Prelude.{
  ℕ, ◌≡◌, ◌≤◌, refl, String, true, false, ◌&&◌, some, List, [], ◌∷◌, arith, lookup, insert,
  if◌then◌else◌,
}
use flyrank_capstone_lead_ca.Config.{defaults}
use flyrank_capstone_lead_ca.Errors.{ok}
use flyrank_capstone_lead_ca.Ratelimit.Window.{
  LimitDecision, SlidingWindowLimiter, prune, decide, check,
}
use flyrank_capstone_lead_ca.Ratelimit.Window.Reference.{times, answers}
use flyrank_capstone_lead_ca.Ratelimit.Window.Admission.{passed, serve, fresh, serve-answers}
use flyrank_capstone_lead_ca.Ratelimit.Window.Bound.{
  let_through, count_within, let_through-le-limit,
}
use flyrank_capstone_lead_ca.Ratelimit.Window.Retry.{retry_after_suffices}
use flyrank_capstone_lead_ca.Ratelimit
use flyrank_capstone_lead_ca.Ratelimit.{SubmissionRateLimiter}
use flyrank_capstone_lead_ca.Ratelimit.Buckets.{ip_alone, widget_alone, check-passed}
use flyrank_capstone_lead_ca.Enrichment.{enrich_with, ip_api_com, ipapi_co}
use flyrank_capstone_lead_ca.Enrichment.Fallback.{Explains, enrich_with-Explains}
use flyrank_capstone_lead_ca.Tests.Samples.{offline}

-- Two requests pass, the third is refused, and so is the fourth; the fifth comes a window later.
abbrev requests : List (String × ℕ)
requests = ("a", 0) ∷ ("a", 10) ∷ ("a", 20) ∷ ("b", 20) ∷ ("a", 65) ∷ []

served : serve 1 2 requests (fresh 60) ≡ true ∷ true ∷ false ∷ true ∷ true ∷ []
unfolding serve check prune decide lookup insert
served = refl

serve-answers_example : serve 1 2 requests (fresh 60) ≡ answers 60 2 [] requests
serve-answers_example = serve-answers 1 2 60 requests (ground arith)

let_through-le-limit_example :
    count_within 60 69 (times "a" (let_through requests (serve 1 2 requests (fresh 60)))) ≤ 2
let_through-le-limit_example = let_through-le-limit 1 2 60 69 "a" requests (ground arith)

abbrev full : SlidingWindowLimiter
full = record { window = 60; hits = ("a", 0 ∷ 10 ∷ []) ∷ [] }

abbrev refusal : LimitDecision
refusal = record { allowed = false; limit = 2; remaining = 0; retry_after = 41; scope = "ip" }

full_refuses : (check 1 2 20 "a" "ip" full).0 ≡ ok refusal
unfolding check prune decide lookup insert
full_refuses = refl

retry_after_suffices_example :
    passed (check 1 2 61 "a" "ip" (check 1 2 20 "a" "ip" full).1).0 ≡ true
unfolding lookup
retry_after_suffices_example =
    retry_after_suffices 1 2 20 61 "a" "ip" full refusal (omega arith) (omega arith) (omega arith)
      full_refuses refl (omega arith)

abbrev both : SubmissionRateLimiter
both = record { ip = fresh 60; widget = fresh 60 }

check-passed_example :
    (passed (Ratelimit.check 1 defaults 5 5 "10.0.0.1" "w" both).0
      ≡ passed (ip_alone 1 defaults 5 5 "10.0.0.1" "w" both).0
        && passed (widget_alone 1 defaults 5 5 "10.0.0.1" "w" both).0)
    × ((Ratelimit.check 1 defaults 5 5 "10.0.0.1" "w" both).1.ip
        ≡ (ip_alone 1 defaults 5 5 "10.0.0.1" "w" both).1)
    × ((Ratelimit.check 1 defaults 5 5 "10.0.0.1" "w" both).1.widget ≡ (
        if passed (ip_alone 1 defaults 5 5 "10.0.0.1" "w" both).0
        then (widget_alone 1 defaults 5 5 "10.0.0.1" "w" both).1
        else fresh 60))
check-passed_example = check-passed 1 defaults 5 5 "10.0.0.1" "w" both refl

enrich_with-Explains_example :
    Explains offline defaults
      (ip_api_com ∷ ipapi_co ∷ [])
      (some "10.0.0.1")
      (enrich_with offline defaults (ip_api_com ∷ ipapi_co ∷ []) (some "10.0.0.1"))
enrich_with-Explains_example =
    enrich_with-Explains offline defaults (ip_api_com ∷ ipapi_co ∷ []) (some "10.0.0.1")
