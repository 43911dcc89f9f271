-- ===== src/Ratelimit/Window.antt =====
-- app/ratelimit.py: `LimitDecision` and `SlidingWindowLimiter`. `time.monotonic()` is a whole number of
-- ticks; a second has `tick` of them. The lock makes each check one step, so a run is a sequence of
-- checks.
pub mod Reference
pub mod Admission
pub mod Bound
pub mod Retry
use flyrank_capstone_lead_ca.Prelude.{
  ℕ, suc, ◌+◌, ◌-◌, ◌*◌, ◌/◌, max, String, Bool, true, false, not, Option, none, some, List, [],
  ◌∷◌, ◌++◌, Dict, lookup, insert, erase, length, leb, if◌then◌else◌,
}
use flyrank_capstone_lead_ca.Errors.{Result, ok, err, uncaught, index_error}

pub record LimitDecision : Type 0 where
  pub allowed : Bool
  pub limit : ℕ
  pub remaining : ℕ
  pub retry_after : ℕ
  pub scope : String

-- The time stamps of one key, the oldest at the head.
abbrev pub Bucket : Type 0
Bucket = List ℕ

pub record SlidingWindowLimiter : Type 0 where
  pub window : ℕ
  pub hits : Dict Bucket

-- `self._hits[key]` of a `defaultdict(deque)`
abbrev pub bucket_or_empty : Option Bucket → Bucket
bucket_or_empty none = []
bucket_or_empty (some b) = b

abbrev pub bucket_of : String → SlidingWindowLimiter → Bucket
bucket_of key l = bucket_or_empty (lookup key l.hits)

-- `while bucket and bucket[0] <= cutoff: bucket.popleft()`, with `cutoff = now - window`
unfoldable pub prune : ℕ → ℕ → Bucket → Bucket
prune window now [] = []
prune window now (t ∷ b) =
    let rest = prune window now b in if leb (t + window) now then rest else t ∷ b

-- What is done with the pruned bucket: the decision, and the bucket that the call leaves.
-- At a limit of 0 the bucket may be empty, and `bucket[0]` raises.
unfoldable pub decide : ℕ → ℕ → ℕ → ℕ → String → Bucket → Result LimitDecision × Bucket
decide tick window limit now scope [] = if leb limit 0 then (err (uncaught index_error), []) else (
  ok (record {
    allowed = true;
    limit = limit;
    remaining = limit - 1;
    retry_after = 0;
    scope = scope;
  }),
  now ∷ [],
)
decide tick window limit now scope (t ∷ b) =
    if leb limit (length (t ∷ b))
    then (
      ok (record {
        allowed = false;
        limit = limit;
        remaining = 0;
        retry_after = max 1 ((t + window - now) / tick + 1);
        scope = scope;
      }),
      t ∷ b,
    )
    else (
      ok (record {
        allowed = true;
        limit = limit;
        remaining = limit - length (t ∷ b ++ now ∷ []);
        retry_after = 0;
        scope = scope;
      }),
      t ∷ b ++ now ∷ [],
    )

-- `SlidingWindowLimiter.check`
unfoldable pub check :
    ℕ → ℕ → ℕ → String → String → SlidingWindowLimiter → Result LimitDecision × SlidingWindowLimiter
check tick limit now key scope l =
    let (r, b) = decide tick l.window limit now scope (prune l.window now (bucket_of key l)) in
    (r, record l { hits = insert key b l.hits })

-- `SlidingWindowLimiter.reset`
unfoldable pub reset : Option String → SlidingWindowLimiter → SlidingWindowLimiter
reset none l = record l { hits = [] }
reset (some key) l = record l { hits = erase key l.hits }
