-- ===== src/Ratelimit/Window/Retry.antt =====
-- What a refused client is told: `retry_after`, in seconds.
use flyrank_capstone_lead_ca.Prelude.{
  ℕ, suc, ◌+◌, ◌-◌, ◌*◌, ◌/◌, ◌≤◌, ◌<◌, ◌≡◌, refl, max, String, true, false, [], ◌∷◌, arith, length,
  ltb, lookup-insert, eq_refl,
}
use flyrank_capstone_lead_ca.Errors.{ok}
use flyrank_capstone_lead_ca.Ratelimit.Window.{
  LimitDecision, Bucket, SlidingWindowLimiter, bucket_of, prune, decide, check,
}
use flyrank_capstone_lead_ca.Ratelimit.Window.Admission.{passed, decide-passed}

length-prune-le : (window now : ℕ) (b : Bucket) → length (prune window now b) ≤ length b
unfolding prune
length-prune-le window now [] = omega arith
length-prune-le window now (t ∷ b) = ground (arith, length-prune-le window now b)

prune-prune :
    (window now later : ℕ) (b : Bucket)
    → now ≤ later
    → prune window later (prune window now b) ≡ prune window later b
unfolding prune
prune-prune window now later [] h = refl
prune-prune window now later (t ∷ b) h = ground (arith, prune-prune window now later b h)

-- The oldest hit of a pruned bucket still counts.
prune_head : (window now t : ℕ) (b c : Bucket) → prune window now b ≡ t ∷ c → now < t + window
unfolding prune
prune_head window now t [] c e = absurd (cc)
prune_head window now t (u ∷ b) c e = ground (arith, prune_head window now t b c)

-- A refused request is told of the oldest hit, and leaves the bucket alone.
decide_refused :
    (tick window limit now : ℕ) (scope : String) (b : Bucket) (d : LimitDecision)
    → (decide tick window limit now scope b).0 ≡ ok d
    → d.allowed ≡ false
    → (t : ℕ) × (c : Bucket) × (b ≡ t ∷ c)
      × (d.retry_after ≡ max 1 ((t + window - now) / tick + 1))
      × ((decide tick window limit now scope b).1 ≡ t ∷ c)
      × (limit ≤ suc (length c))
unfolding decide
decide_refused tick window limit now scope [] d e f = absurd (ground arith)
decide_refused tick window limit now scope (t ∷ c) d e f =
    (t, c, refl, ground arith, ground arith, ground arith)

after_wait :
    (tick window now t wait later : ℕ)
    → 0 < tick
    → now < t + window
    → wait ≡ max 1 ((t + window - now) / tick + 1)
    → now + wait * tick ≤ later
    → t + window ≤ later
after_wait tick window now t wait later h k e m = grind arith

before_wait :
    (tick window now t wait later : ℕ)
    → 0 < tick
    → now < t + window
    → wait ≡ max 1 ((t + window - now) / tick + 1)
    → later + tick < now + wait * tick
    → later < t + window
before_wait tick window now t wait later h k e m = grind arith

prune_expired :
    (window later t : ℕ) (b : Bucket)
    → t + window ≤ later
    → length (prune window later (t ∷ b)) ≤ length b
unfolding prune
prune_expired window later t b h = ground (arith, length-prune-le window later b)

prune_current :
    (window later t : ℕ) (b : Bucket) → later < t + window → prune window later (t ∷ b) ≡ t ∷ b
unfolding prune
prune_current window later t b h = ground arith

module _ (tick limit now later : ℕ) (key scope : String) (l : SlidingWindowLimiter)
    (d : LimitDecision) (ticks : 0 < tick) (positive : 0 < limit)
    (full : length (bucket_of key l) ≤ limit) (answer : (check tick limit now key scope l).0 ≡ ok d)
    (refused : d.allowed ≡ false) where
  bucket-check_refused :
      (t : ℕ) × (c : Bucket) × (prune l.window now (bucket_of key l) ≡ t ∷ c)
      × (d.retry_after ≡ max 1 ((t + l.window - now) / tick + 1))
      × (bucket_of key (check tick limit now key scope l).1 ≡ t ∷ c)
      × (limit ≤ suc (length c))
  unfolding check
  bucket-check_refused =
      let (t, c, e, w, b, m) =
        decide_refused tick l.window limit now scope (prune l.window now (bucket_of key l)) d answer
          refused in
      (t, c, e, w, rw (lookup-insert, eq_refl) b, m)

  passed-check_later :
      (later : ℕ) (c : Bucket)
      → bucket_of key (check tick limit now key scope l).1 ≡ c
      → passed (check tick limit later key scope (check tick limit now key scope l).1).0
        ≡ ltb (length (prune l.window later c)) limit
  unfolding check
  passed-check_later later c e = rw (decide-passed tick l.window limit later scope, e)

  -- A key with at most `limit` hits, where `limit` is not 0, that was refused and asks again with
  -- nothing asked in between passes once `retry_after` seconds have gone by.
  pub retry_after_suffices :
      now + d.retry_after * tick ≤ later
      → passed (check tick limit later key scope (check tick limit now key scope l).1).0 ≡ true
  retry_after_suffices h =
      let (t, c, e, w, b, m) = bucket-check_refused in
      let current = prune_head l.window now t (bucket_of key l) c e in
      let short = length-prune-le l.window now (bucket_of key l) in
      rw (passed-check_later later (t ∷ c) b) (
        ground (
          arith,
          prune_expired l.window later t c
              (after_wait tick l.window now t d.retry_after later ticks current w h),
          short,
          e,
        ))

  -- The same key is refused again as long as more than a second of `retry_after` is left.
  retry_early_refused :
      now ≤ later
      → later + tick < now + d.retry_after * tick
      → passed (check tick limit later key scope (check tick limit now key scope l).1).0 ≡ false
  retry_early_refused h k =
      let (t, c, e, w, b, m) = bucket-check_refused in
      let current = prune_head l.window now t (bucket_of key l) c e in
      rw
        (
          passed-check_later later (t ∷ c) b,
          prune_current l.window later t c
              (before_wait tick l.window now t d.retry_after later ticks current w k),
        )
        (ground arith)
