-- ===== src/Ratelimit/Window/Admission.antt =====
-- The pruned buckets admit the requests that the reference admits, and never more than the limit.
use flyrank_capstone_lead_ca.Prelude.{
  ℕ, ◌+◌, ◌≤◌, ◌<◌, ◌≡◌, refl, ap, sym, ◌∙◌, String, Bool, true, false, ◌==◌, eq_iff, List, [], ◌∷◌,
  ◌++◌, arith, length, All, ltb, where_, lookup, lookup-insert, if◌then◌else◌, All-append,
  where-append, Bool-cases, inl, inr,
}
use mathlib.Core.Path.{ap₂, subst}
use flyrank_capstone_lead_ca.Errors.{Result, ok, err}
use flyrank_capstone_lead_ca.Ratelimit.Window.{
  LimitDecision, Bucket, SlidingWindowLimiter, bucket_of, prune, decide, check,
}
use flyrank_capstone_lead_ca.Ratelimit.Window.Reference.{
  alive, times, admits, record_hit, answers, Monotone, IsSorted, times-record_hit, where-All,
  alive-alive, All-where_of, IsSorted-where, IsSorted-snoc,
}

-- What the endpoint asks of a check: was the request let through?
abbrev pub passed : Result LimitDecision → Bool
passed (ok d) = d.allowed
passed (err e) = false

module _ (tick limit : ℕ) where
  -- A sequence of checks on one limiter, and whether each passed.
  unfoldable pub serve : List (String × ℕ) → SlidingWindowLimiter → List Bool
  serve [] l = []
  serve ((key, now) ∷ rest) l =
      let (r, l') = check tick limit now key "" l in passed r ∷ serve rest l'

All-alive :
    (window now t : ℕ) (b : List ℕ)
    → now < t + window
    → All (λ u. t ≤ u) b
    → All (λ u. alive window now u ≡ true) b
All-alive window now t [] h k = tt
All-alive window now t (u ∷ b) h k = (ground arith, All-alive window now t b h k.1)

-- In a sorted bucket, dropping from the front until the head counts keeps all that counts.
pub prune-eq-where :
    (window now : ℕ) (b : Bucket) → IsSorted b → prune window now b ≡ where_ (alive window now) b
unfolding prune where_
prune-eq-where window now [] h = refl
prune-eq-where window now (t ∷ b) h = ground (
  arith,
  prune-eq-where window now b h.1,
  where-All (alive window now) b,
  All-alive window now t b,
)

-- The decision on a pruned bucket, on every branch.
pub decide-passed :
    (tick window limit now : ℕ) (scope : String) (b : Bucket)
    → passed (decide tick window limit now scope b).0 ≡ ltb (length b) limit
unfolding decide
decide-passed tick window limit now scope [] = ground arith
decide-passed tick window limit now scope (t ∷ b) = ground arith

pub decide-bucket :
    (tick window limit now : ℕ) (scope : String) (b : Bucket)
    → (decide tick window limit now scope b).1 ≡ (if ltb (length b) limit then b ++ now ∷ [] else b)
unfolding decide
decide-bucket tick window limit now scope [] = ground arith
decide-bucket tick window limit now scope (t ∷ b) = ground arith

-- The bucket of a key holds what still counts in the log of that key.
record Agrees (window last : ℕ) (b : Bucket) (hits : List ℕ) : Type 0 where
  sorted : IsSorted b
  past : All (λ t. t ≤ last) b
  same : (now : ℕ) → last ≤ now → where_ (alive window now) b ≡ where_ (alive window now) hits

past_later : (last now : ℕ) (b : Bucket) → last ≤ now → All (λ t. t ≤ last) b → All (λ t. t ≤ now) b
past_later last now [] h k = tt
past_later last now (t ∷ b) h k = (omega arith, past_later last now b h k.1)

module _ (tick window limit last now : ℕ) (scope : String) (b : Bucket) (hits : List ℕ)
    (a : Agrees window last b hits) (later : last ≤ now) where
  kept : Bucket
  kept = prune window now b

  kept-eq : kept ≡ where_ (alive window now) hits
  unfolding kept
  kept-eq = prune-eq-where window now b a.sorted ∙ a.same now later

  kept-Agrees : Agrees window now kept hits
  unfolding kept
  kept-Agrees = record {
    sorted = rw (prune-eq-where window now b a.sorted) (IsSorted-where _ b a.sorted);
    past =
        rw (prune-eq-where window now b a.sorted)
          (All-where_of _ _ b (past_later last now b later a.past));
    same = λ n h.
        rw (prune-eq-where window now b a.sorted)
          (alive-alive window now n b h ∙ a.same n (omega arith));
  }

-- A hit at the present time is one more time stamp on both sides.
snoc-Agrees :
    (window now : ℕ) (b : Bucket) (hits : List ℕ)
    → Agrees window now b hits
    → Agrees window now (b ++ now ∷ []) (hits ++ now ∷ [])
snoc-Agrees window now b hits a = record {
  sorted = IsSorted-snoc b now a.sorted a.past;
  past = All-append (λ t. t ≤ now) b (now ∷ []) a.past (omega arith, tt);
  same = λ n h.
      where-append (alive window n) b (now ∷ [])
      ∙ (rw (a.same n h) (sym (where-append (alive window n) hits (now ∷ []))));
}

-- The limiter and the log agree on every key.
pub AllAgree : ℕ → SlidingWindowLimiter → List (String × ℕ) → Type 0
AllAgree last l log = (key : String) → Agrees l.window last (bucket_of key l) (times key log)

Agrees-later :
    (window last now : ℕ) (b : Bucket) (hits : List ℕ)
    → last ≤ now
    → Agrees window last b hits
    → Agrees window now b hits
Agrees-later window last now b hits h a = record {
  sorted = a.sorted;
  past = past_later last now b h a.past;
  same = λ n k. a.same n (omega arith);
}

module _ (tick limit last now : ℕ) (key : String) (l : SlidingWindowLimiter)
    (log : List (String × ℕ)) (later : last ≤ now) where
  -- One check passes exactly when the reference admits the request.
  pub check-passed :
      AllAgree last l log
      → passed (check tick limit now key "" l).0 ≡ admits l.window limit key now log
  unfolding check admits AllAgree
  check-passed a =
      decide-passed tick l.window limit now "" (prune l.window now (bucket_of key l))
      ∙ ap (λ b. ltb (length b) limit)
          (prune-eq-where l.window now (bucket_of key l) (a key).sorted ∙ (a key).same now later)

decide-Agrees :
    (tick window limit now : ℕ) (scope : String) (b : Bucket) (hits : List ℕ) (open_ : Bool)
    → ltb (length b) limit ≡ open_
    → Agrees window now b hits
    → Agrees window now
        (decide tick window limit now scope b).1
        (if open_ then hits ++ now ∷ [] else hits)
decide-Agrees tick window limit now scope b hits true e a =
    rw (decide-bucket tick window limit now scope b, e) (snoc-Agrees window now b hits a)
decide-Agrees tick window limit now scope b hits false e a =
    rw (decide-bucket tick window limit now scope b, e) a

module _ (tick limit last now : ℕ) (key : String) (l : SlidingWindowLimiter)
    (log : List (String × ℕ)) (later : last ≤ now) (a : AllAgree last l log) where
  here_Agrees :
      Agrees l.window now
        (decide tick l.window limit now "" (prune l.window now (bucket_of key l))).1
        (if admits l.window limit key now log then times key log ++ now ∷ [] else times key log)
  unfolding AllAgree kept admits
  here_Agrees =
      decide-Agrees tick l.window limit now "" (prune l.window now (bucket_of key l))
        (times key log) _
        (ap (λ b. ltb (length b) limit)
          (prune-eq-where l.window now (bucket_of key l) (a key).sorted ∙ (a key).same now later))
        (kept-Agrees tick l.window limit last now "" (bucket_of key l) (times key log) (a key)
          later)

  -- One check keeps the limiter and the log in agreement.
  pub check-AllAgree :
      AllAgree now (check tick limit now key "" l).1 (record_hit l.window limit key now log)
  unfolding check AllAgree
  check-AllAgree other = elim (Bool-cases (key == other)) [
    | inl e ↦
        rw (times-record_hit l.window limit now key other log, lookup-insert, e)
          (subst
            (λ k.
              Agrees l.window now
                (decide tick l.window limit now "" (prune l.window now (bucket_of key l))).1
                (if admits l.window limit key now log
                  then times k log ++ now ∷ []
                  else times k log))
            ((eq_iff key other).0 e) here_Agrees)
    | inr e ↦
        rw (times-record_hit l.window limit now key other log, lookup-insert, e)
          (Agrees-later l.window last now (bucket_of other l) (times other log) later (a other))
  ]

module _ (tick limit : ℕ) where
  serve_from :
      (requests : List (String × ℕ)) (last : ℕ) (l : SlidingWindowLimiter) (log : List (String × ℕ))
      → Monotone last requests
      → AllAgree last l log
      → serve tick limit requests l ≡ answers l.window limit log requests
  unfolding serve answers check
  serve_from [] last l log m a = refl
  serve_from ((key, now) ∷ rest) last l log m a =
      ap₂ ◌∷◌ (check-passed tick limit last now key l log m.0 a) (
        unfold check in
        serve_from rest now (check tick limit now key "" l).1
          (record_hit l.window limit key now log) m.1
          (check-AllAgree tick limit last now key l log m.0 a))

abbrev pub fresh : ℕ → SlidingWindowLimiter
fresh window = record { window = window; hits = [] }

fresh-AllAgree : (window : ℕ) → AllAgree 0 (fresh window) []
unfolding AllAgree times lookup
fresh-AllAgree window key = record { sorted = tt; past = tt; same = λ now h. refl }

-- For any limit, and any sequence of requests on any keys at times that do not decrease, a new
-- limiter lets through exactly the requests that the reference admits: those that find fewer than
-- `limit` admitted requests of the same key within the window.
pub serve-answers :
    (tick limit window : ℕ) (requests : List (String × ℕ))
    → Monotone 0 requests
    → serve tick limit requests (fresh window) ≡ answers window limit [] requests
serve-answers tick limit window requests m =
    serve_from tick limit requests 0 (fresh window) [] m (fresh-AllAgree window)
