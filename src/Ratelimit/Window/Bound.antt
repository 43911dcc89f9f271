-- ===== src/Ratelimit/Window/Bound.antt =====
-- No window of time holds more admitted requests of one key than the limit.
use flyrank_capstone_lead_ca.Prelude.{
  ℕ, ◌+◌, ◌≤◌, ◌≡◌, refl, sym, ◌∙◌, String, Bool, true, false, ◌&&◌, ◌==◌, List, [], ◌∷◌, ◌++◌,
  arith, length, leb, ltb, where_, if◌then◌else◌, All, All-append, Bool-cases, inl, inr,
  length-where_mono, eq_iff,
}
use mathlib.Core.List.{append-nil, append_assoc}
use mathlib.Core.Path.{subst}
use flyrank_capstone_lead_ca.Ratelimit.Window.Reference.{
  alive, times, admits, record_hit, answers, final_log, Monotone, times-record_hit,
}
use flyrank_capstone_lead_ca.Ratelimit.Window.Admission.{serve, fresh, serve-answers}

-- The requests that got the answer `true`.
unfoldable pub let_through : List (String × ℕ) → List Bool → List (String × ℕ)
let_through (r ∷ rs) (a ∷ as_) = let rest = let_through rs as_ in if a then r ∷ rest else rest
let_through _ _ = []

-- A time in the window that ends with `at`: later than `at - window`, and not after `at`.
abbrev pub within : ℕ → ℕ → ℕ → Bool
within window at t = leb t at && alive window at t

abbrev pub count_within : ℕ → ℕ → List ℕ → ℕ
count_within window at hits = length (where_ (within window at) hits)

-- The admitted hits of a key: none after `last`, and no window holds more than `limit`.
record IsBounded (window limit last : ℕ) (hits : List ℕ) : Type 0 where
  past : All (λ t. t ≤ last) hits
  bounded : (at : ℕ) → count_within window at hits ≤ limit

count_within_snoc :
    (window at now : ℕ) (hits : List ℕ)
    → count_within window at (hits ++ now ∷ [])
      ≡ count_within window at hits + (if within window at now then 1 else 0)
unfolding where_
count_within_snoc window at now [] = ground arith
count_within_snoc window at now (t ∷ hits) = ground (arith, count_within_snoc window at now hits)

-- What lies in a window that ends at `now` or later counted at `now`.
count_within-le-alive :
    (window now at : ℕ) (hits : List ℕ)
    → now ≤ at
    → count_within window at hits ≤ length (where_ (alive window now) hits)
count_within-le-alive window now at hits h =
    length-where_mono (within window at) (alive window now) hits (λ t k. ground arith)

past_later : (last now : ℕ) (b : List ℕ) → last ≤ now → All (λ t. t ≤ last) b → All (λ t. t ≤ now) b
past_later last now [] h k = tt
past_later last now (t ∷ b) h k = (omega arith, past_later last now b h k.1)

IsBounded-later :
    (window limit last now : ℕ) (hits : List ℕ)
    → last ≤ now
    → IsBounded window limit last hits
    → IsBounded window limit now hits
IsBounded-later window limit last now hits h b = record {
  past = past_later last now hits h b.past;
  bounded = b.bounded;
}

-- A hit that is recorded because fewer than `limit` count keeps the bound.
IsBounded-snoc :
    (window limit last now : ℕ) (hits : List ℕ)
    → last ≤ now
    → ltb (length (where_ (alive window now) hits)) limit ≡ true
    → IsBounded window limit last hits
    → IsBounded window limit now (hits ++ now ∷ [])
IsBounded-snoc window limit last now hits h few b = record {
  past =
      All-append (λ t. t ≤ now) hits (now ∷ []) (past_later last now hits h b.past)
        (omega arith, tt);
  bounded = λ at.
      rw (count_within_snoc window at now hits)
        (ground (arith, b.bounded at, count_within-le-alive window now at hits));
}

AllBounded : ℕ → ℕ → ℕ → List (String × ℕ) → Type 0
AllBounded window limit last log = (key : String) → IsBounded window limit last (times key log)

hit_or_not-IsBounded :
    (window limit last now : ℕ) (hits : List ℕ) (few : Bool)
    → last ≤ now
    → ltb (length (where_ (alive window now) hits)) limit ≡ few
    → IsBounded window limit last hits
    → IsBounded window limit now (if few then hits ++ now ∷ [] else hits)
hit_or_not-IsBounded window limit last now hits true h e b =
    IsBounded-snoc window limit last now hits h e b
hit_or_not-IsBounded window limit last now hits false h e b =
    IsBounded-later window limit last now hits h b

record_hit-AllBounded :
    (window limit last now : ℕ) (key : String) (log : List (String × ℕ))
    → last ≤ now
    → AllBounded window limit last log
    → AllBounded window limit now (record_hit window limit key now log)
unfolding AllBounded admits
record_hit-AllBounded window limit last now key log h b other =
    rw (times-record_hit window limit now key other log) (elim (Bool-cases (key == other)) [
      | inl e ↦ rw e (
          subst
            (λ k.
              IsBounded window limit now
                (if admits window limit key now log then times k log ++ now ∷ [] else times k log))
            ((eq_iff key other).0 e)
            (hit_or_not-IsBounded window limit last now (times key log) _ h refl (b key)))
      | inr e ↦ rw e (IsBounded-later window limit last now (times other log) h (b other))
    ])

final_log-bounded :
    (window limit last : ℕ) (requests log : List (String × ℕ)) (key : String) (at : ℕ)
    → Monotone last requests
    → AllBounded window limit last log
    → count_within window at (times key (final_log window limit log requests)) ≤ limit
unfolding final_log AllBounded
final_log-bounded window limit last [] log key at m b = (b key).bounded at
final_log-bounded window limit last ((k, now) ∷ rest) log key at m b =
    final_log-bounded window limit now rest (record_hit window limit k now log) key at m.1
      (record_hit-AllBounded window limit last now k log m.0 b)

-- The reference's log holds what was there and what it let through.
final_log-let_through :
    (window limit : ℕ) (requests log : List (String × ℕ))
    → final_log window limit log requests
      ≡ log ++ let_through requests (answers window limit log requests)
unfolding final_log let_through answers record_hit
final_log-let_through window limit [] log = sym (append-nil log)
final_log-let_through window limit ((k, now) ∷ rest) log =
    elim (Bool-cases (admits window limit k now log)) [
      | inl e ↦ rw e (
          final_log-let_through window limit rest (log ++ (k, now) ∷ [])
          ∙ append_assoc log ((k, now) ∷ []) _)
      | inr e ↦ rw e (final_log-let_through window limit rest log)
    ]

none-AllBounded : (window limit : ℕ) → AllBounded window limit 0 []
unfolding AllBounded times where_
none-AllBounded window limit key = record { past = tt; bounded = λ at. omega arith }

-- For any sequence of requests at times that do not decrease, served by a new limiter: whatever the
-- key and the instant `at`, at most `limit` of the requests of that key that were let through lie
-- in the window that ends at `at`.
pub let_through-le-limit :
    (tick limit window at : ℕ) (key : String) (requests : List (String × ℕ))
    → Monotone 0 requests
    → count_within window at
        (times key (let_through requests (serve tick limit requests (fresh window))))
      ≤ limit
let_through-le-limit tick limit window at key requests m =
    rw
      (serve-answers tick limit window requests m, ← final_log-let_through window limit requests [])
      (final_log-bounded window limit 0 requests [] key at m (none-AllBounded window limit))
