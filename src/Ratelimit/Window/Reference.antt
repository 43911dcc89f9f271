-- ===== src/Ratelimit/Window/Reference.antt =====
-- The reference that the limiter is compared with: a log of everything admitted that is never pruned.
use mathlib.Core.List.{append-nil}
use flyrank_capstone_lead_ca.Prelude.{
  ℕ, ◌+◌, ◌≤◌, ◌≡◌, refl, String, Bool, true, ◌==◌, List, [], ◌∷◌, ◌++◌, arith, length, All, ltb,
  where_, if◌then◌else◌, All-append,
}

-- A hit of time `t` still counts at `now`.
abbrev pub alive : ℕ → ℕ → ℕ → Bool
alive window now t = ltb now (t + window)

-- The times at which requests of a key were admitted, the oldest first.
unfoldable pub times : String → List (String × ℕ) → List ℕ
times key [] = []
times key ((k, t) ∷ log) = let rest = times key log in if k == key then t ∷ rest else rest

-- A request is admitted when fewer than `limit` of the admitted requests of its key still count.
unfoldable pub admits : ℕ → ℕ → String → ℕ → List (String × ℕ) → Bool
admits window limit key now log = ltb (length (where_ (alive window now) (times key log))) limit

unfoldable pub record_hit : ℕ → ℕ → String → ℕ → List (String × ℕ) → List (String × ℕ)
unfolding admits
record_hit window limit key now log =
    if admits window limit key now log then log ++ (key, now) ∷ [] else log

-- The answers to a sequence of requests, and the log at the end.
unfoldable pub answers : ℕ → ℕ → List (String × ℕ) → List (String × ℕ) → List Bool
answers window limit log [] = []
answers window limit log ((key, now) ∷ rest) =
    admits window limit key now log
    ∷ answers window limit (record_hit window limit key now log) rest

unfoldable pub final_log : ℕ → ℕ → List (String × ℕ) → List (String × ℕ) → List (String × ℕ)
final_log window limit log [] = log
final_log window limit log ((key, now) ∷ rest) =
    final_log window limit (record_hit window limit key now log) rest

-- The clock does not run backwards: every request comes at `from` or later, and after the one before it.
abbrev pub Monotone : ℕ → List (String × ℕ) → Type 0
Monotone from [] = Unit
Monotone from ((key, now) ∷ rest) = (from ≤ now) × Monotone now rest

abbrev pub IsSorted : List ℕ → Type 0
IsSorted [] = Unit
IsSorted (t ∷ b) = All (λ u. t ≤ u) b × IsSorted b

pub times-append :
    (key : String) (log log' : List (String × ℕ))
    → times key (log ++ log') ≡ times key log ++ times key log'
unfolding times
times-append key [] log' = refl
times-append key ((k, t) ∷ log) log' = ground (arith, times-append key log log')

pub where-All : (p : ℕ → Bool) (b : List ℕ) → All (λ t. p t ≡ true) b → where_ p b ≡ b
unfolding where_
where-All p [] h = refl
where-All p (t ∷ b) h = ground (arith, where-All p b h.1)

-- What counts at a later time is among what counts at an earlier one.
pub alive-alive :
    (window now later : ℕ) (b : List ℕ)
    → now ≤ later
    → where_ (alive window later) (where_ (alive window now) b) ≡ where_ (alive window later) b
unfolding where_
alive-alive window now later [] h = refl
alive-alive window now later (t ∷ b) h = ground (arith, alive-alive window now later b h)

pub All-where_of : (P : ℕ → Type 0) (p : ℕ → Bool) (b : List ℕ) → All P b → All P (where_ p b)
unfolding where_
All-where_of P p [] h = tt
All-where_of P p (t ∷ b) h = ground (arith, All-where_of P p b h.1)

pub IsSorted-where : (p : ℕ → Bool) (b : List ℕ) → IsSorted b → IsSorted (where_ p b)
unfolding where_
IsSorted-where p [] h = tt
IsSorted-where p (t ∷ b) h =
    ground (arith, IsSorted-where p b h.1, All-where_of (λ u. t ≤ u) p b h.0)

pub IsSorted-snoc :
    (b : List ℕ) (now : ℕ) → IsSorted b → All (λ t. t ≤ now) b → IsSorted (b ++ now ∷ [])
IsSorted-snoc [] now s h = (tt, tt)
IsSorted-snoc (t ∷ b) now s h =
    (All-append (λ u. t ≤ u) b (now ∷ []) s.0 (h.0, tt), IsSorted-snoc b now s.1 h.1)

times_one :
    (now : ℕ) (key other : String)
    → times other ((key, now) ∷ []) ≡ (if key == other then now ∷ [] else [])
unfolding times
times_one now key other = refl

pub times-record_hit :
    (window limit now : ℕ) (key other : String) (log : List (String × ℕ))
    → times other (record_hit window limit key now log) ≡ (
        if key == other
        then (if admits window limit key now log
            then times other log ++ now ∷ []
            else times other log)
        else times other log)
unfolding record_hit
times-record_hit window limit now key other log = ground (
  arith,
  times-append other log ((key, now) ∷ []),
  times_one now key other,
  append-nil (times other log),
)
