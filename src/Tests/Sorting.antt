-- ===== src/Tests/Sorting.antt =====
-- A database that sorts submissions by their time.
use mathlib.Core.List.{Permᴰ}
use flyrank_capstone_lead_ca.Prelude.{
  ℕ, ◌≤◌, refl, List, [], ◌∷◌, leb, arith, All, All-mono, inl, inr, Bool-cases, if◌then◌else◌,
}
use flyrank_capstone_lead_ca.Models.{Submission}
use flyrank_capstone_lead_ca.Dashboard.{Sorting}
use flyrank_capstone_lead_ca.Dashboard.Sorted.{OnlySorts, IsNewestFirst, IsOrdered}
use flyrank_capstone_lead_ca.Tests.Samples.{same_rows}

put : Submission → List Submission → List Submission
put r [] = r ∷ []
put r (x ∷ rows) =
    let rest = put r rows in if leb x.created_at r.created_at then r ∷ x ∷ rows else x ∷ rest

pub sorted : List Submission → List Submission
sorted [] = []
sorted (r ∷ rows) = put r (sorted rows)

put-Perm : (r : Submission) (rows : List Submission) → Permᴰ (put r rows) (r ∷ rows)
unfolding put
put-Perm r [] = same_rows (r ∷ [])
put-Perm r (x ∷ rows) = elim (Bool-cases (leb x.created_at r.created_at)) [
  | inl e ↦ rw e (same_rows (r ∷ x ∷ rows))
  | inr e ↦ rw e (Permᴰ.trans (Permᴰ.cons refl (put-Perm r rows)) (Permᴰ.swap refl refl))
]

sorted-Perm : (rows : List Submission) → Permᴰ (sorted rows) rows
unfolding sorted
sorted-Perm [] = Permᴰ.nil
sorted-Perm (r ∷ rows) = Permᴰ.trans (put-Perm r (sorted rows)) (Permᴰ.cons refl (sorted-Perm rows))

put-All :
    (n : ℕ) (r : Submission) (rows : List Submission)
    → r.created_at ≤ n
    → All (λ x. x.created_at ≤ n) rows
    → All (λ x. x.created_at ≤ n) (put r rows)
unfolding put
put-All n r [] h k = (h, tt)
put-All n r (x ∷ rows) h k = elim (Bool-cases (leb x.created_at r.created_at)) [
  | inl e ↦ rw e (h, k)
  | inr e ↦ rw e (k.0, put-All n r rows h k.1)
]

put-IsOrdered : (r : Submission) (rows : List Submission) → IsOrdered rows → IsOrdered (put r rows)
unfolding put
put-IsOrdered r [] h = (tt, tt)
put-IsOrdered r (x ∷ rows) h = elim (Bool-cases (leb x.created_at r.created_at)) [
  | inl e ↦
      let under : x.created_at ≤ r.created_at = ground arith in
      rw e ((under, All-mono (λ y. y.created_at ≤ x.created_at) _ (λ y k. omega arith) rows h.0), h)
  | inr e ↦ rw e (put-All x.created_at r rows (ground arith) h.0, put-IsOrdered r rows h.1)
]

sorted-IsOrdered : (rows : List Submission) → IsOrdered (sorted rows)
unfolding sorted
sorted-IsOrdered [] = tt
sorted-IsOrdered (r ∷ rows) = put-IsOrdered r (sorted rows) (sorted-IsOrdered rows)

abbrev pub by_time : Sorting
by_time = record { newest_first = λ limit offset rows. sorted rows; most_first = λ f rows. rows }

pub by_time-OnlySorts : OnlySorts by_time
by_time-OnlySorts = record {
  newest = λ limit offset rows. sorted-Perm rows;
  most = λ f rows. same_rows rows;
}

pub by_time-IsNewestFirst : IsNewestFirst by_time
by_time-IsNewestFirst = record { ordered = λ limit offset rows. sorted-IsOrdered rows }
