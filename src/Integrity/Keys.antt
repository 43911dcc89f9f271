-- ===== src/Integrity/Keys.antt =====
-- The unique constraint of submissions, as the declarations of the migration give it.
use flyrank_capstone_lead_ca.Prelude.{
  ◌≡◌, refl, String, true, false, ◌&&◌, some, List, [], ◌∷◌, all, nat_eq, where_, arith, eq_iff,
  ◌==◌, Option-cases, inl, inr,
}
use flyrank_capstone_lead_ca.Models.{Submission}
use flyrank_capstone_lead_ca.Session.{add_submission, Engine}
use flyrank_capstone_lead_ca.Submissions.Create.{matching, has_key}
use flyrank_capstone_lead_ca.Submissions.Create.Replay.{EnforcesKeys}
use flyrank_capstone_lead_ca.Integrity.Applying.{and_parts}
use flyrank_capstone_lead_ca.Integrity.{submissions_apart, satisfies, Enforces}

apart_some :
    (r x : Submission) (k j : String)
    → submissions_apart
        (record r { idempotency_key = some k })
        (record x { idempotency_key = some j })
      ≡ true
    → (nat_eq x.widget_id r.widget_id && (j == k)) ≡ false
unfolding submissions_apart
apart_some r x k j h = ground (arith, eq_iff k j, eq_iff j k)

-- Rows that are apart have not both the widget and the key in common.
apart_keys :
    (r x : Submission) (k : String)
    → r.idempotency_key ≡ some k
    → submissions_apart r x ≡ true
    → (nat_eq x.widget_id r.widget_id && has_key k x.idempotency_key) ≡ false
unfolding submissions_apart
apart_keys r x k key h = elim (Option-cases x.idempotency_key) [
  | inl n ↦ rw n (ground arith)
  | inr (j, n) ↦ rw n (apart_some r x k j (rw (n, key) at h))
]

matching-apart :
    (r : Submission) (k : String) (rows : List Submission)
    → r.idempotency_key ≡ some k
    → all (submissions_apart r) rows ≡ true
    → matching r.widget_id k rows ≡ []
unfolding where_
matching-apart r k [] key h = refl
matching-apart r k (x ∷ rows) key h =
    rw (apart_keys r x k key (ground arith)) (matching-apart r k rows key (ground arith))

-- An engine that refuses what breaks the constraints of the migration accepts no second submission
-- of a widget with the same key.
pub Enforces-EnforcesKeys : (e : Engine) → Enforces e → EnforcesKeys e
unfolding satisfies
Enforces-EnforcesKeys e enforces = record {
  unique = λ t r k accepted key.
      matching-apart r k t.submissions key
        (and_parts _ _ _ (enforces.accepted t (add_submission r) accepted)).1.0;
}
