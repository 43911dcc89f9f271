-- ===== src/Submissions/Create/Replay.antt =====
-- Repeating a request with the same idempotency key.
use flyrank_capstone_lead_ca.Prelude.{
  ◌&&◌, ℕ, ◌≡◌, sym, inl, inr, String, false, none, some, List, [], ◌∷◌, Dict, arith, is_empty,
  where-append, eq_refl, nat_eq, where_, refl,
}
use mathlib.Core.Path.{subst}
use flyrank_capstone_lead_ca.Errors.{uncaught, Result, ok, err, integrity_error}
use flyrank_capstone_lead_ca.Config.{Settings}
use flyrank_capstone_lead_ca.Models.{Widget, Submission, OutboxEvent, Tables}
use flyrank_capstone_lead_ca.Session.{add_submission, Engine, Session, opened}
use flyrank_capstone_lead_ca.Enrichment.{Network, enrich_ip}
use flyrank_capstone_lead_ca.Schemas.{SubmissionCreate}
use flyrank_capstone_lead_ca.Submissions.Validate.{validate_against_widget}
use flyrank_capstone_lead_ca.Submissions.Create.{
  Stamp, Context, matching, has_key, find_by_idempotency_key, new_submission, create_submission,
}
use flyrank_capstone_lead_ca.Submissions.Create.Atomic.{
  Settles, store_refused, IsAtomic, create_submission-IsAtomic,
}

-- The unique constraint `uq_submissions_widget_idem`: the engine accepts no second submission of a
-- widget with the same key.
pub record EnforcesKeys (e : Engine) : Type 0 where
  pub unique :
      (t : Tables) (r : Submission) (k : String)
      → e.refusal t (add_submission r) ≡ none
      → r.idempotency_key ≡ some k
      → matching r.widget_id k t.submissions ≡ []

-- The query finds the one row of a key.
find_only :
    (widget_id : ℕ) (k : String) (s : Session) (r : Submission)
    → is_empty k ≡ false
    → matching widget_id k s.seen.submissions ≡ r ∷ []
    → find_by_idempotency_key widget_id (some k) s ≡ (ok (some r), s)
unfolding find_by_idempotency_key
find_only widget_id k s r named only = rw (named, only)

find_empty :
    (widget_id : ℕ) (s : Session) → find_by_idempotency_key widget_id (some "") s ≡ (ok none, s)
unfolding find_by_idempotency_key
find_empty widget_id s = refl

find_nothing :
    (widget_id : ℕ) (k : String) (s : Session)
    → is_empty k ≡ false
    → matching widget_id k s.seen.submissions ≡ []
    → find_by_idempotency_key widget_id (some k) s ≡ (ok none, s)
unfolding find_by_idempotency_key
find_nothing widget_id k s named nothing = rw (named, nothing)

matching_self :
    (r : Submission) (k : String)
    → r.idempotency_key ≡ some k
    → matching r.widget_id k (r ∷ []) ≡ r ∷ []
unfolding where_
matching_self r k h = rw h (ground (arith, eq_refl k))

-- Once a row stands under a key, every request with the key that validation accepts returns the row
-- and changes nothing.
stored_returns :
    (e : Engine) (s : Settings) (st : Stamp) (widget : Widget) (net : Network)
    (others : Tables → Tables) (payload : SubmissionCreate) (c : Context) (t : Tables) (k : String)
    (r : Submission) (cleaned : Dict String)
    → is_empty k ≡ false
    → c.idempotency_key ≡ some k
    → validate_against_widget s widget payload.lead ≡ ok cleaned
    → matching widget.id k t.submissions ≡ r ∷ []
    → create_submission e s st widget net others payload c (opened t) ≡ (ok r, opened t)
unfolding create_submission
stored_returns e s st widget net others payload c t k r cleaned named key valid only =
    rw (valid, key, find_only widget.id k (opened t) r named only)

module _ (e : Engine) (s : Settings) (enforces : EnforcesKeys e) (widget : Widget) (k : String)
    (named : is_empty k ≡ false) where
  -- A call that returned has left its row as the one row of its key.
  only_row :
      (st : Stamp) (net : Network) (c : Context) (events : List OutboxEvent) (t : Tables)
      (cleaned : Dict String) (r : Submission) (s' : Session)
      → c.idempotency_key ≡ some k
      → Settles e events t widget.id c.idempotency_key
          (new_submission st widget c cleaned (enrich_ip net s c.ip))
          (ok r, s')
      → matching widget.id k s'.saved.submissions ≡ r ∷ []
  only_row st net c events t cleaned r s' key (inl (same, k', key', only)) =
      subst (λ (u : Tables). matching widget.id k u.submissions ≡ r ∷ []) (sym same)
        (subst (λ j. matching widget.id j t.submissions ≡ r ∷ []) (ground arith) only)
  only_row st net c events t cleaned r s' key (inr (stored, new, accepted)) =
      rw
        (
          stored,
          new,
          where-append
              (λ (x : Submission). nat_eq x.widget_id widget.id && has_key k x.idempotency_key)
              t.submissions,
          enforces.unique t (new_submission st widget c cleaned (enrich_ip net s c.ip)) k accepted
              key,
        )
        (matching_self (new_submission st widget c cleaned (enrich_ip net s c.ip)) k key)

  only_row_after :
      (st : Stamp) (net : Network) (others : Tables → Tables) (c : Context) (t : Tables)
      (v : Result (Dict String)) (r : Submission) (s' : Session)
      → c.idempotency_key ≡ some k
      → IsAtomic e s st widget net others c t v (ok r, s')
      → matching widget.id k s'.saved.submissions ≡ r ∷ []
  only_row_after st net others c t (err x) r s' key h = absurd (cc)
  only_row_after st net others c t (ok cleaned) r s' key (inl h) =
      only_row st net c _ t cleaned r s' key h
  only_row_after st net others c t (ok cleaned) r s' key (inr h) =
      only_row st net c _ (others t) cleaned r s' key h

  -- Where the engine enforces the unique constraint: after a request with a key that is not empty
  -- has returned a row, every later request to the widget with the same key and an acceptable
  -- payload, whatever else it holds, returns that row and changes nothing.
  pub create_submission_replay :
      (st st' : Stamp) (net net' : Network) (others others' : Tables → Tables)
      (payload payload' : SubmissionCreate) (c c' : Context) (t : Tables) (r : Submission)
      (s' : Session) (cleaned' : Dict String)
      → c.idempotency_key ≡ some k
      → c'.idempotency_key ≡ some k
      → create_submission e s st widget net others payload c (opened t) ≡ (ok r, s')
      → validate_against_widget s widget payload'.lead ≡ ok cleaned'
      → create_submission e s st' widget net' others' payload' c' (opened s'.saved)
        ≡ (ok r, opened s'.saved)
  create_submission_replay st st' net net' others others' payload payload' c c' t r s' cleaned' key
        key' first valid =
      stored_returns e s st' widget net' others' payload' c' s'.saved k r cleaned' named key' valid
        (only_row_after st net others c t (validate_against_widget s widget payload.lead) r s' key (
          subst
            (IsAtomic e s st widget net others c t (validate_against_widget s widget payload.lead))
            first (create_submission-IsAtomic e s st widget net others c t payload)))

-- Two requests with one key, neither of which saw the other's row: the one whose insert is refused,
-- because the other has committed its row meanwhile, returns that row and writes nothing.
pub create_submission_race :
    (e : Engine) (s : Settings) (st : Stamp) (widget : Widget) (net : Network)
    (others : Tables → Tables) (payload : SubmissionCreate) (c : Context) (t : Tables) (k : String)
    (winner : Submission) (cleaned : Dict String)
    → is_empty k ≡ false
    → c.idempotency_key ≡ some k
    → validate_against_widget s widget payload.lead ≡ ok cleaned
    → matching widget.id k t.submissions ≡ []
    → matching widget.id k (others t).submissions ≡ winner ∷ []
    → e.refusal
        (others t)
        (add_submission (new_submission st widget c cleaned (enrich_ip net s c.ip)))
      ≡ some integrity_error
    → create_submission e s st widget net others payload c (opened t)
      ≡ (ok winner, opened (others t))
unfolding create_submission
create_submission_race e s st widget net others payload c t k winner cleaned named key valid nothing
      there refused =
    let missed : find_by_idempotency_key widget.id c.idempotency_key (opened t)
        ≡ (ok none, opened t) =
      rw key (find_nothing widget.id k (opened t) named nothing) in
    let met : find_by_idempotency_key widget.id c.idempotency_key (opened (others t))
        ≡ (ok (some winner), opened (others t)) =
      rw key (find_only widget.id k (opened (others t)) winner named there) in
    rw (
      valid,
      missed,
      store_refused e s st widget (others t) c.idempotency_key
          (new_submission st widget c cleaned (enrich_ip net s c.ip)) integrity_error refused,
      met,
    )

-- A key that is present and empty is stored, and so compared by the unique constraint, but is never
-- looked up: where a row of the widget has it and the engine refuses the second one, the request
-- ends in the exception, and nothing is stored.
pub create_submission_empty_key :
    (e : Engine) (s : Settings) (st : Stamp) (widget : Widget) (net : Network)
    (others : Tables → Tables) (payload : SubmissionCreate) (c : Context) (t : Tables)
    (cleaned : Dict String)
    → c.idempotency_key ≡ some ""
    → validate_against_widget s widget payload.lead ≡ ok cleaned
    → e.refusal
        (others t)
        (add_submission (new_submission st widget c cleaned (enrich_ip net s c.ip)))
      ≡ some integrity_error
    → create_submission e s st widget net others payload c (opened t)
      ≡ (err (uncaught integrity_error), opened (others t))
unfolding create_submission
create_submission_empty_key e s st widget net others payload c t cleaned key valid refused =
    let missed : (u : Tables)
        → find_by_idempotency_key widget.id c.idempotency_key (opened u) ≡ (ok none, opened u) =
      λ u. rw key (find_empty widget.id (opened u)) in
    rw (
      valid,
      missed t,
      store_refused e s st widget (others t) c.idempotency_key
          (new_submission st widget c cleaned (enrich_ip net s c.ip)) integrity_error refused,
      missed (others t),
    )
