-- ===== src/Integrity/Widths.antt =====
-- Texts of requests and the columns of the migration that are to hold them.
use flyrank_capstone_lead_ca.Prelude.{
  ℕ, ◌≡◌, ◌≤◌, ◌<◌, refl, sym, ◌∙◌, ◌⊎◌, inl, inr, String, Bool, true, Option, none, some, List, [],
  ◌∷◌, Dict, all, arith, len, drop, zero, suc, ◌≢◌,
}
use mathlib.Core.Path.{subst}
use flyrank_capstone_lead_ca.Config.{Settings}
use flyrank_capstone_lead_ca.Errors.{Result, ok, err}
use flyrank_capstone_lead_ca.Models.{Widget, Submission, Tables}
use flyrank_capstone_lead_ca.Session.{add_submission, Engine, Session, opened}
use flyrank_capstone_lead_ca.Enrichment.{Network, enrich_ip}
use flyrank_capstone_lead_ca.Schemas.{SubmissionCreate}
use flyrank_capstone_lead_ca.Submissions.Validate.{validate_against_widget}
use flyrank_capstone_lead_ca.Submissions.Create.{
  Stamp, Context, matching, effects, new_submission, create_submission,
}
use flyrank_capstone_lead_ca.Submissions.Create.Atomic.{
  Settles, IsAtomic, create_submission-IsAtomic,
}
use flyrank_capstone_lead_ca.Migrations.{submissions_columns}
use flyrank_capstone_lead_ca.Migrations.Rows.{
  chars, moment, cell, submission_row, fits_column, fits_row,
}
use flyrank_capstone_lead_ca.Integrity.Applying.{and_parts}
use flyrank_capstone_lead_ca.Integrity.{fits_submission, satisfies, Enforces}

-- What the request asks to store is too long for `ip` or for `idempotency_key`.
abbrev pub TooLong : Context → Type 0
TooLong c =
    ((ip : String) × (c.ip ≡ some ip) × (64 < len ip))
    ⊎ ((k : String) × (c.idempotency_key ≡ some k) × (128 < len k))

all-drop :
    {A : Type 0} (n : ℕ) (p : A → Bool) (xs : List A) → all p xs ≡ true → all p (drop n xs) ≡ true
unfolding drop
all-drop zero p xs h = h
all-drop (suc n) p [] h = refl
all-drop (suc n) p (x ∷ xs) h = all-drop n p xs (ground arith)

fits_ip :
    (r : Submission) (ip : String)
    → fits_submission (record r { ip = some ip }) ≡ true
    → len ip ≤ 64
unfolding fits_submission
fits_ip r ip h = ground arith

key_width :
    (k : String)
    → fits_row
        (drop 14 submissions_columns)
        (("idempotency_key", chars k) ∷ ("created_at", moment) ∷ [])
      ≡ true
    → len k ≤ 128
unfolding drop
key_width k h = ground arith

-- The key's column is the fifteenth.
fits_key :
    (r : Submission) (k : String)
    → fits_submission (record r { idempotency_key = some k }) ≡ true
    → len k ≤ 128
unfolding fits_submission drop
fits_key r k h =
    let row = submission_row (record r { idempotency_key = some k }) in
    let last : fits_row (drop 14 submissions_columns) row ≡ true =
      all-drop 14 (λ c. fits_column c (cell c.name row)) submissions_columns h in
    key_width k last

-- A call with a text that is too long stores nothing: it returns the row that is committed under its
-- key, or it raises.
abbrev pub StoresNothing :
    Tables → Tables → ℕ → Option String → Result Submission × Session → Type 0
StoresNothing t u widget_id key (ok r, z) =
    (k : String) × (key ≡ some k)
    × (((z.saved ≡ t) × (matching widget_id k t.submissions ≡ r ∷ []))
        ⊎ ((z.saved ≡ u) × (matching widget_id k u.submissions ≡ r ∷ [])))
StoresNothing t u widget_id key (err x, z) = (z.saved ≡ t) ⊎ (z.saved ≡ u)

module _ (e : Engine) (enforces : Enforces e) where
  refused-TooLong :
      (s : Settings) (st : Stamp) (widget : Widget) (net : Network) (c : Context)
      (cleaned : Dict String) (t : Tables)
      → TooLong c
      → e.refusal t (add_submission (new_submission st widget c cleaned (enrich_ip net s c.ip)))
        ≢ none
  unfolding satisfies
  refused-TooLong s st widget net c cleaned t long accepted =
      let r = new_submission st widget c cleaned (enrich_ip net s c.ip) in
      let fit : fits_submission r ≡ true =
        (and_parts _ _ _ (enforces.accepted t (add_submission r) accepted)).0 in
      elim long [
        | inl (ip, same, more) ↦
            let short : len ip ≤ 64 =
              fits_ip r ip (subst (λ o. fits_submission (record r { ip = o }) ≡ true) same fit) in
            absurd (omega arith)
        | inr (k, same, more) ↦
            let short : len k ≤ 128 =
              fits_key r k
                (subst (λ o. fits_submission (record r { idempotency_key = o }) ≡ true) same fit) in
            absurd (omega arith)
      ]

  module _ (s : Settings) (st : Stamp) (widget : Widget) (net : Network) (others : Tables → Tables)
      (c : Context) (t : Tables) (long : TooLong c) where
    Settles-StoresNothing :
        (cleaned : Dict String) (u : Tables) (o : Result Submission × Session)
        → Settles e
            (effects s st widget (new_submission st widget c cleaned (enrich_ip net s c.ip)))
            u
            widget.id
            c.idempotency_key
            (new_submission st widget c cleaned (enrich_ip net s c.ip))
            o
        → (u ≡ t) ⊎ (u ≡ others t)
        → StoresNothing t (others t) widget.id c.idempotency_key o
    Settles-StoresNothing cleaned u (ok r, z) (inl (saved, k, named, only)) (inl same) = (
      k,
      named,
      inl (
        saved ∙ same,
        subst (λ (x : Tables). matching widget.id k x.submissions ≡ r ∷ []) same only,
      ),
    )
    Settles-StoresNothing cleaned u (ok r, z) (inl (saved, k, named, only)) (inr same) = (
      k,
      named,
      inr (
        saved ∙ same,
        subst (λ (x : Tables). matching widget.id k x.submissions ≡ r ∷ []) same only,
      ),
    )
    Settles-StoresNothing cleaned u (ok r, z) (inr (saved, new, accepted)) same =
        absurd (refused-TooLong s st widget net c cleaned u long accepted)
    Settles-StoresNothing cleaned u (err x, z) saved (inl same) = inl (saved ∙ same)
    Settles-StoresNothing cleaned u (err x, z) saved (inr same) = inr (saved ∙ same)

    IsAtomic-StoresNothing :
        (v : Result (Dict String)) (o : Result Submission × Session)
        → IsAtomic e s st widget net others c t v o
        → StoresNothing t (others t) widget.id c.idempotency_key o
    IsAtomic-StoresNothing (err x) o h =
        subst (StoresNothing t (others t) widget.id c.idempotency_key) (sym h) (inl refl)
    IsAtomic-StoresNothing (ok cleaned) o (inl h) = Settles-StoresNothing cleaned t o h (inl refl)
    IsAtomic-StoresNothing (ok cleaned) o (inr h) =
        Settles-StoresNothing cleaned (others t) o h (inr refl)

    -- Where the engine enforces the migration's columns: a request whose address has more than 64
    -- characters, or whose idempotency key has more than 128, which nothing before the database
    -- tests, is never stored. The call raises and has committed nothing, or it returns the one row
    -- that was committed under its key before.
    pub create_submission-StoresNothing :
        (payload : SubmissionCreate)
        → StoresNothing t
            (others t)
            widget.id
            c.idempotency_key
            (create_submission e s st widget net others payload c (opened t))
    create_submission-StoresNothing payload =
        IsAtomic-StoresNothing (validate_against_widget s widget payload.lead) _
          (create_submission-IsAtomic e s st widget net others c t payload)
