-- ===== src/Dashboard/Totals.antt =====
-- The summary's numbers agree with each other.
use flyrank_capstone_lead_ca.Prelude.{
  ℕ, ◌+◌, ◌≤◌, ◌≡◌, refl, ◌∙◌, List, [], ◌∷◌, All, map, arith, length, where_, nat_eq, inl, inr,
  Bool-cases, length-where_mono, if◌then◌else◌,
}
use flyrank_capstone_lead_ca.Models.{Widget, Submission, Tables}
use flyrank_capstone_lead_ca.Dashboard.{Sorting, joined, summary, count_since}
use flyrank_capstone_lead_ca.Dashboard.Sorted.{OnlySorts, sum_by, sum_by-Perm}

-- A submission names one widget of the table, and has its tenant.
abbrev pub HasOwner : List Widget → Submission → Type 0
HasOwner widgets r =
    (w : Widget) × (where_ (λ v. nat_eq v.id r.widget_id) widgets ≡ w ∷ [])
    × (w.tenant_id ≡ r.tenant_id)

abbrev hits : ℕ → List Submission → ℕ
hits id rows = length (where_ (λ r. nat_eq r.widget_id id) rows)

-- How many submissions the tenant's widgets have together.
unfoldable hits_of : ℕ → List Submission → List Widget → ℕ
hits_of tenant_id rows [] = 0
hits_of tenant_id rows (w ∷ ws) =
    (if nat_eq w.tenant_id tenant_id then hits w.id rows else 0) + hits_of tenant_id rows ws

sum_by-joined :
    (tenant_id : ℕ) (t : Tables) (ws : List Widget)
    → sum_by (λ p. p.submissions) (map (joined t) (where_ (λ w. nat_eq w.tenant_id tenant_id) ws))
      ≡ hits_of tenant_id t.submissions ws
unfolding sum_by hits_of where_
sum_by-joined tenant_id t [] = refl
sum_by-joined tenant_id t (w ∷ ws) = elim (Bool-cases (nat_eq w.tenant_id tenant_id)) [
  | inl e ↦ rw (e, sum_by-joined tenant_id t ws) refl
  | inr e ↦ rw (e, sum_by-joined tenant_id t ws) (omega arith)
]

none-hits_of : (tenant_id : ℕ) (ws : List Widget) → hits_of tenant_id [] ws ≡ 0
unfolding hits_of where_
none-hits_of tenant_id [] = refl
none-hits_of tenant_id (w ∷ ws) = ground (arith, none-hits_of tenant_id ws)

-- One more submission counts once for each of the tenant's widgets that it names.
hits_of-cons :
    (tenant_id : ℕ) (r : Submission) (rows : List Submission) (ws : List Widget)
    → hits_of tenant_id (r ∷ rows) ws
      ≡ hits_of tenant_id rows ws
        + length
            (where_ (λ w. nat_eq w.tenant_id tenant_id) (where_ (λ w. nat_eq w.id r.widget_id) ws))
unfolding hits_of where_
hits_of-cons tenant_id r rows [] = omega arith
hits_of-cons tenant_id r rows (w ∷ ws) = ground (arith, hits_of-cons tenant_id r rows ws)

hits_of_total :
    (tenant_id : ℕ) (ws : List Widget) (rows : List Submission)
    → All (HasOwner ws) rows
    → hits_of tenant_id rows ws ≡ length (where_ (λ r. nat_eq r.tenant_id tenant_id) rows)
unfolding where_
hits_of_total tenant_id ws [] h = none-hits_of tenant_id ws
hits_of_total tenant_id ws (r ∷ rows) ((w, only, same), h) =
    rw (hits_of-cons tenant_id r rows ws, only, hits_of_total tenant_id ws rows h) (ground arith)

module _ (o : Sorting) (now tenant_id : ℕ) (t : Tables) where
  -- Where `ORDER BY` only sorts, and every submission has its widget and the tenant of it: the
  -- submissions of the widgets in the summary add up to the tenant's total; those of the last day are
  -- among those of the last week, and these among the total; and there are as many active widgets as
  -- widgets at most.
  pub summary_totals :
      OnlySorts o
      → All (HasOwner t.widgets) t.submissions
      → let s = summary o now tenant_id t in
        (sum_by (λ p. p.submissions) s.per_widget ≡ s.total_submissions)
        × (s.submissions_last_24h ≤ s.submissions_last_7_days)
        × (s.submissions_last_7_days ≤ s.total_submissions)
        × (s.active_widgets ≤ s.total_widgets)
  unfolding summary count_since
  summary_totals sorts owners = (
    sum_by-Perm (λ p. p.submissions) (sorts.most (λ p. p.submissions) _)
        ∙ sum_by-joined tenant_id t t.widgets
        ∙ hits_of_total tenant_id t.widgets t.submissions owners,
    length-where_mono _ _ t.submissions (λ r h. ground arith),
    length-where_mono _ _ t.submissions (λ r h. ground arith),
    length-where_mono _ _ t.widgets (λ w h. ground arith),
  )
