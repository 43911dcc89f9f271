-- ===== src/Dashboard/Countries.antt =====
-- The countries of a widget's statistics add up.
use flyrank_capstone_lead_ca.Prelude.{
  ℕ, suc, ◌≤◌, ◌≡◌, refl, ◌∙◌, List, [], ◌∷◌, arith, length, where_, length-where_mono,
}
use flyrank_capstone_lead_ca.Models.{Widget, Submission, Tables}
use flyrank_capstone_lead_ca.Dashboard.{
  Sorting, of_tenant_widget, GeoBucket, count_country, by_country, widget_stats,
}
use flyrank_capstone_lead_ca.Dashboard.Sorted.{OnlySorts, sum_by, sum_by-Perm}

sum_by-count_country :
    (r : Submission) (groups : List GeoBucket)
    → sum_by (λ b. b.count) (count_country r groups) ≡ suc (sum_by (λ b. b.count) groups)
unfolding sum_by count_country
sum_by-count_country r [] = omega arith
sum_by-count_country r (b ∷ groups) = ground (arith, sum_by-count_country r groups)

sum_by-by_country : (rows : List Submission) → sum_by (λ b. b.count) (by_country rows) ≡ length rows
unfolding by_country sum_by
sum_by-by_country [] = refl
sum_by-by_country (r ∷ rows) =
    omega (arith, sum_by-count_country r (by_country rows), sum_by-by_country rows)

-- Where `ORDER BY` only sorts, the counts of the countries in a widget's statistics, the unknown
-- country included, add up to the widget's total, and the last week's count is at most the total.
widget_stats-countries :
    (o : Sorting) (now tenant_id : ℕ) (w : Widget) (days : ℕ) (t : Tables)
    → OnlySorts o
    → let s = widget_stats o now tenant_id w days t in
      (sum_by (λ b. b.count) s.countries ≡ s.total_submissions)
      × (s.submissions_last_7_days ≤ s.total_submissions)
unfolding widget_stats
widget_stats-countries o now tenant_id w days t sorts = (
  sum_by-Perm (λ b. b.count) (sorts.most (λ b. b.count) _)
      ∙ sum_by-by_country (where_ (of_tenant_widget tenant_id w) t.submissions),
  length-where_mono _ _ t.submissions (λ r h. ground arith),
)
