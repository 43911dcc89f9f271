-- ===== src/Dashboard/Days.antt =====
-- The histogram of a widget's submissions by day.
use flyrank_capstone_lead_ca.Prelude.{
  ℕ, ◌+◌, ◌/◌, ◌≤◌, ◌<◌, ◌≡◌, refl, ◌&&◌, List, [], ◌∷◌, All, arith, length, where_, nat_eq,
  if◌then◌else◌,
}
use flyrank_capstone_lead_ca.Models.{Widget, Submission, Tables}
use flyrank_capstone_lead_ca.Dashboard.{
  Sorting, day, since, of_tenant_widget, count_day, by_day, widget_stats,
}

-- The count that the histogram gives for a day, 0 where it has no entry.
unfoldable pub count_of : ℕ → List (ℕ × ℕ) → ℕ
count_of d [] = 0
count_of d ((j, n) ∷ groups) = (if nat_eq j d then n else 0) + count_of d groups

-- Days in their order, none of them twice and none of them empty.
abbrev pub IsHistogram : List (ℕ × ℕ) → Type 0
IsHistogram [] = Unit
IsHistogram ((j, n) ∷ groups) = (1 ≤ n) × All (λ g. j < g.0) groups × IsHistogram groups

count_of-count_day :
    (e d : ℕ) (groups : List (ℕ × ℕ))
    → count_of e (count_day d groups) ≡ count_of e groups + (if nat_eq d e then 1 else 0)
unfolding count_of count_day
count_of-count_day e d [] = ground arith
count_of-count_day e d ((j, n) ∷ groups) = ground (arith, count_of-count_day e d groups)

later-count_day :
    (j d : ℕ) (groups : List (ℕ × ℕ))
    → j < d
    → All (λ g. j < g.0) groups
    → All (λ g. j < g.0) (count_day d groups)
unfolding count_day
later-count_day j d [] h k = (h, tt)
later-count_day j d ((i, n) ∷ groups) h k = ground (arith, later-count_day j d groups h k.1)

earlier_trans :
    (d j : ℕ) (groups : List (ℕ × ℕ))
    → d < j
    → All (λ g. j < g.0) groups
    → All (λ g. d < g.0) groups
earlier_trans d j [] h k = tt
earlier_trans d j ((i, n) ∷ groups) h k = (omega arith, earlier_trans d j groups h k.1)

count_day-IsHistogram :
    (d : ℕ) (groups : List (ℕ × ℕ)) → IsHistogram groups → IsHistogram (count_day d groups)
unfolding count_day
count_day-IsHistogram d [] h = (omega arith, tt, tt)
count_day-IsHistogram d ((j, n) ∷ groups) (some_, later, rest) = ground (
  arith,
  earlier_trans d j groups,
  later-count_day j d groups,
  count_day-IsHistogram d groups rest,
)

by_day-IsHistogram : (rows : List Submission) → IsHistogram (by_day rows)
unfolding by_day
by_day-IsHistogram [] = tt
by_day-IsHistogram (r ∷ rows) =
    count_day-IsHistogram (r.created_at / day) (by_day rows) (by_day-IsHistogram rows)

count_of-by_day :
    (d : ℕ) (rows : List Submission)
    → count_of d (by_day rows) ≡ length (where_ (λ r. nat_eq (r.created_at / day) d) rows)
unfolding by_day count_of where_
count_of-by_day d [] = refl
count_of-by_day d (r ∷ rows) =
    ground (arith, count_of-count_day d (r.created_at / day) (by_day rows), count_of-by_day d rows)

-- The days of a widget's statistics are in order, none twice and none with no submission, and for
-- every day the histogram counts exactly the submissions of the widget and the tenant on that day
-- that are recent enough.
pub widget_stats-days :
    (o : Sorting) (now tenant_id : ℕ) (w : Widget) (days d : ℕ) (t : Tables)
    → IsHistogram (widget_stats o now tenant_id w days t).days
      × (count_of d (widget_stats o now tenant_id w days t).days
          ≡ length (
              where_
                (λ r. nat_eq (r.created_at / day) d)
                (where_ (λ r. of_tenant_widget tenant_id w r && since now days r) t.submissions)))
unfolding widget_stats
widget_stats-days o now tenant_id w days d t =
    let rows = where_ (λ r. of_tenant_widget tenant_id w r && since now days r) t.submissions in
    (by_day-IsHistogram rows, count_of-by_day d rows)
