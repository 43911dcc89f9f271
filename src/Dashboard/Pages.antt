-- ===== src/Dashboard/Pages.antt =====
-- The pages of the submissions: together they are the whole list, and a tenant sees its own only.
use mathlib.Core.List.{Permᴰ}
use flyrank_capstone_lead_ca.Prelude.{
  ℕ, zero, suc, ◌+◌, ◌*◌, ◌≤◌, ◌≡◌, refl, ap, sym, ◌∙◌, Option, none, some, List, [], ◌∷◌, ◌++◌,
  arith, length-Perm, length, take, drop, where_, nat_eq, length-take, inl, inr,
}
use flyrank_capstone_lead_ca.Models.{Submission, Tables}
use flyrank_capstone_lead_ca.Session.{opened}
use flyrank_capstone_lead_ca.Errors.{ok}
use flyrank_capstone_lead_ca.Widgets.Isolation.{own, get_widget_for_tenant_isolated, get-cases}
use flyrank_capstone_lead_ca.Dashboard.{Sorting, in_filters, list_submissions, submission_page}
use flyrank_capstone_lead_ca.Dashboard.Sorted.{
  OnlySorts, IsNewestFirst, HasOwnTimes, IsOrdered, newest_first-same,
}

module _ {A : Type 0} where
  drop_all : (n : ℕ) (xs : List A) → length xs ≤ n → drop n xs ≡ []
  unfolding drop
  drop_all zero [] h = refl
  drop_all zero (x ∷ xs) h = absurd (omega arith)
  drop_all (suc n) [] h = refl
  drop_all (suc n) (x ∷ xs) h = drop_all n xs (omega arith)

  take-drop : (n : ℕ) (xs : List A) → take n xs ++ drop n xs ≡ xs
  unfolding take drop
  take-drop zero xs = refl
  take-drop (suc n) [] = refl
  take-drop (suc n) (x ∷ xs) = ap (λ ys. x ∷ ys) (take-drop n xs)

  drop_nil : (n : ℕ) → drop {A = A} n [] ≡ []
  unfolding drop
  drop_nil zero = refl
  drop_nil (suc n) = refl

  drop-drop : (n m k : ℕ) (xs : List A) → k ≡ m + n → drop n (drop m xs) ≡ drop k xs
  unfolding drop
  drop-drop n zero k xs h = let same : n ≡ k = omega arith in ap (λ j. drop j xs) same
  drop-drop n (suc m) zero xs h = absurd (omega arith)
  drop-drop n (suc m) (suc k) [] h = drop_nil n
  drop-drop n (suc m) (suc k) (x ∷ xs) h = drop-drop n m k xs (omega arith)

-- The rows that the query selects.
abbrev pub selected : ℕ → Option ℕ → Tables → List Submission
selected tenant_id widget_id t = where_ (in_filters tenant_id widget_id) t.submissions

module _ (o : Sorting) (tenant_id : ℕ) (widget_id : Option ℕ) (limit : ℕ) (t : Tables) where
  -- A number of pages, each of which starts where the one before it ended.
  unfoldable pub pages : ℕ → ℕ → List Submission
  pages zero offset = []
  pages (suc n) offset =
      (list_submissions o tenant_id widget_id limit offset t).0 ++ pages n (offset + limit)

  -- The order of the first page.
  abbrev rows : List Submission
  rows = o.newest_first limit 0 (selected tenant_id widget_id t)

  module _ (sorts : OnlySorts o) (first : IsNewestFirst o)
      (own : HasOwnTimes (selected tenant_id widget_id t)) where
    page-rows :
        (offset : ℕ)
        → (list_submissions o tenant_id widget_id limit offset t).0 ≡ take limit (drop offset rows)
    unfolding list_submissions
    page-rows offset =
        ap (λ xs. take limit (drop offset xs))
          (newest_first-same o limit offset limit 0 (selected tenant_id widget_id t) sorts first
            own)

    pages-drop :
        (n offset : ℕ) → length rows ≤ offset + n * limit → pages n offset ≡ drop offset rows
    unfolding pages
    pages-drop zero offset h = sym (drop_all offset rows (omega arith))
    pages-drop (suc n) offset h =
        rw
          (
            page-rows offset,
            pages-drop n (offset + limit) (grind arith),
            ← drop-drop limit offset (offset + limit) rows refl,
          )
          (take-drop limit (drop offset rows))

    drop_none : (xs : List Submission) → drop 0 xs ≡ xs
    unfolding drop
    drop_none xs = refl

    -- Where ORDER BY sorts by the time, the newest first, and leaves the order of equal times open,
    -- another one for each page if it likes, and no two of the tenant's selected submissions have
    -- the same time: as many pages as the answered total asks for, one after the other from the
    -- first, are the selected submissions, each once, the newest first; and no page, at whatever
    -- offset, is longer than the limit.
    pub pages-all :
        (n offset : ℕ)
        → (list_submissions o tenant_id widget_id limit offset t).1 ≤ n * limit
        → Permᴰ (pages n 0) (selected tenant_id widget_id t)
          × IsOrdered (pages n 0)
          × (length (list_submissions o tenant_id widget_id limit offset t).0 ≤ limit)
    unfolding list_submissions
    pages-all n offset h =
        let perm = sorts.newest limit 0 (selected tenant_id widget_id t) in
        let size = length-Perm perm in
        let all = pages-drop n 0 (omega arith) ∙ drop_none rows in
        (
          rw all perm,
          rw all (first.ordered limit 0 (selected tenant_id widget_id t)),
          omega (
            arith,
            length-take limit
                (drop offset (o.newest_first limit offset (selected tenant_id widget_id t))),
          ),
        )

-- The submissions of one tenant.
abbrev pub own_submissions : ℕ → Tables → List Submission
own_submissions tenant_id t = where_ (λ r. nat_eq r.tenant_id tenant_id) t.submissions

filtered-own :
    (tenant_id w : ℕ) (rows : List Submission)
    → where_ (in_filters tenant_id (some w)) rows
      ≡ where_ (λ r. nat_eq r.widget_id w) (where_ (λ r. nat_eq r.tenant_id tenant_id) rows)
unfolding where_
filtered-own tenant_id w [] = refl
filtered-own tenant_id w (r ∷ rows) = ground (arith, filtered-own tenant_id w rows)

filtered_same :
    (tenant_id : ℕ) (widget_id : Option ℕ) (t t' : Tables)
    → own_submissions tenant_id t ≡ own_submissions tenant_id t'
    → where_ (in_filters tenant_id widget_id) t.submissions
      ≡ where_ (in_filters tenant_id widget_id) t'.submissions
filtered_same tenant_id none t t' h = h
filtered_same tenant_id (some w) t t' h =
    filtered-own tenant_id w t.submissions
    ∙ ap (where_ (λ r. nat_eq r.widget_id w)) h
    ∙ sym (filtered-own tenant_id w t'.submissions)

list_submissions_same :
    (o : Sorting) (tenant_id : ℕ) (widget_id : Option ℕ) (limit offset : ℕ) (t t' : Tables)
    → own_submissions tenant_id t ≡ own_submissions tenant_id t'
    → list_submissions o tenant_id widget_id limit offset t
      ≡ list_submissions o tenant_id widget_id limit offset t'
unfolding list_submissions
list_submissions_same o tenant_id widget_id limit offset t t' h =
    ap
      (λ (rows : List Submission).
        (take limit (drop offset (o.newest_first limit offset rows)), length rows))
      (filtered_same tenant_id widget_id t t' h)

module _ (o : Sorting) (tenant_id limit offset : ℕ) (t t' : Tables) where
  page_of_widget :
      (w : ℕ)
      → own tenant_id t ≡ own tenant_id t'
      → own_submissions tenant_id t ≡ own_submissions tenant_id t'
      → (submission_page o tenant_id (some w) limit offset (opened t)).0
        ≡ (submission_page o tenant_id (some w) limit offset (opened t')).0
  unfolding submission_page
  page_of_widget w same rows =
      let answer = get_widget_for_tenant_isolated tenant_id w t t' same in
      let page = list_submissions_same o tenant_id (some w) limit offset t t' rows in
      elim (get-cases tenant_id w t) [
        | inl (v, _, g) ↦ elim (get-cases tenant_id w t') [
          | inl (v', _, g') ↦ rw (g, g', page)
          | inr (x', g') ↦ absurd (cc (rw (g, g') at answer))
        ]
        | inr (x, g) ↦ elim (get-cases tenant_id w t') [
          | inl (v', _, g') ↦ absurd (cc (rw (g, g') at answer))
          | inr (x', g') ↦ rw (g, g') (cc (rw (g, g') at answer))
        ]
      ]

  -- What a tenant is shown of submissions depends on its own widgets and submissions alone: on two
  -- databases in which it has the same ones, whatever other tenants have there, every page is the
  -- same, its total included, and so is every error.
  pub submission_page_isolated :
      (widget_id : Option ℕ)
      → own tenant_id t ≡ own tenant_id t'
      → own_submissions tenant_id t ≡ own_submissions tenant_id t'
      → (submission_page o tenant_id widget_id limit offset (opened t)).0
        ≡ (submission_page o tenant_id widget_id limit offset (opened t')).0
  submission_page_isolated none same rows =
      unfold submission_page in
      ap ok (list_submissions_same o tenant_id none limit offset t t' rows)
  submission_page_isolated (some w) same rows = page_of_widget w same rows
