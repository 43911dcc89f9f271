-- ===== src/Dashboard/Sorted.antt =====
-- `ORDER BY` returns the selected rows in some order, each as often as before.
use mathlib.Core.List.{Permᴰ}
use mathlib.Core.List.Permᴰ
use flyrank_capstone_lead_ca.Prelude.{
  ℕ, ◌+◌, ◌≤◌, ◌<◌, ◌≡◌, ◌≢◌, ◌⊎◌, inl, inr, refl, sym, ap, ◌∙◌, List, [], ◌∷◌, arith, All,
  All-mono, All-Perm,
}
use flyrank_capstone_lead_ca.Models.{Submission}
use flyrank_capstone_lead_ca.Dashboard.{Sorting}

pub record OnlySorts (o : Sorting) : Type 1 where
  pub newest :
      (limit offset : ℕ) (rows : List Submission) → Permᴰ (o.newest_first limit offset rows) rows
  pub most : {A : Type 0} (f : A → ℕ) (rows : List A) → Permᴰ (o.most_first f rows) rows

-- `sum(f(x) for x in rows)`
unfoldable pub sum_by : {A : Type 0} → (A → ℕ) → List A → ℕ
sum_by f [] = 0
sum_by f (x ∷ xs) = f x + sum_by f xs

module _ {A : Type 0} (f : A → ℕ) where
  pub sum_by-Perm : {xs ys : List A} → Permᴰ xs ys → sum_by f xs ≡ sum_by f ys
  unfolding sum_by
  sum_by-Perm Permᴰ.nil = refl
  sum_by-Perm (Permᴰ.cons e h) = rw (e, sum_by-Perm h) refl
  sum_by-Perm (Permᴰ.swap e e') = rw (e, e') (omega arith)
  sum_by-Perm (Permᴰ.trans h k) = sum_by-Perm h ∙ sum_by-Perm k

-- The newest row first, where equal times may come in any order.
abbrev pub IsOrdered : List Submission → Type 0
IsOrdered [] = Unit
IsOrdered (r ∷ rows) = All (λ x. x.created_at ≤ r.created_at) rows × IsOrdered rows

-- No two rows have the same time.
abbrev pub HasOwnTimes : List Submission → Type 0
HasOwnTimes [] = Unit
HasOwnTimes (r ∷ rows) = All (λ x. x.created_at ≢ r.created_at) rows × HasOwnTimes rows

-- `ORDER BY created_at DESC`
pub record IsNewestFirst (o : Sorting) : Type 1 where
  pub ordered :
      (limit offset : ℕ) (rows : List Submission) → IsOrdered (o.newest_first limit offset rows)

abbrev IsStrict : List Submission → Type 0
IsStrict [] = Unit
IsStrict (r ∷ rows) = All (λ x. x.created_at < r.created_at) rows × IsStrict rows

HasOwnTimes-Perm : {xs ys : List Submission} → Permᴰ xs ys → HasOwnTimes xs → HasOwnTimes ys
HasOwnTimes-Perm Permᴰ.nil h = tt
HasOwnTimes-Perm (Permᴰ.cons {l₁ = xs} e s) h = (
  All-Perm _ s
      (All-mono _ _ (λ x k same. k (same ∙ sym (ap (λ (r : Submission). r.created_at) e))) xs h.0),
  HasOwnTimes-Perm s h.1,
)
HasOwnTimes-Perm (Permᴰ.swap {a = a} {b = b} {a' = a'} {b' = b'} {l = l} e e') h =
    let at : (r r' : Submission) → r ≡ r' → r.created_at ≡ r'.created_at =
      λ r r' k. ap (λ (x : Submission). x.created_at) k in
    (
      (
        λ same. h.0.0 (at b a' e' ∙ sym same ∙ sym (at a b' e)),
        All-mono _ _ (λ x k same. k (same ∙ sym (at b a' e'))) l h.1.0,
      ),
      (All-mono _ _ (λ x k same. k (same ∙ sym (at a b' e))) l h.0.1, h.1.1),
    )
HasOwnTimes-Perm (Permᴰ.trans s s') h = HasOwnTimes-Perm s' (HasOwnTimes-Perm s h)

All-strict :
    (n : ℕ) (rows : List Submission)
    → All (λ x. x.created_at ≤ n) rows
    → All (λ x. x.created_at ≢ n) rows
    → All (λ x. x.created_at < n) rows
All-strict n [] h k = tt
All-strict n (r ∷ rows) h k =
    let other : r.created_at ≢ n = k.0 in (omega arith, All-strict n rows h.1 k.1)

ordered-IsStrict : (rows : List Submission) → IsOrdered rows → HasOwnTimes rows → IsStrict rows
ordered-IsStrict [] h k = tt
ordered-IsStrict (r ∷ rows) h k =
    (All-strict r.created_at rows h.0 k.0, ordered-IsStrict rows h.1 k.1)

-- What holds of the one list's rows holds of the other's.
abbrev Passes : List Submission → List Submission → Type 1
Passes xs ys = (P : Submission → Type 0) → All P xs → All P ys

-- The head of a list, and what comes after it.
abbrev First : Submission → Submission → Type 0
First r x = (x ≡ r) ⊎ (x.created_at < r.created_at)

First-rows :
    (r : Submission) (rows : List Submission) → IsStrict (r ∷ rows) → All (First r) (r ∷ rows)
First-rows r rows h = (inl refl, All-mono _ (First r) (λ x k. inr k) rows h.0)

same_head : (x y : Submission) → First x y → First y x → x ≡ y
same_head x y (inl e) k = sym e
same_head x y (inr h) (inl e) = e
same_head x y (inr h) (inr k) = absurd (omega arith)

tail-Passes :
    (x y : Submission) (xs ys : List Submission)
    → x ≡ y
    → IsStrict (y ∷ ys)
    → Passes (x ∷ xs) (y ∷ ys)
    → Passes xs ys
tail-Passes x y xs ys e strict f P h =
    let either = f (λ z. (z ≡ x) ⊎ P z) (inl refl, All-mono P _ (λ z k. inr k) xs h) in
    rest ys strict.0 either.1
  where
    rest :
        (zs : List Submission)
        → All (λ z. z.created_at < y.created_at) zs
        → All (λ z. (z ≡ x) ⊎ P z) zs
        → All P zs
    rest [] k b = tt
    rest (z ∷ zs) k b = (
      elim b.0 [
        | inl same ↦
            let at : z.created_at ≡ y.created_at =
              ap (λ (r : Submission). r.created_at) (same ∙ e) in
            absurd (omega arith)
        | inr p ↦ p
      ],
      rest zs k.1 b.1,
    )

-- Two lists of the same rows, each strictly ordered, are the same list.
same_strict :
    (xs ys : List Submission) → IsStrict xs → IsStrict ys → Passes xs ys → Passes ys xs → xs ≡ ys
same_strict [] [] h k f g = refl
same_strict [] (y ∷ ys) h k f g = absurd ((f (λ _. ⊥) tt).0)
same_strict (x ∷ xs) [] h k f g = absurd ((g (λ _. ⊥) tt).0)
same_strict (x ∷ xs) (y ∷ ys) h k f g =
    let e = same_head x y (f (First x) (First-rows x xs h)).0 (g (First y) (First-rows y ys k)).0 in
    ap (λ r. r ∷ xs) e
    ∙ ap (λ rows. y ∷ rows)
        (same_strict xs ys h.1 k.1 (tail-Passes x y xs ys e k f)
          (tail-Passes y x ys xs (sym e) h g))

-- Rows with times of their own have one order, whatever the page.
pub newest_first-same :
    (o : Sorting) (limit offset limit' offset' : ℕ) (rows : List Submission)
    → OnlySorts o
    → IsNewestFirst o
    → HasOwnTimes rows
    → o.newest_first limit offset rows ≡ o.newest_first limit' offset' rows
newest_first-same o limit offset limit' offset' rows sorts first own =
    let perm = sorts.newest limit offset rows in
    let perm' = sorts.newest limit' offset' rows in
    let strict : (l k : ℕ) → IsStrict (o.newest_first l k rows) = λ l k.
      ordered-IsStrict (o.newest_first l k rows) (first.ordered l k rows)
        (HasOwnTimes-Perm (Permᴰ.symm (sorts.newest l k rows)) own) in
    same_strict (o.newest_first limit offset rows) (o.newest_first limit' offset' rows)
      (strict limit offset) (strict limit' offset')
      (λ P h. All-Perm P (Permᴰ.symm perm') (All-Perm P perm h))
      (λ P h. All-Perm P (Permᴰ.symm perm) (All-Perm P perm' h))
