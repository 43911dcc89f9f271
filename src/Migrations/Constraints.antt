-- ===== src/Migrations/Constraints.antt =====
-- What the database of migrations/versions/0001_initial_schema.py requires of one table: every row
-- fits its columns, and no two rows agree on a primary key, a unique index or a unique constraint.
use flyrank_capstone_lead_ca.Prelude.{
  ℕ, ◌≡◌, refl, String, Bool, true, false, not, ◌&&◌, ◌||◌, Option, none, some, List, [], ◌∷◌, ◌++◌,
  map, Dict, where_, all, nat_eq, arith, ◌==◌, eq_iff, Bool-cases, inl, inr, if◌then◌else◌,
}
use flyrank_capstone_lead_ca.Migrations.{Column}
use flyrank_capstone_lead_ca.Migrations.Running.{Index}
use flyrank_capstone_lead_ca.Migrations.Rows.{Cell, key, chars, count, cell, fits_row}

-- The lists of columns that are unique in a table.
abbrev pub unique_keys : String → List Index → List (List String)
unique_keys table [] = []
unique_keys table (i ∷ is) =
    let rest = unique_keys table is in
    if i.unique then (if i.table == table then i.columns ∷ rest else rest) else rest

abbrev pub key_of : Cell → Option ℕ
key_of (key id) = some id
key_of cell = none

abbrev pub number_of : Cell → Option ℕ
number_of (count n) = some n
number_of cell = none

abbrev pub chars_of : Cell → Option String
chars_of (chars t) = some t
chars_of cell = none

abbrev pub both : {A : Type 0} → (A → A → Bool) → Option A → Option A → Bool
both p none b = false
both p (some a) none = false
both p (some a) (some b) = p a b

-- Are the cells the same key, number or text? Null is not the same as null.
abbrev pub same_cell : Cell → Cell → Bool
same_cell a b =
    both nat_eq (key_of a) (key_of b)
    || both nat_eq (number_of a) (number_of b)
    || both (λ s t. s == t) (chars_of a) (chars_of b)

abbrev pub agree_on : List String → Dict Cell → Dict Cell → Bool
agree_on names a b = all (λ n. same_cell (cell n a) (cell n b)) names

abbrev pub apart_on : List (List String) → Dict Cell → Dict Cell → Bool
apart_on unique a b = all (λ names. not (agree_on names a b)) unique

both_sym :
    {A : Type 0} (p : A → A → Bool)
    → ((a b : A) → p a b ≡ p b a)
    → (a b : Option A) → both p a b ≡ both p b a
both_sym p h none none = refl
both_sym p h none (some b) = refl
both_sym p h (some a) none = refl
both_sym p h (some a) (some b) = h a b

same_cell_sym : (a b : Cell) → same_cell a b ≡ same_cell b a
same_cell_sym a b =
    let nat_eq_sym : (m n : ℕ) → nat_eq m n ≡ nat_eq n m = λ m n. ground arith in
    let eq_sym : (s t : String) → (s == t) ≡ (t == s) =
      λ s t. ground (arith, eq_iff s t, eq_iff t s) in
    rw
      (
        both_sym nat_eq nat_eq_sym (key_of a) (key_of b),
        both_sym nat_eq nat_eq_sym (number_of a) (number_of b),
        both_sym (λ s t. s == t) eq_sym (chars_of a) (chars_of b),
      )
      refl

agree_on_sym : (names : List String) (a b : Dict Cell) → agree_on names a b ≡ agree_on names b a
agree_on_sym [] a b = refl
agree_on_sym (n ∷ names) a b = rw (same_cell_sym (cell n a) (cell n b), agree_on_sym names a b) refl

apart_on_sym :
    (unique : List (List String)) (a b : Dict Cell) → apart_on unique a b ≡ apart_on unique b a
apart_on_sym [] a b = refl
apart_on_sym (names ∷ unique) a b = rw (agree_on_sym names a b, apart_on_sym unique a b) refl

-- Tables whose rows are fit each and apart from one another.
module _ {A : Type 0} (fit : A → Bool) (apart : A → A → Bool) where
  unfoldable pub is_consistent : List A → Bool
  is_consistent [] = true
  is_consistent (r ∷ rs) = let rest = is_consistent rs in fit r && all (apart r) rs && rest

  module _ (apart_sym : (a b : A) → apart a b ≡ apart b a) where
    all-apart-append :
        (a r : A) (rs : List A)
        → all (apart a) rs ≡ true
        → apart a r ≡ true
        → all (apart a) (rs ++ r ∷ []) ≡ true
    all-apart-append a r [] h k = ground arith
    all-apart-append a r (x ∷ rs) h k = ground (arith, all-apart-append a r rs)

    pub is_consistent-append :
        (r : A) (rs : List A)
        → is_consistent rs ≡ true
        → fit r ≡ true
        → all (apart r) rs ≡ true
        → is_consistent (rs ++ r ∷ []) ≡ true
    unfolding is_consistent
    is_consistent-append r [] h f n = ground arith
    is_consistent-append r (x ∷ rs) h f n =
        ground (arith, is_consistent-append r rs, all-apart-append x r rs, apart_sym x r)

  all-apart-where :
      (a : A) (p : A → Bool) (rs : List A)
      → all (apart a) rs ≡ true
      → all (apart a) (where_ p rs) ≡ true
  unfolding where_
  all-apart-where a p [] h = refl
  all-apart-where a p (x ∷ rs) h = ground (arith, all-apart-where a p rs)

  pub is_consistent-where :
      (p : A → Bool) (rs : List A) → is_consistent rs ≡ true → is_consistent (where_ p rs) ≡ true
  unfolding is_consistent where_
  is_consistent-where p [] h = refl
  is_consistent-where p (x ∷ rs) h =
      ground (arith, is_consistent-where p rs, all-apart-where x p rs)

  -- Writing a row over the one with its identity.
  module _ (apart_sym : (a b : A) → apart a b ≡ apart b a) (id : A → ℕ)
      (identity : (a b : A) → apart a b ≡ true → nat_eq (id a) (id b) ≡ false) (new : A) where
    abbrev replaced : A → A
    replaced old = if nat_eq (id old) (id new) then new else old

    -- The new row is apart from those with another identity.
    abbrev is_replacing : List A → Bool
    is_replacing = all (λ b. nat_eq (id b) (id new) || apart new b)

    -- In the rows after the one that is replaced, nothing else is.
    map-others :
        (a : A) (rs : List A)
        → all (apart a) rs ≡ true
        → nat_eq (id a) (id new) ≡ true
        → map replaced rs ≡ rs
    map-others a [] h same = refl
    map-others a (x ∷ rs) h same =
        let other : nat_eq (id x) (id new) ≡ false = ground (arith, identity a x) in
        rw (other, map-others a rs (ground arith) same) refl

    all-apart-others :
        (a : A) (rs : List A)
        → all (apart a) rs ≡ true
        → nat_eq (id a) (id new) ≡ true
        → is_replacing rs ≡ true
        → all (apart new) rs ≡ true
    all-apart-others a [] h same k = refl
    all-apart-others a (x ∷ rs) h same k = ground (arith, identity a x, all-apart-others a rs)

    all-apart-map :
        (a : A) (rs : List A)
        → all (apart a) rs ≡ true
        → apart a new ≡ true
        → all (apart a) (map replaced rs) ≡ true
    all-apart-map a [] h n = refl
    all-apart-map a (x ∷ rs) h n = ground (arith, all-apart-map a rs)

    pub is_consistent-map :
        (rs : List A)
        → is_consistent rs ≡ true
        → fit new ≡ true
        → is_replacing rs ≡ true
        → is_consistent (map replaced rs) ≡ true
    unfolding is_consistent
    is_consistent-map [] h f k = refl
    is_consistent-map (x ∷ rs) h f k = elim (Bool-cases (nat_eq (id x) (id new))) [
      | inl e ↦ rw (e, map-others x rs (ground arith) e) (ground (arith, all-apart-others x rs))
      | inr e ↦ rw e (ground (arith, is_consistent-map rs, all-apart-map x rs, apart_sym x new))
    ]

module _ {A : Type 0} (row : A → Dict Cell) (columns : List Column)
    (unique : List (List String)) where
  abbrev pub fits : A → Bool
  fits r = fits_row columns (row r)

  abbrev pub apart : A → A → Bool
  apart a b = apart_on unique (row a) (row b)

  pub apart_sym : (a b : A) → apart a b ≡ apart b a
  apart_sym a b = apart_on_sym unique (row a) (row b)
