-- ===== src/Prelude/Perms.antt =====
-- Lists that are permutations of each other, and what an order of rows does not change.
use Prim.Native.Nat.{ℕ, zero, suc, ◌≤◌}
use mathlib.Core.Path.{◌≡◌, refl, ap, ◌∙◌, subst}
use mathlib.Core.Bool.{Bool}
use mathlib.Core.List.{List, [], ◌∷◌, map, Permᴰ}
use native.Mathlib.Omega.{arith}
use flyrank_capstone_lead_ca.Prelude.Lists.{length, take, where_, any, All}

module _ {A : Type 0} where
  pub All-mono : (P Q : A → Type 0) → ((x : A) → P x → Q x) → (xs : List A) → All P xs → All Q xs
  All-mono P Q f [] h = tt
  All-mono P Q f (x ∷ xs) h = (f x h.0, All-mono P Q f xs h.1)

  pub All-map :
      (Q : A → Type 0) (f : A → A) (xs : List A) → All (λ x. Q (f x)) xs → All Q (map f xs)
  All-map Q f [] h = tt
  All-map Q f (x ∷ xs) h = (h.0, All-map Q f xs h.1)

  pub All-Perm : (Q : A → Type 0) {xs ys : List A} → Permᴰ xs ys → All Q xs → All Q ys
  All-Perm Q Permᴰ.nil h = tt
  All-Perm Q (Permᴰ.cons e s) h = (subst Q e h.0, All-Perm Q s h.1)
  All-Perm Q (Permᴰ.swap e e') h = (subst Q e' h.1.0, (subst Q e h.0, h.1.1))
  All-Perm Q (Permᴰ.trans s s') h = All-Perm Q s' (All-Perm Q s h)

  pub any-Perm : (p : A → Bool) {xs ys : List A} → Permᴰ xs ys → any p xs ≡ any p ys
  any-Perm p Permᴰ.nil = refl
  any-Perm p (Permᴰ.cons e s) = rw (e, any-Perm p s) refl
  any-Perm p (Permᴰ.swap e e') = rw (e, e') (ground arith)
  any-Perm p (Permᴰ.trans s s') = any-Perm p s ∙ any-Perm p s'

  pub length-Perm : {xs ys : List A} → Permᴰ xs ys → length xs ≡ length ys
  length-Perm Permᴰ.nil = refl
  length-Perm (Permᴰ.cons e s) = ap suc (length-Perm s)
  length-Perm (Permᴰ.swap e e') = refl
  length-Perm (Permᴰ.trans s s') = length-Perm s ∙ length-Perm s'

  pub take_all : (n : ℕ) (xs : List A) → length xs ≤ n → take n xs ≡ xs
  unfolding take
  take_all zero [] h = refl
  take_all zero (x ∷ xs) h = absurd (omega arith)
  take_all (suc n) [] h = refl
  take_all (suc n) (x ∷ xs) h = ap (λ ys. x ∷ ys) (take_all n xs (omega arith))

  pub where_same :
      (p q : A → Bool) → ((x : A) → p x ≡ q x) → (xs : List A) → where_ p xs ≡ where_ q xs
  unfolding where_
  where_same p q h [] = refl
  where_same p q h (x ∷ xs) = rw (h x, where_same p q h xs) refl

  pub map_same : (f g : A → A) (xs : List A) → All (λ x. f x ≡ g x) xs → map f xs ≡ map g xs
  map_same f g [] h = refl
  map_same f g (x ∷ xs) h = rw (h.0, map_same f g xs h.1) refl

  pub map_id : (xs : List A) → map (λ x. x) xs ≡ xs
  map_id [] = refl
  map_id (x ∷ xs) = ap (λ ys. x ∷ ys) (map_id xs)
