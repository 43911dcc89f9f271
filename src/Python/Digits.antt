-- ===== src/Python/Digits.antt =====
-- `str(n)` can be read back, so different numbers have different texts.
use text.Mathlib.TextLemmas.{cons-append, nil-append}
use flyrank_capstone_lead_ca.Prelude.{
  ℕ, zero, suc, ◌+◌, ◌-◌, ◌*◌, ◌/◌, ◌%◌, ◌<◌, ◌≡◌, refl, sym, ap, ◌∙◌, String, code, append, arith,
  ltb, inl, inr, Bool-cases,
}
use flyrank_capstone_lead_ca.Python.{digit_text, show_from, show}

-- The number that a text of digits denotes, after some digits have been read.
unfoldable read : ℕ → String → ℕ
read v String.[] = v
read v (String.◌∷◌ c s) = read (v * 10 + (code c - b'0')) s

read-append : (v : ℕ) (u t : String) → read v (append u t) ≡ read (read v u) t
unfolding read
read-append v String.[] t = ap (read v) (nil-append t)
read-append v (String.◌∷◌ c u) t =
    rw (cons-append c u t) (read-append (v * 10 + (code c - b'0')) u t)

read-digit_text : (v d : ℕ) → d < 10 → read v (digit_text d) ≡ v * 10 + d
unfolding read
read-digit_text v zero h = refl
read-digit_text v (suc zero) h = refl
read-digit_text v (suc (suc zero)) h = refl
read-digit_text v (suc (suc (suc zero))) h = refl
read-digit_text v (suc (suc (suc (suc zero)))) h = refl
read-digit_text v (suc (suc (suc (suc (suc zero))))) h = refl
read-digit_text v (suc (suc (suc (suc (suc (suc zero)))))) h = refl
read-digit_text v (suc (suc (suc (suc (suc (suc (suc zero))))))) h = refl
read-digit_text v (suc (suc (suc (suc (suc (suc (suc (suc zero)))))))) h = refl
read-digit_text v (suc (suc (suc (suc (suc (suc (suc (suc (suc zero))))))))) h = refl
read-digit_text v (suc (suc (suc (suc (suc (suc (suc (suc (suc (suc d)))))))))) h =
    absurd (omega arith)

read-last_digit :
    (v n k : ℕ) (t : String)
    → v * 10 + n % 10 ≡ k
    → read v (append (digit_text (n % 10)) t) ≡ read k t
read-last_digit v n k t h =
    read-append v (digit_text (n % 10)) t
    ∙ ap (λ j. read j t) (read-digit_text v (n % 10) (omega arith) ∙ h)

read-show_from : (fuel n : ℕ) (t : String) → n < fuel → read 0 (show_from fuel n t) ≡ read n t
unfolding show_from
read-show_from zero n t h = absurd (omega arith)
read-show_from (suc fuel) n t h = elim (Bool-cases (ltb n 10)) [
  | inl small ↦ rw small (read-last_digit 0 n n t (ground arith))
  | inr large ↦ rw large (
      read-show_from fuel (n / 10) (append (digit_text (n % 10)) t) (ground arith)
      ∙ read-last_digit (n / 10) n n t (omega arith))
]

read-show : (n : ℕ) → read 0 (show n) ≡ n
unfolding show read
read-show n = read-show_from (suc n) n "" (omega arith)

-- Different numbers have different texts.
pub show_injective : (n m : ℕ) → show n ≡ show m → n ≡ m
show_injective n m h = sym (read-show n) ∙ ap (read 0) h ∙ read-show m
