-- ===== src/Schemas/Names.antt =====
-- Names of fields that the regular expression lets through.
use text.Mathlib.TextLemmas.{cons-append}
use flyrank_capstone_lead_ca.Prelude.{
  ℕ, zero, suc, ◌≡◌, refl, String, append, true, false, arith, has_char, ◌==◌, inl, inr, Bool-cases,
}
use flyrank_capstone_lead_ca.Config.{Settings}
use flyrank_capstone_lead_ca.Schemas.{name_rest, field_name_re, valid_name}

name_rest_line_feed :
    (n : ℕ) (v : String)
    → name_rest n v ≡ true
    → has_char 10 v ≡ false
    → name_rest n (append v "\n") ≡ true
unfolding name_rest has_char
name_rest_line_feed zero String.[] h k = refl
name_rest_line_feed (suc n) String.[] h k = refl
name_rest_line_feed zero (String.◌∷◌ c v) h k = absurd (ground arith)
name_rest_line_feed (suc n) (String.◌∷◌ c v) h k =
    rw (cons-append c v "\n") (ground (arith, name_rest_line_feed n v))

field_name_re_line_feed :
    (v : String)
    → field_name_re v ≡ true
    → has_char 10 v ≡ false
    → field_name_re (append v "\n") ≡ true
unfolding field_name_re has_char
field_name_re_line_feed String.[] h k = absurd (cc)
field_name_re_line_feed (String.◌∷◌ c v) h k =
    rw (cons-append c v "\n") (ground (arith, name_rest_line_feed 39 v))

-- A line feed at the end of an acceptable name without one is accepted too, unless the text is then
-- the honeypot's name.
valid_name_line_feed :
    (s : Settings) (v : String)
    → valid_name s v ≡ true
    → has_char 10 v ≡ false
    → (append v "\n" == s.honeypot_field) ≡ false
    → valid_name s (append v "\n") ≡ true
unfolding valid_name
valid_name_line_feed s v h k d = elim (Bool-cases (field_name_re v)) [
  | inl e ↦ rw (field_name_re_line_feed v e k, d) refl
  | inr e ↦ absurd (ground arith)
]
