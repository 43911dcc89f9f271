-- ===== src/Python.antt =====
-- What the source uses of Python's built-ins on texts: `str(n)`, `float(text)` and `int(text)` as
-- tests of syntax, by the automata of the number grammars.
pub mod Digits
use flyrank_capstone_lead_ca.Prelude.{
  ℕ, zero, suc, ◌+◌, ◌-◌, ◌*◌, ◌/◌, ◌%◌, String, code, Bool, true, false, ◌&&◌, ◌||◌, Option, none,
  some, List, [], ◌∷◌, ltb, leb, nat_eq, append, strip, lstrip_by, rstrip_by, is_space, ◌≡◌, refl,
  if◌then◌else◌,
}

abbrev pub digit_text : ℕ → String
digit_text d =
    if nat_eq d 0
    then "0"
    else if nat_eq d 1
    then "1"
    else if nat_eq d 2
    then "2"
    else if nat_eq d 3
    then "3"
    else if nat_eq d 4
    then "4"
    else if nat_eq d 5
    then "5"
    else if nat_eq d 6
    then "6"
    else if nat_eq d 7
    then "7"
    else if nat_eq d 8
    then "8"
    else "9"

unfoldable pub show_from : ℕ → ℕ → String → String
show_from zero n acc = acc
show_from (suc fuel) n acc =
    let text = append (digit_text (n % 10)) acc in
    let rest = show_from fuel (n / 10) text in if ltb n 10 then text else rest

-- `str(n)` of a number that is not negative; a number has no more digits than its value plus one
unfoldable pub show : ℕ → String
unfolding show_from
show n = show_from (suc n) n ""

-- The zeros of the Unicode decimal digits (category Nd); each is followed by its nine others.
abbrev pub zeros : List ℕ
zeros =
    0x30 ∷ 0x660 ∷ 0x6f0 ∷ 0x7c0 ∷ 0x966 ∷ 0x9e6 ∷ 0xa66 ∷ 0xae6 ∷ 0xb66 ∷ 0xbe6 ∷ 0xc66 ∷ 0xce6
    ∷ 0xd66 ∷ 0xde6 ∷ 0xe50 ∷ 0xed0 ∷ 0xf20 ∷ 0x1040 ∷ 0x1090 ∷ 0x17e0 ∷ 0x1810 ∷ 0x1946 ∷ 0x19d0
    ∷ 0x1a80 ∷ 0x1a90 ∷ 0x1b50 ∷ 0x1bb0 ∷ 0x1c40 ∷ 0x1c50 ∷ 0xa620 ∷ 0xa8d0 ∷ 0xa900 ∷ 0xa9d0
    ∷ 0xa9f0 ∷ 0xaa50 ∷ 0xabf0 ∷ 0xff10 ∷ 0x104a0 ∷ 0x10d30 ∷ 0x11066 ∷ 0x110f0 ∷ 0x11136 ∷ 0x111d0
    ∷ 0x112f0 ∷ 0x11450 ∷ 0x114d0 ∷ 0x11650 ∷ 0x116c0 ∷ 0x11730 ∷ 0x118e0 ∷ 0x11950 ∷ 0x11c50
    ∷ 0x11d50 ∷ 0x11da0 ∷ 0x16a60 ∷ 0x16ac0 ∷ 0x16b50 ∷ 0x1d7ce ∷ 0x1d7d8 ∷ 0x1d7e2 ∷ 0x1d7ec
    ∷ 0x1d7f6 ∷ 0x1e140 ∷ 0x1e2f0 ∷ 0x1e950 ∷ 0x1fbf0 ∷ []

-- The value of a decimal digit of any script.
unfoldable pub digit_value : List ℕ → ℕ → Option ℕ
digit_value [] c = none
digit_value (z ∷ zs) c =
    let rest = digit_value zs c in if leb z c && leb c (z + 9) then some (c - z) else rest

unfoldable pub is_digit : ℕ → Bool
unfolding digit_value
is_digit c = elim (digit_value zeros c) [ none ↦ false | some d ↦ true ]

-- The positions in a float literal: what has been read.
pub data FloatState : Type 0 where
  start sign whole whole_gap lone_dot dot fraction fraction_gap e e_sign exponent exponent_gap
        refused :
      FloatState

pub data Symbol : Type 0 where
  digit point underscore plus_minus letter_e other : Symbol

abbrev symbol : ℕ → Symbol
symbol c =
    if nat_eq c b'.'
    then point
    else if nat_eq c b'_'
    then underscore
    else if nat_eq c b'+' || nat_eq c b'-'
    then plus_minus
    else if nat_eq c b'e' || nat_eq c b'E'
    then letter_e
    else if is_digit c
    then digit
    else other

-- An underscore stands between two digits only; the mantissa has a digit.
abbrev float_step : FloatState → Symbol → FloatState
float_step start plus_minus = sign
float_step start digit = whole
float_step start point = lone_dot
float_step sign digit = whole
float_step sign point = lone_dot
float_step whole digit = whole
float_step whole underscore = whole_gap
float_step whole point = dot
float_step whole letter_e = e
float_step whole_gap digit = whole
float_step lone_dot digit = fraction
float_step dot digit = fraction
float_step dot letter_e = e
float_step fraction digit = fraction
float_step fraction underscore = fraction_gap
float_step fraction letter_e = e
float_step fraction_gap digit = fraction
float_step e plus_minus = e_sign
float_step e digit = exponent
float_step e_sign digit = exponent
float_step exponent digit = exponent
float_step exponent underscore = exponent_gap
float_step exponent_gap digit = exponent
float_step _ _ = refused

abbrev float_accepts : FloatState → Bool
float_accepts whole = true
float_accepts dot = true
float_accepts fraction = true
float_accepts exponent = true
float_accepts _ = false

float_run : FloatState → String → Bool
float_run st String.[] = float_accepts st
float_run st (String.◌∷◌ c s) = float_run (float_step st (symbol (code c))) s

abbrev lower_ascii : ℕ → ℕ
lower_ascii c = if leb b'A' c && leb c b'Z' then c + 32 else c

-- Is the text this word, whatever the case of its letters?
abbrev spells : String → String → Bool
spells String.[] String.[] = true
spells String.[] (String.◌∷◌ d t) = false
spells (String.◌∷◌ c s) String.[] = false
spells (String.◌∷◌ c s) (String.◌∷◌ d t) =
    let rest = spells s t in if nat_eq (lower_ascii (code c)) (code d) then rest else false

abbrev is_sign : ℕ → Bool
is_sign c = nat_eq c b'+' || nat_eq c b'-'

abbrev unsigned : String → String
unsigned String.[] = String.[]
unsigned (String.◌∷◌ c s) = if is_sign (code c) then s else String.◌∷◌ c s

-- Does `float(text)` return? It raises `ValueError` on every other text.
unfoldable pub is_float : String → Bool
unfolding is_digit float_run
is_float text =
    let s = strip text in
    float_run start s
    || spells (unsigned s) "inf"
    || spells (unsigned s) "infinity"
    || spells (unsigned s) "nan"

-- The digits of an integer literal: their value and their number, `none` where the syntax is wrong.
-- `ready` says whether a digit was read just before.
int_digits : Bool → ℕ → ℕ → String → Option (ℕ × ℕ)
int_digits ready value count String.[] = if ready then some (value, count) else none
int_digits ready value count (String.◌∷◌ c s) = elim (digit_value zeros (code c)) [
  | some d ↦ int_digits true (value * 10 + d) (suc count) s
  | none ↦
      let rest = int_digits false value count s in
      if nat_eq (code c) b'_' && ready then rest else none
]

abbrev is_minus : String → Bool
is_minus String.[] = false
is_minus (String.◌∷◌ c s) = nat_eq (code c) b'-'

-- CPython refuses literals of more than 4300 digits.
abbrev checked_int : Bool → Option (ℕ × ℕ) → Option (Bool × ℕ)
checked_int negative none = none
checked_int negative (some (value, count)) = if leb count 4300 then some (negative, value) else none

-- `int(text)`: whether the literal has a minus sign, and its magnitude; `none` is `ValueError`.
unfoldable pub int_of : String → Option (Bool × ℕ)
unfolding int_digits digit_value
int_of text = let s = strip text in checked_int (is_minus s) (int_digits false 0 0 (unsigned s))

is_float_tests :
    (is_float "1_0.5e-3" ≡ true)
    × (is_float ".5" ≡ true)
    × (is_float "1." ≡ true)
    × (is_float "-Infinity" ≡ true)
    × (is_float "." ≡ false)
    × (is_float "1__0" ≡ false)
    × (is_float "1e" ≡ false)
    × (is_float "12a" ≡ false)
    × (is_float "" ≡ false)
unfolding is_float strip is_space lstrip_by rstrip_by
is_float_tests = (refl, refl, refl, refl, refl, refl, refl, refl, refl)

int_of_tests :
    (int_of " 8_192 " ≡ some (false, 8192))
    × (int_of "-5" ≡ some (true, 5))
    × (int_of "5x" ≡ none)
    × (int_of "_5" ≡ none)
    × (show 2000 ≡ "2000")
    × (show 0 ≡ "0")
unfolding int_of show strip is_space lstrip_by rstrip_by
int_of_tests = (refl, refl, refl, refl, refl, refl)
