-- ===== src/Prelude/Text.antt =====
-- Python's `str` as the native text, walked by code points where the program walks it.
use Prim.Native.Nat.{ℕ, suc}
use Prim.Native.Char.{Char, code}
use Prim.Native.String as Text
use Prim.Native.String.{String, [], ◌∷◌}
use mathlib.Core.Bool.{Bool, true, false, ◌&&◌, ◌||◌}
use mathlib.Core.List.{List}
use flyrank_capstone_lead_ca.Prelude.Tests.{leb, nat_eq, if◌then◌else◌}

-- `str.isspace` of one character, which is what `str.strip` removes.
unfoldable pub is_space : ℕ → Bool
is_space c =
    (leb 9 c && leb c 13)
    || (leb 28 c && leb c 32)
    || nat_eq c 0x85
    || nat_eq c 0xa0
    || nat_eq c 0x1680
    || (leb 0x2000 c && leb c 0x200a)
    || nat_eq c 0x2028
    || nat_eq c 0x2029
    || nat_eq c 0x202f
    || nat_eq c 0x205f
    || nat_eq c 0x3000

abbrev pub is_empty : String → Bool
is_empty [] = true
is_empty (c ∷ s) = false

-- `len`, in code points
unfoldable pub len : String → ℕ
len [] = 0
len (c ∷ s) = suc (len s)

module _ (drops : ℕ → Bool) where
  unfoldable pub lstrip_by : String → String
  lstrip_by [] = []
  lstrip_by (c ∷ s) = let rest = lstrip_by s in if drops (code c) then rest else c ∷ s

  unfoldable pub rstrip_by : String → String
  rstrip_by [] = []
  rstrip_by (c ∷ s) =
      let rest = rstrip_by s in if drops (code c) && is_empty rest then [] else c ∷ rest

-- `str.strip()`
unfoldable pub strip : String → String
unfolding is_space lstrip_by rstrip_by
strip s = lstrip_by is_space (rstrip_by is_space s)

-- `c in text` for one character
unfoldable pub has_char : ℕ → String → Bool
has_char x [] = false
has_char x (c ∷ s) = nat_eq (code c) x || has_char x s

abbrev pub on_head : Char → List String → List String
on_head c List.[] = List.◌∷◌ (c ∷ []) List.[]
on_head c (List.◌∷◌ part parts) = List.◌∷◌ (c ∷ part) parts

-- `text.split(c)` for one character: always at least one part
unfoldable pub split : ℕ → String → List String
split x [] = List.◌∷◌ [] List.[]
split x (c ∷ s) =
    let parts = split x s in if nat_eq (code c) x then List.◌∷◌ [] parts else on_head c parts

-- `s + t`, and the parts of an f-string
abbrev pub append : String → String → String
append s t = Text.◌++◌ s t
