-- ===== src/Prelude.antt =====
-- The names that the other modules share: the libraries', passed on, and those of the children.
mod Tests
mod Lists
mod Text
mod Assoc
mod Perms
pub use Tests.*
pub use Lists.{
  length, any, all, All, length-append, length-where-le, length-where_mono, where-append,
  length-take,
}
pub use Lists.{length-drop, All-append, All-where, All-where_, all_mono, any-append}
pub use Perms.{
  All-mono, All-map, All-Perm, any-Perm, length-Perm, take_all, where_same, map_same, map_id,
}
unfoldable pub use Lists.{take, drop, where_}
pub use Text.{is_empty, on_head, append}
unfoldable pub use Text.{is_space, len, lstrip_by, rstrip_by, strip, has_char, split}
pub use Assoc.{Dict, contains, keys, lookup-insert, lookup-erase}
unfoldable pub use Assoc.{lookup, insert, erase}
pub use Prim.Native.Nat.{ℕ, zero, suc, ◌+◌, ◌-◌, ◌*◌, ◌/◌, ◌%◌, ◌^◌, ◌≤◌, ◌<◌, min, max}
pub use Prim.Native.Char.{Char, code}
pub use Prim.Native.String.{String}
pub use mathlib.Core.Path.{◌≡◌, refl, sym, ap, ◌∙◌}
pub use mathlib.Core.Logic.{◌≢◌, ◌↔◌, ◌⊎◌, inl, inr}
pub use mathlib.Core.Bool.{Bool, true, false, not, ◌&&◌, ◌||◌}
pub use mathlib.Core.Option.{Option, none, some}
pub use mathlib.Core.List.{List, [], ◌∷◌, ◌++◌, map}
pub use native.Mathlib.Omega.{arith}
pub use text.Mathlib.Text.{◌==◌, starts_with}
pub use text.Mathlib.TextEquality.{eq_iff}
pub use text.Mathlib.TextPositions.{eq_refl}
