-- ===== src/Base.antt =====
-- The names that the other modules share: the libraries', passed on, and those of the children.
mod Tests
mod Lists
mod Sums
mod Text
pub mod Decimal
pub mod Space
pub mod Int
pub mod Dict
pub use Tests.*
pub use Lists.*
pub use Sums.*
unfoldable pub use Text.{same, cut_prefix, split, join}
pub use Text.{
  Bytes, codes, same-eq, same_refl, same_iff, cut_prefix-append, cut_prefix_sound, split-Lacks,
  split_at_sep, join-split, split-All-Lacks, before_sep,
}
pub use Prim.Native.Nat.{ℕ, zero, suc, ◌+◌, ◌-◌, ◌*◌, ◌/◌, ◌%◌, ◌^◌, ◌≤◌, ◌<◌, min, max}
pub use mathlib.Core.Path.{ap₂, fun_ext, subst, ◌≡◌, refl, sym, ap, ◌∙◌}
pub use mathlib.Core.Logic.{◌≢◌, ◌↔◌, ◌⊎◌, inl, inr}
pub use mathlib.Core.Bool.{Bool, true, false, not, ◌&&◌, ◌||◌}
pub use mathlib.Core.Option.{Option, none, some}
pub use mathlib.Core.List.{List, [], ◌∷◌, ◌++◌, map, reverse}
pub use native.Mathlib.Omega.{arith}
