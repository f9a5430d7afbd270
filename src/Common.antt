-- ===== src/Common.antt =====
-- What every module shares: library names, Boolean tests, lists and integers over the native
-- numbers, the test on texts, and Go's `time`.
mod Tests
mod Lists
mod Texts
pub mod Int
pub mod Decimal
pub mod Chars
pub use Tests.*
pub use Lists.*
pub use Int.{ℤ, pos, negsuc}
pub use Prim.Native.Nat.{ℕ, zero, suc, ◌+◌, ◌-◌, ◌*◌, ◌/◌, ◌%◌, ◌^◌, ◌≤◌, ◌<◌}
pub use Prim.Native.String.{String}
pub use mathlib.Core.Path.{◌≡◌, refl, sym, ap, subst, ◌∙◌}
pub use mathlib.Core.Logic.{◌≢◌, ◌↔◌, ◌⊎◌, inl, inr}
pub use mathlib.Core.Bool.{Bool, true, false, not, ◌&&◌, ◌||◌}
pub use mathlib.Core.Option.{Option, none, some}
pub use mathlib.Core.List.{List, [], ◌∷◌, ◌++◌, map, Memᴰ}
pub use native.Mathlib.Omega.{arith}
unfoldable pub use Texts.{same, ◌<>◌}
pub use Texts.{same_iff, same_self, same→eq, same-false, ne→same, <>_cancel}
