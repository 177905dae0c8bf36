-- ===== src/Base.antt =====
-- The names that the other modules share: those of the libraries, passed on, and the children's.
mod Tests
mod Lists
mod Words
mod Calls
mod Text
pub mod Map
pub use Tests.*
pub use Lists.*
unfoldable pub use Words.{add64, sub64, mul64, to_u64}
pub use Words.{u64_mod, IsU64, IsByte, ℤ, pos, negsuc, to_u64-IsU64, add64-IsU64, sub64-add64}
pub use Calls.*
pub use Text.{codes, same_text_iff}
unfoldable pub use Text.{decimal, same_text}
pub use Prim.Native.Nat.{ℕ, zero, suc, ◌+◌, ◌-◌, ◌*◌, ◌/◌, ◌%◌, ◌^◌, ◌≤◌, ◌<◌}
pub use mathlib.Core.Path.{◌≡◌, refl, sym, ap, ◌∙◌}
pub use mathlib.Core.Logic.{◌≢◌, ◌↔◌, ◌⊎◌, inl, inr}
pub use mathlib.Core.Bool.{Bool, true, false, not, ◌&&◌, ◌||◌}
pub use mathlib.Core.Option.{Option, none, some}
pub use mathlib.Core.List.{List, [], ◌∷◌, ◌++◌, map}
unfoldable pub use native.Mathlib.Decide.{dec_lt, ℕ_discrete}
pub use native.Mathlib.Omega.{arith}
