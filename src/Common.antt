-- ===== src/Common.antt =====
-- The names that the modules share: the libraries' names passed on, Boolean tests, buffers as lists,
-- result codes, bits of machine words, decimal and hexadecimal text, and C strings. No code of the repository stands here.
mod Tests
mod Lists
pub mod Int
pub mod Bits
pub mod Decimal
pub mod CString
pub mod Hex
pub mod Typed
pub use Tests.*
pub use Lists.*
pub use Prim.Native.Nat.{ℕ, zero, suc, ◌+◌, ◌-◌, ◌*◌, ◌/◌, ◌%◌, ◌^◌, ◌≤◌, ◌<◌}
pub use mathlib.Core.Path.{◌≡◌, refl, sym, ap, ◌∙◌, subst}
pub use mathlib.Core.Logic.{◌≢◌, ◌↔◌, ◌⊎◌, inl, inr}
pub use mathlib.Core.Bool.{Bool, true, false, ◌&&◌, ◌||◌, not}
pub use mathlib.Core.Option.{Option, none, some}
pub use mathlib.Core.List.{List, [], ◌∷◌, ◌++◌, map}
pub use native.Mathlib.Omega.{arith}
