-- ===== src/Common.antt =====
-- The names that the modules of the development share: the libraries' names, passed on, and
-- those of the children on Boolean tests, machine words and binary digits.
mod Tests
mod Word
pub mod Digits
pub mod Bits
pub mod Table
pub mod Int
pub mod Text
pub mod Masks
pub mod Join
unfoldable pub use Tests.*
unfoldable pub use Word.*
pub use Prim.Native.Nat.{ℕ, zero, suc, ◌+◌, ◌-◌, ◌*◌, ◌/◌, ◌%◌, ◌^◌, ◌≤◌, ◌<◌, min, max}
pub use Prim.Native.Nat.{bit_and, bit_or, bit_xor}
pub use mathlib.Core.Path.{◌≡◌, refl, sym, ap, ap₂, ◌∙◌, fun_ext}
pub use mathlib.Core.Logic.{◌≢◌, ◌↔◌, ◌⊎◌, inl, inr}
pub use mathlib.Core.Bool.{Bool, true, false, not, ◌&&◌, ◌||◌}
pub use mathlib.Core.Option.{Option, none, some}
pub use mathlib.Core.List.{List, [], ◌∷◌, ◌++◌}
pub use native.Mathlib.Omega.{arith}
