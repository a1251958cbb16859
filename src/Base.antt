-- ===== src/Base.antt =====
-- The names that the modules share: the libraries', passed on, and those of the children, which
-- hold C's tests, words, bits, arrays and the order on numbers.
mod Tests
mod Lists
mod Word
mod Bits
mod Fields
mod Order
mod Partial
mod Bytes
pub use Tests.*
pub use Lists.*
pub use Word.*
pub use Partial.*
unfoldable pub use Bytes.*
unfoldable pub use Bits.*
pub use Fields.*
unfoldable pub use Order.*
pub use Prim.Native.Nat.{
  ℕ, zero, suc, ◌+◌, ◌-◌, ◌*◌, ◌/◌, ◌%◌, ◌^◌, ◌≤◌, ◌<◌, min, max, bit_and, bit_or, bit_xor,
}
pub use mathlib.Core.Path.{◌≡◌, refl, sym, ap, ap₂, subst, ◌∙◌}
pub use mathlib.Core.Logic.{◌≢◌, ◌↔◌, ◌⊎◌, inl, inr}
pub use mathlib.Core.Bool.{Bool, true, false, ◌&&◌, ◌||◌, not}
pub use mathlib.Core.Option.{Option, none, some}
pub use mathlib.Core.List.{List, [], ◌∷◌, ◌++◌, map}
pub use native.Mathlib.Omega.{arith}
