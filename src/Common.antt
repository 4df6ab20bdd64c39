-- ===== src/Common.antt =====
-- What the components share: the libraries' names passed on, Boolean tests and the conditional,
-- arrays as lists with native indices, machine words, byte comparison and keyed arrays.
mod Tests
mod Lists
mod Words
mod Bytes
pub mod Keyed
pub mod Slots
pub use Tests.*
pub use Lists.*
pub use Words.*
pub use Bytes.{mem_eq→eq, mem_eq_refl, mem_eq_comm}
unfoldable pub use Bytes.{mem_eq}
pub use Prim.Native.Nat.{
  ℕ, zero, suc, ◌+◌, ◌-◌, ◌*◌, ◌/◌, ◌%◌, ◌^◌, ◌≤◌, ◌<◌, min, max, bit_xor, bit_or, bit_and,
}
pub use mathlib.Core.Path.{◌≡◌, refl, sym, ap, ◌∙◌}
pub use mathlib.Core.Logic.{◌≢◌, ◌↔◌, ◌⊎◌, inl, inr}
pub use mathlib.Core.Bool.{Bool, true, false, not, ◌&&◌, ◌||◌}
pub use mathlib.Core.Option.{Option, none, some}
pub use mathlib.Core.List.{List, [], ◌∷◌, ◌++◌, map}
pub use native.Mathlib.Omega.{arith}
