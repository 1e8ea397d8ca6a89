-- ===== src/Prelude.antt =====
-- The names that the other modules share: the libraries', passed on, and those of the children.
mod Tests
mod Lists
mod Results
mod Words
mod Bits
mod Masks
mod Runs
pub use Tests.*
pub use Lists.*
pub use Bits.{
  Covers, Covers-trans, Covers-bit_and, Covers-bit_or, Covers-meet, bit_and-le_left, bit_and-zero,
}
pub use Masks.{bit_and-mask}
pub use Runs.*
pub use Results.*
unfoldable pub use Words.{to_be_bytes, from_be_loop, from_be_bytes}
pub use Words.{IsByte, IsU16, IsU64, IsArray}
pub use Words.{length-to_be_bytes, to_be_bytes-IsByte, from-to_be_bytes, to-from_be_bytes}
pub use Words.{from_be_bytes-lt}
pub use Prim.Native.Nat.{ℕ, zero, suc, ◌+◌, ◌-◌, ◌*◌, ◌/◌, ◌%◌, ◌^◌, ◌≤◌, ◌<◌, bit_and, bit_or}
pub use mathlib.Core.Path.{◌≡◌, refl, sym, ap, ◌∙◌}
pub use mathlib.Core.Logic.{◌≢◌, ◌↔◌, ◌⊎◌, inl, inr}
pub use mathlib.Core.Bool.{Bool, true, false, not, ◌&&◌, ◌||◌}
pub use mathlib.Core.Option.{Option, none, some}
pub use mathlib.Core.List.{List, [], ◌∷◌, ◌++◌, map, append_assoc, append-nil}
pub use native.Mathlib.Omega.{arith}
