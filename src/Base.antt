-- ===== src/Base.antt =====
-- The names that the other modules share: the libraries', passed on, and those of the children.
mod Tests
mod Lists
mod Words
mod Text
pub mod Int
pub use Tests.*
pub use Lists.*
pub use Text.{codes, is_space, drop_spaces, cut_behind}
unfoldable pub use Text.{trim, cut}
unfoldable pub use Words.{add64, sub64, be_bytes, be_value, xor_bits}
pub use Words.{
  u64, add64_lem, sub64_lem, IsByte, length-be_bytes, be_bytes-IsByte, be_value-be_bytes,
  xor_bits-xor_bits,
}
pub use Prim.Native.Nat.{ℕ, zero, suc, ◌+◌, ◌-◌, ◌*◌, ◌/◌, ◌%◌, ◌^◌, ◌≤◌, ◌<◌, min, max}
pub use mathlib.Core.Path.{◌≡◌, refl, sym, ap, subst, ◌∙◌}
pub use mathlib.Core.Logic.{◌≢◌, ◌↔◌, ◌⊎◌, inl, inr}
pub use mathlib.Core.Bool.{Bool, true, false, not, ◌&&◌, ◌||◌}
pub use mathlib.Core.Option.{Option, none, some}
pub use mathlib.Core.List.{List, [], ◌∷◌, ◌++◌, map}
pub use native.Mathlib.Omega.{arith}
