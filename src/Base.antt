-- ===== src/Base.antt =====
-- The names that the components share: those of the libraries, passed on, Boolean tests on the
-- native numbers, list functions that the libraries have only over the unary numbers, and the laws
-- of `size_t` arithmetic.
pub mod Tests
pub mod Lists
pub mod Bits
pub mod Digits
pub mod Words
pub mod Segments
pub mod Int
pub use Tests.*
pub use Lists.*
pub use Prim.Native.Nat.{ℕ, zero, suc, ◌+◌, ◌-◌, ◌*◌, ◌/◌, ◌%◌, ◌^◌, ◌≤◌, ◌<◌, min, bit_and}
pub use mathlib.Core.Path.{◌≡◌, refl, sym, ap, ap₂, subst, ◌∙◌}
pub use mathlib.Core.Logic.{◌≢◌, ◌↔◌, ◌⊎◌, inl, inr}
pub use mathlib.Core.Bool.{Bool, true, false, not, ◌&&◌, ◌||◌}
pub use mathlib.Core.Option.{Option, none, some}
pub use mathlib.Core.List.{List, [], ◌∷◌, ◌++◌, map, append-nil, append_assoc}
pub use native.Mathlib.Omega.{arith}
pub use Segments.{segment, splice}
pub use Words.{size_mod, add_size, sub_size, mul_size}
