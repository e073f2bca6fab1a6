-- ===== src/Base.antt =====
-- What the other modules share: library names passed on, tests and conditionals, lists over the
-- native numbers, integers, Python's exceptions as results and its dictionaries, and the laws of the bit
-- operations.
mod Tests
mod Lists
mod Int
mod Exceptions
mod Dict
mod Bits
pub use Tests.*
pub use Lists.*
unfoldable pub use Int.*
pub use Exceptions.*
pub use Dict.*
pub use Bits.*
pub use Prim.Native.Nat.{ℕ, zero, suc, ◌+◌, ◌-◌, ◌*◌, ◌/◌, ◌%◌, ◌^◌, ◌≤◌, ◌<◌, bit_and, bit_or}
pub use mathlib.Core.Path.{◌≡◌, refl, sym, ap, ◌∙◌, subst}
pub use mathlib.Core.Logic.{◌≢◌, ◌↔◌, ◌⊎◌, inl, inr}
pub use mathlib.Core.Bool.{Bool, true, false, not, ◌&&◌, ◌||◌}
pub use mathlib.Core.Option.{Option, none, some}
pub use mathlib.Core.List.{List, [], ◌∷◌, ◌++◌, map}
pub use native.Mathlib.Omega.{arith}
