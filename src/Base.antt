-- ===== src/Base.antt =====
-- The names that every part of the development shares: the libraries', passed on, and those of the
-- children below (tests on numbers, lists, Go texts, and maps keyed by a text).
mod Tests
mod Lists
mod Strings
mod Maps
mod Words
mod Tails
pub use Tests.*
unfoldable pub use Lists.*
unfoldable pub use Strings.*
pub use Words.*
unfoldable pub use Maps.*
unfoldable pub use Tails.*
pub use Prim.Native.Nat.{ℕ, zero, suc, ◌+◌, ◌-◌, ◌*◌, ◌/◌, ◌%◌, ◌^◌, ◌≤◌, ◌<◌, max}
pub use mathlib.Core.Path.{◌≡◌, refl, sym, ap, ◌∙◌, subst}
pub use mathlib.Core.Logic.{◌≢◌, ◌↔◌, ◌⊎◌, inl, inr}
pub use mathlib.Core.Bool.{Bool, true, false, not, ◌&&◌, ◌||◌}
pub use mathlib.Core.Option.{Option, none, some}
pub use mathlib.Core.List.{List, [], ◌∷◌, ◌++◌, map, append_assoc, append-nil}
pub use native.Mathlib.Omega.{arith}
unfoldable pub use native.Mathlib.Decide.{dec_lt, dec_le, ℕ_discrete}
