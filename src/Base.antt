-- ===== src/Base.antt =====
-- The names that every other module shares: library names, passed on, and the helpers of its
-- children (tests, lists, maps keyed by text, words, a stable sort).
mod Tests
mod Lists
mod Maps
mod Merge
mod Words
mod Sort
unfoldable pub use Tests.*
pub use Lists.*
unfoldable pub use Maps.*
pub use Merge.*
pub use Words.*
unfoldable pub use Sort.*
pub use Prim.Native.Nat.{ℕ, zero, suc, ◌+◌, ◌-◌, ◌*◌, ◌/◌, ◌%◌, ◌^◌, ◌≤◌, ◌<◌}
pub use Prim.Native.String.{String}
pub use mathlib.Core.Path.{◌≡◌, refl, sym, ap, ◌∙◌}
pub use mathlib.Core.Logic.{◌≢◌, ◌↔◌, ◌⊎◌, inl, inr}
pub use mathlib.Core.Bool.{Bool, true, false, not, ◌&&◌, ◌||◌}
pub use mathlib.Core.Option.{Option, none, some}
pub use mathlib.Core.List.{List, [], ◌∷◌, ◌++◌, map}
pub use native.Mathlib.Omega.{arith}
