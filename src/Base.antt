-- ===== src/Base.antt =====
-- The names that all modules share: the libraries' names, passed on, and those of the children.
-- Children: Base/Tests (Boolean tests on numbers), Base/Lists (list functions over the native
-- numbers), Base/Text (Go strings as byte lists, with the parts of `strings` and `strconv` that
-- the program calls), Base/Int (Go's `int` where it may be negative) and Base/Dict (Go maps).
mod Tests
mod Lists
mod Text
mod Int
pub mod Dict
pub use Tests.*
pub use Lists.*
unfoldable pub use Text.*
pub use Int.*
pub use Prim.Native.Nat.{ℕ, zero, suc, ◌+◌, ◌-◌, ◌*◌, ◌/◌, ◌%◌, ◌^◌, ◌≤◌, ◌<◌}
pub use Prim.Native.String.{String}
pub use mathlib.Core.Path.{◌≡◌, refl, sym, ap, ap₂, ◌∙◌, subst}
pub use mathlib.Core.Logic.{◌≢◌, ◌↔◌, ◌⊎◌, inl, inr}
pub use mathlib.Core.Bool.{Bool, true, false, not, ◌&&◌, ◌||◌}
pub use mathlib.Core.Option.{Option, none, some}
pub use mathlib.Core.List.{List, [], ◌∷◌, ◌++◌, map, append-nil, append_assoc}
pub use native.Mathlib.Omega.{arith}
