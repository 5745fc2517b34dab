-- ===== src/Base.antt =====
-- The names that the other modules share: the libraries', passed on, and those of the children:
-- Boolean tests, lists over the native numbers, equality and order as interfaces, text, and
-- optional fields as patterns.
mod Tests
mod Lists
mod Equality
mod Order
mod Strings
mod Sort
mod Int
mod Wildcard
mod Chars
mod Count
mod Distinct
pub use Tests.*
unfoldable pub use Lists.*
unfoldable pub use Equality.*
unfoldable pub use Order.*
unfoldable pub use Strings.*
unfoldable pub use Sort.*
unfoldable pub use Int.*
unfoldable pub use Chars.*
unfoldable pub use Count.*
unfoldable pub use Distinct.*
pub use Wildcard.*
pub use Prim.Native.Nat.{ℕ, zero, suc, ◌+◌, ◌-◌, ◌*◌, ◌/◌, ◌%◌, ◌^◌, ◌≤◌, ◌<◌, compare, Ordering}
pub use mathlib.Core.Path.{◌≡◌, refl, sym, ap, ◌∙◌, subst}
pub use mathlib.Core.Logic.{◌≢◌, ◌↔◌, ◌⊎◌, inl, inr}
pub use mathlib.Core.Bool.{Bool, true, false, not, ◌&&◌, ◌||◌}
pub use mathlib.Core.Option.{Option, none, some}
pub use mathlib.Core.List.{List, [], ◌∷◌, ◌++◌, map, Memᴰ, append-nil, append_assoc, map-append}
pub use native.Mathlib.Omega.{arith}
