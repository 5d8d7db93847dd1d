-- ===== src/Prelude.antt =====
-- The names that the modules share: the libraries' and those of the children.
mod Tests
mod Lists
mod Text
mod Maps
mod Clock
mod Int
mod Format
mod Errors
unfoldable pub use Tests.*
pub use Lists.*
unfoldable pub use Maps.*
pub use Clock.*
pub use Int.*
unfoldable pub use Format.*
pub use Errors.*
unfoldable pub use Text.{str_eq, contains, pad_left, pad_right}
pub use Text.{str_eq→eq, str_eq_refl, str_eq_sym, str_ne, ne_of_str_eq, longer_text}
pub use Prim.Native.Nat.{ℕ, zero, suc, ◌+◌, ◌-◌, ◌*◌, ◌/◌, ◌%◌, ◌≤◌, ◌<◌}
pub use Prim.Native.String.{String, ◌++◌ as ◌<>◌}
pub use mathlib.Core.Path.{◌≡◌, refl, sym, ap, subst, ◌∙◌}
pub use mathlib.Core.Logic.{◌≢◌, ◌↔◌, ◌⊎◌, inl, inr}
pub use mathlib.Core.Bool.{Bool, true, false, not, ◌&&◌, ◌||◌}
pub use mathlib.Core.Option.{Option, none, some}
pub use mathlib.Core.List.{List, [], ◌∷◌, ◌++◌, map}
pub use native.Mathlib.Omega.{arith}
