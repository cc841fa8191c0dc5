-- ===== src/Prelude.antt =====
-- The names that the other modules share: the libraries' names and those of the children, passed
-- on. Text is the list of its code points; a numeral is a native number.
pub mod Tests
pub mod Lists
pub mod Distinctness
pub mod Texts
pub mod Split
pub mod Results
pub mod Ints
pub use Tests.*
unfoldable pub use Lists.*
pub use Distinctness.*
unfoldable pub use Texts.*
pub use Split.*
pub use Results.*
unfoldable pub use Ints.*
pub use Prim.Native.Nat.{ℕ, zero, suc, ◌+◌, ◌-◌, ◌*◌, ◌/◌, ◌%◌, ◌^◌, ◌≤◌, ◌<◌, min, max}
pub use Prim.Native.String.{String}
pub use mathlib.Core.Path.{◌≡◌, refl, sym, ap, ◌∙◌, subst, fun_ext}
pub use mathlib.Core.Logic.{◌≢◌, ◌↔◌, ◌⊎◌, inl, inr}
pub use mathlib.Core.Bool.{Bool, true, false, not, ◌&&◌, ◌||◌, false≢true}
pub use mathlib.Core.Option.{Option, none, some}
pub use mathlib.Core.List.{List, [], ◌∷◌, ◌++◌, map, append_assoc, append-nil}
pub use native.Mathlib.Omega.{arith}
