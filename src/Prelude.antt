-- ===== src/Prelude.antt =====
-- The names that the other modules share: the libraries', passed on, and those of the children
-- (Boolean tests, lists, text as code points, sorting).
mod Tests
mod Lists
mod Codes
mod Sort
mod Canonical
mod Int
pub mod Results
pub mod Columns
pub use Tests.*
pub use Lists.*
unfoldable pub use Codes.{text_eq, text_lt, join_with}
pub use Codes.*
pub use Int.*
unfoldable pub use Sort.{insert_by, sort_by}
pub use Sort.{Sorted, sort_by-perm, sort_by-Sorted, All-sort_by, all-sort_by}
pub use Prim.Native.Nat.{ℕ, zero, suc, ◌+◌, ◌-◌, ◌*◌, ◌/◌, ◌%◌, ◌≤◌, ◌<◌}
pub use mathlib.Core.Path.{◌≡◌, refl, sym, ap, ◌∙◌}
pub use mathlib.Core.Logic.{◌≢◌, ◌↔◌, ◌⊎◌, inl, inr}
pub use mathlib.Core.Bool.{Bool, true, false, not, ◌&&◌, ◌||◌}
pub use mathlib.Core.Option.{Option, none, some}
pub use mathlib.Core.List.{List, [], ◌∷◌, ◌++◌, map, append-nil, append_assoc}
pub use native.Mathlib.Omega.{arith}
pub use Canonical.{sort_by-same}
