-- ===== src/Prelude.antt =====
-- The names that the other modules share: the libraries', passed on, and Python's containers.
mod Tests
mod Lists
mod Errors
mod Sets
mod Dicts
mod Sort
mod Texts
mod Keep
mod Int
mod Sorted
pub use Tests.*
pub use Lists.*
pub use Errors.*
pub use Sets.*
pub use Dicts.*
pub use Sort.*
pub use Texts.*
pub use Keep.*
pub use Int.*
pub use Sorted.*
unfoldable pub use Lists.{flat_map}
unfoldable pub use Errors.{traverse}
unfoldable pub use Sets.{set_add, set_update}
unfoldable pub use Texts.{before_slash, after_slash, removeprefix}
unfoldable pub use Sort.{place, sort}
unfoldable pub use Dicts.{lookup, insert, index}
pub use Prim.Native.Nat.{ℕ, zero, suc, ◌+◌, ◌-◌, ◌*◌, ◌/◌, ◌%◌, ◌^◌, ◌≤◌, ◌<◌}
pub use Prim.Native.String.{String}
pub use mathlib.Core.Path.{◌≡◌, refl, sym, ap, ◌∙◌, subst}
pub use mathlib.Core.Logic.{◌≢◌, ◌↔◌, ◌⊎◌, inl, inr, ⊎_elim}
pub use mathlib.Core.Bool.{Bool, true, false, ◌&&◌, ◌||◌, not, false≢true}
pub use mathlib.Core.Option.{Option, none, some}
pub use mathlib.Core.List.{List, [], ◌∷◌, ◌++◌, map, foldl, append-nil, append_assoc}
pub use native.Mathlib.Omega.{arith}
pub use Prim.Native.Nat.{Ordering}
pub use Prim.Native.String.{◌++◌ as str_append}
pub use text.Mathlib.Text.{◌==◌, is_le, starts_with}
pub use text.Mathlib.TextEquality.{eq_iff}
pub use text.Mathlib.TextPositions.{eq_refl, starts_with-append}
