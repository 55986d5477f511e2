-- ===== src/Prelude.antt =====
-- The names that all modules share: the libraries', passed on, and those of the children.
-- Fallible.antt has error results and state passing, Lists.antt lists over the native numbers,
-- Words.antt the checked operations on u64, Maps.antt the hash maps, Bytes.antt byte strings.
mod Tests
mod Fallible
mod Lists
mod Words
mod Bytes
pub mod Maps
pub mod Sorting
unfoldable pub use Tests.*
unfoldable pub use Fallible.*
unfoldable pub use Lists.*
unfoldable pub use Words.*
unfoldable pub use Bytes.*
pub use Prim.Native.Nat.{ℕ, zero, suc, ◌+◌, ◌-◌, ◌*◌, ◌/◌, ◌%◌, ◌^◌, ◌≤◌, ◌<◌}
pub use mathlib.Core.Path.{◌≡◌, refl, sym, ap, subst, ◌∙◌}
pub use mathlib.Core.Logic.{◌≢◌, ◌↔◌, ◌⊎◌, inl, inr, ite, dite, if_pos, if_neg}
pub use mathlib.Core.Bool.{Bool, true, false, ◌&&◌, ◌||◌, not}
pub use mathlib.Core.Option.{Option, none, some}
pub use mathlib.Core.List.{List, [], ◌∷◌, ◌++◌, map, append-nil, append_assoc}
pub use native.Mathlib.Omega.{arith}
unfoldable pub use native.Mathlib.Decide.{dec_lt, dec_le, ℕ_discrete}
