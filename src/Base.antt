-- ===== src/Base.antt =====
-- The names that the other modules share: the libraries', passed on, and those of the children.
mod Tests
mod Lists
mod Int
mod Outcome
mod Slices
mod Bytes
mod Files
pub mod Exec
pub mod Result
pub use Tests.*
pub use Lists.*
pub use Outcome.{Error, eof, unexpected_eof, shutdown, out_of_bounds, not_present, capacity}
unfoldable pub use Slices.*
unfoldable pub use Bytes.*
unfoldable pub use Files.*
pub use Outcome.{bad_magic, invalid, failed, Go, ret, panic, ◌>>=◌, is_nil}
pub use Int.{
  ℤ, pos, negsuc, pos_part, neg_part, sub_ℕ, neg_ℕ, ltb_ℤ, IsInt64, non_negative, negative,
}
pub use Int.{int64-uint64, uint64-lt, add64_pos}
unfoldable pub use Int.{◌+ℤ◌, int64, uint64, add64, div_ℤ, mod_ℤ}
pub use Prim.Native.Nat.{ℕ, zero, suc, ◌+◌, ◌-◌, ◌*◌, ◌/◌, ◌%◌, ◌^◌, ◌≤◌, ◌<◌, min}
pub use mathlib.Core.Path.{◌≡◌, refl, sym, ap, ap₂, ◌∙◌}
pub use mathlib.Core.Logic.{◌≢◌, ◌↔◌, ◌⊎◌, inl, inr}
pub use mathlib.Core.Bool.{Bool, true, false, not, ◌&&◌, ◌||◌}
pub use mathlib.Core.Option.{Option, none, some}
pub use mathlib.Core.List.{List, [], ◌∷◌, ◌++◌, map, append-nil, append_assoc}
pub use native.Mathlib.Omega.{arith}
unfoldable pub use native.Mathlib.Decide.{dec_lt, dec_le, ℕ_discrete}
