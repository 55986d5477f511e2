-- ===== src/Prelude/Words.antt =====
-- Rust's u64: a natural number below 2^64, with the checked and saturating operations.
use Prim.Native.Nat.{ℕ, ◌+◌, ◌-◌, ◌%◌, ◌≤◌}
use mathlib.Core.Option.{Option, none, some}
use trilogicon_core.Prelude.Tests.{leb, if◌then◌else◌}

-- `u64::MAX`
abbrev pub u64_max : ℕ
u64_max = 18446744073709551615

abbrev pub IsU64 : ℕ → Type 0
IsU64 n = n ≤ u64_max

abbrev pub checked_add : ℕ → ℕ → Option ℕ
checked_add a b = if leb (a + b) u64_max then some (a + b) else none

abbrev pub checked_sub : ℕ → ℕ → Option ℕ
checked_sub a b = if leb b a then some (a - b) else none

abbrev pub saturating_add : ℕ → ℕ → ℕ
saturating_add a b = if leb (a + b) u64_max then a + b else u64_max

-- `a + b` in a release build.
abbrev pub wrapping_add : ℕ → ℕ → ℕ
wrapping_add a b = (a + b) % 18446744073709551616
