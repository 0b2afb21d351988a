-- ===== src/Base/Words.antt =====
-- The machine arithmetic of the program. A `u64` or `u128` is a native number; `+=` wraps, as in a
-- release build, and the saturating and checked forms are the standard library's.
use Prim.Native.Nat.{ℕ, ◌+◌, ◌-◌, ◌*◌, ◌%◌, ◌^◌, ◌≤◌, ◌<◌, min}
use mathlib.Core.Path.{◌≡◌}
use mathlib.Core.Option.{Option, none, some}
use native.Mathlib.Omega.{arith}
use lootcoin.Base.Tests.{ltb, if◌then◌else◌}

abbrev pub u64_mod : ℕ
u64_mod = 2 ^ 64

abbrev pub u128_mod : ℕ
u128_mod = 2 ^ 128

unfoldable pub add64 : ℕ → ℕ → ℕ
add64 a b = (a + b) % u64_mod

unfoldable pub sub64 : ℕ → ℕ → ℕ
sub64 a b = (a + (u64_mod - b % u64_mod)) % u64_mod

unfoldable pub mul64 : ℕ → ℕ → ℕ
mul64 a b = (a * b) % u64_mod

unfoldable pub saturating_add64 : ℕ → ℕ → ℕ
saturating_add64 a b = min (a + b) (u64_mod - 1)

unfoldable pub checked_add64 : ℕ → ℕ → Option ℕ
checked_add64 a b = if ltb (a + b) u64_mod then some (a + b) else none

unfoldable pub saturating_add128 : ℕ → ℕ → ℕ
saturating_add128 a b = min (a + b) (u128_mod - 1)

pub add64_lem : (a b : ℕ) → a + b < u64_mod → add64 a b ≡ a + b
unfolding add64
add64_lem a b h = omega arith

pub saturating_add64_lem : (a b : ℕ) → a + b < u64_mod → saturating_add64 a b ≡ a + b
unfolding saturating_add64
saturating_add64_lem a b h = omega arith

pub checked_add64_lem : (a b t : ℕ) → checked_add64 a b ≡ some t → t ≡ a + b
unfolding checked_add64
checked_add64_lem a b t h = ground arith

pub saturating_add64-le : (a b : ℕ) → saturating_add64 a b ≤ a + b
unfolding saturating_add64
saturating_add64-le a b = omega arith

pub saturating_add128-le : (a b : ℕ) → saturating_add128 a b ≤ a + b
unfolding saturating_add128
saturating_add128-le a b = omega arith
