-- ===== src/Prelude/Words.antt =====
-- The machine integers of the program, as native numbers with their limits written out. `usize` is
-- 64 bits wide, so `u64` and `usize` convert to one another unchanged.
use Prim.Native.Nat.{ℕ, ◌+◌, ◌-◌, ◌^◌, ◌≤◌}
use mathlib.Core.Path.{◌≡◌}
use native.Mathlib.Omega.{arith}
use lspctl.Prelude.Tests.{ltb, if◌then◌else◌}

abbrev pub u32_max : ℕ
u32_max = 2 ^ 32 - 1

abbrev pub u64_max : ℕ
u64_max = 2 ^ 64 - 1

abbrev pub i64_max : ℕ
i64_max = 2 ^ 63 - 1

-- `a.saturating_add(b)` at the type whose greatest value is `top`; `saturating_sub` is the `-` of ℕ
unfoldable pub saturating_add : ℕ → ℕ → ℕ → ℕ
saturating_add top a b = if ltb top (a + b) then top else a + b

pub saturating_add_exact : (top a b : ℕ) → a + b ≤ top → saturating_add top a b ≡ a + b
unfolding saturating_add
saturating_add_exact top a b h = ground arith

pub saturating_add-le : (top a b : ℕ) → saturating_add top a b ≤ top
unfolding saturating_add
saturating_add-le top a b = ground arith

pub saturating_add-grows : (top a b : ℕ) → a ≤ top → a ≤ saturating_add top a b
unfolding saturating_add
saturating_add-grows top a b h = ground arith
