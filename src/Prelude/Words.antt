-- ===== src/Prelude/Words.antt =====
-- Machine words: the saturating and checked operations of u32, u64 and u128.
use Prim.Native.Nat.{ℕ, ◌+◌, ◌-◌, ◌*◌, ◌^◌, min}
use mathlib.Core.Option.{Option, none, some}
use tla_contracts.Prelude.Tests.{leb, if◌then◌else◌}

abbrev pub u32_max : ℕ
u32_max = 2 ^ 32 - 1

abbrev pub u64_max : ℕ
u64_max = 2 ^ 64 - 1

abbrev pub u128_max : ℕ
u128_max = 2 ^ 128 - 1

-- `a.saturating_add(b)` at the width whose largest value is `top`
abbrev pub sat_add : ℕ → ℕ → ℕ → ℕ
sat_add top a b = min (a + b) top

abbrev pub sat_mul : ℕ → ℕ → ℕ → ℕ
sat_mul top a b = min (a * b) top

abbrev pub checked_add : ℕ → ℕ → ℕ → Option ℕ
checked_add top a b = if leb (a + b) top then some (a + b) else none

abbrev pub checked_mul : ℕ → ℕ → ℕ → Option ℕ
checked_mul top a b = if leb (a * b) top then some (a * b) else none
