-- ===== src/Common/Int.antt =====
-- Signed integers over the native numbers, under the library's names. An `int64` is such an
-- integer in range; where the code adds two of them, the wrap-around is written out.
use Prim.Native.Nat.{ℕ, ◌-◌, ◌%◌, ◌^◌, ◌<◌}
use mathlib.Core.Bool.{Bool, true, false}
use ade_ctld.Common.Tests.{if◌then◌else◌, ltb}

-- `negsuc n` is -(n + 1).
pub data ℤ : Type 0 where
  pos : ℕ → ℤ
  negsuc : ℕ → ℤ

abbrev pub is_negative : ℤ → Bool
is_negative (pos n) = false
is_negative (negsuc n) = true

-- 2^63 and 2^64
abbrev pub int64_limit : ℕ
int64_limit = 2 ^ 63

abbrev pub uint64_modulus : ℕ
uint64_modulus = 2 ^ 64

-- The `int64` whose bits are the low 64 bits of `n`.
abbrev pub wrap_int64 : ℕ → ℤ
wrap_int64 n =
    let low = n % uint64_modulus in
    if ltb low int64_limit then pos low else negsuc (uint64_modulus - low - 1)

abbrev pub IsInt64 : ℤ → Type 0
IsInt64 (pos n) = n < int64_limit
IsInt64 (negsuc n) = n < int64_limit
