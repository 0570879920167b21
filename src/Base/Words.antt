-- ===== src/Base/Words.antt =====
-- Machine words: the wrap-around of the C types, and bit fields of a word.
use Prim.Native.Nat.{ℕ, ◌/◌, ◌%◌, ◌^◌}
use mathlib.Core.Bool.{Bool}
use woa_rk.Base.Tests.{◌==◌}

-- A conversion to `UINT16`, `UINT32`, `UINT64`.
abbrev pub u16 : ℕ → ℕ
u16 n = n % 65536

abbrev pub u32 : ℕ → ℕ
u32 n = n % 4294967296

abbrev pub u64 : ℕ → ℕ
u64 n = n % 18446744073709551616

-- The bit field of `w` bits from bit `lo` on, and the one-bit field at bit `k`.
abbrev pub field : ℕ → ℕ → ℕ → ℕ
field x lo w = x / 2 ^ lo % 2 ^ w

abbrev pub flag : ℕ → ℕ → Bool
flag x k = x / 2 ^ k % 2 == 1
