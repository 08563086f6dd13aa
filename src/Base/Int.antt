-- ===== src/Base/Int.antt =====
-- Signed file offsets (`int64_t`) over the native numbers.
use Prim.Native.Nat.{ℕ, ◌-◌, ◌^◌}
use ebu_libmxf.Base.Tests.{ltb, if◌then◌else◌}

-- `negsuc n` is -(n + 1).
pub data ℤ : Type 0 where
  pos : ℕ → ℤ
  negsuc : ℕ → ℤ

-- `(int64_t)n` of a uint64_t
abbrev pub to_int64 : ℕ → ℤ
to_int64 n = if ltb n (2 ^ 63) then pos n else negsuc (2 ^ 64 - n - 1)
