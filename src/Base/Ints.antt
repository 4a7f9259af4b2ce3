-- ===== src/Base/Ints.antt =====
-- Signed integers over the native numbers: the values of `embedjson_int_t` and of `int`.
use Prim.Native.Nat.{ℕ, zero, suc, ◌-◌}
use embedjson.Base.Tests.{leb, if◌then◌else◌}

-- `negsuc n` is -(n + 1).
pub data ℤ : Type 0 where
  pos : ℕ → ℤ
  negsuc : ℕ → ℤ

-- a - b, as an integer.
abbrev pub sub_ℕ : ℕ → ℕ → ℤ
sub_ℕ a b = if leb b a then pos (a - b) else negsuc (b - a - 1)

-- `0 - n` for a value that is not negative
abbrev pub negated : ℕ → ℤ
negated zero = pos 0
negated (suc n) = negsuc n
