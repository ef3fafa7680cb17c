-- ===== src/Base/Int.antt =====
-- Signed integers over the native numbers: Go's `int`, `int32` and `int64` values.
use Prim.Native.Nat.{ℕ, suc, ◌+◌}
use Prim.Native.Nat.{◌-◌, ◌%◌, ◌^◌}
use mathlib.Core.Path.{◌≡◌}
use mathlib.Core.Logic.{◌↔◌}
use mathlib.Core.Bool.{Bool, true, false}
use native.Mathlib.Omega.{arith}
use wenjuandiaocha_backend.Base.Tests.{ltb, ◌==◌, if◌then◌else◌}

-- `negsuc n` is -(n + 1).
pub data ℤ : Type 0 where
  pos : ℕ → ℤ
  negsuc : ℕ → ℤ

abbrev pub pos_part : ℤ → ℕ
pos_part (pos n) = n
pos_part (negsuc n) = 0

abbrev pub neg_part : ℤ → ℕ
neg_part (pos n) = 0
neg_part (negsuc n) = suc n

abbrev pub ltb_ℤ : ℤ → ℤ → Bool
ltb_ℤ a b = ltb (pos_part a + neg_part b) (pos_part b + neg_part a)

abbrev pub eq_ℤ : ℤ → ℤ → Bool
eq_ℤ (pos a) (pos b) = a == b
eq_ℤ (negsuc a) (negsuc b) = a == b
eq_ℤ _ _ = false

pub eq_ℤ_iff : (a b : ℤ) → (eq_ℤ a b ≡ true) ↔ (a ≡ b)
eq_ℤ_iff a b = ground arith

-- The wrap-around of a signed integer of `w` bits: the value of an unsigned bit pattern.
abbrev pub signed : ℕ → ℕ → ℤ
signed w n = if ltb n (2 ^ (w - 1)) then pos n else negsuc (2 ^ w - 1 - n)

-- int32(v) and int64(v) of a value that is not negative.
abbrev pub int32 : ℕ → ℤ
int32 n = signed 32 (n % 2 ^ 32)

abbrev pub int64 : ℕ → ℤ
int64 n = signed 64 (n % 2 ^ 64)

-- int32(v) of any value.
abbrev pub int32_of : ℤ → ℤ
int32_of (pos n) = int32 n
int32_of (negsuc n) = signed 32 (2 ^ 32 - 1 - n % 2 ^ 32)
