-- ===== src/Prelude/Int.antt =====
-- Signed integers over the native numbers, and the conversions of Go to int64 and int32. A value of
-- a signed Go type is the integer that it stands for; an operation wraps explicitly.
use Prim.Native.Nat.{ℕ, suc, ◌+◌, ◌-◌, ◌*◌, ◌/◌, ◌%◌, ◌^◌, ◌≤◌, ◌<◌}
use mathlib.Core.Path.{◌≡◌}
use mathlib.Core.Logic.{◌↔◌}
use mathlib.Core.Bool.{Bool, true, false}
use native.Mathlib.Omega.{arith}
use spire_controller_manager.Prelude.Tests.{ltb, leb, ◌==◌, if◌then◌else◌}

-- `negsuc n` is -(n + 1).
pub data ℤ : Type 0 where
  pos : ℕ → ℤ
  negsuc : ℕ → ℤ

abbrev pub pos_part : ℤ → ℕ
pos_part (pos n) = n
pos_part (negsuc n) = 0

abbrev pub neg_part : ℤ → ℕ
neg_part (pos n) = 0
neg_part (negsuc n) = suc n

-- a - b, as an integer
abbrev pub sub_ℕ : ℕ → ℕ → ℤ
sub_ℕ a b = if leb b a then pos (a - b) else negsuc (b - a - 1)

infixl 65 ◌-ℤ◌
infix 50 ◌≤ℤ◌
unfoldable pub ◌-ℤ◌ : ℤ → ℤ → ℤ
a -ℤ b = sub_ℕ (pos_part a + neg_part b) (neg_part a + pos_part b)

abbrev pub ◌≤ℤ◌ : ℤ → ℤ → Type 0
a ≤ℤ b = pos_part a + neg_part b ≤ pos_part b + neg_part a

abbrev pub ltb_ℤ : ℤ → ℤ → Bool
ltb_ℤ a b = ltb (pos_part a + neg_part b) (pos_part b + neg_part a)

unfoldable pub eqb_ℤ : ℤ → ℤ → Bool
eqb_ℤ (pos a) (pos b) = a == b
eqb_ℤ (negsuc a) (negsuc b) = a == b
eqb_ℤ _ _ = false

pub eqb_ℤ_iff : (a b : ℤ) → (eqb_ℤ a b ≡ true) ↔ (a ≡ b)
unfolding eqb_ℤ
eqb_ℤ_iff (pos a) (pos b) = ground arith
eqb_ℤ_iff _ _ = ground arith

-- the integer with the w-bit pattern m, where m < 2 * half
abbrev signed : ℕ → ℕ → ℤ
signed half m = if ltb m half then pos m else negsuc (2 * half - m - 1)

-- int64(x): the low 64 bits, read as a signed number
unfoldable pub to_int64 : ℤ → ℤ
to_int64 (pos n) = signed (2 ^ 63) (n % 2 ^ 64)
to_int64 (negsuc n) = signed (2 ^ 63) (2 ^ 64 - 1 - n % 2 ^ 64)

-- int32(x)
unfoldable pub to_int32 : ℤ → ℤ
to_int32 (pos n) = signed (2 ^ 31) (n % 2 ^ 32)
to_int32 (negsuc n) = signed (2 ^ 31) (2 ^ 32 - 1 - n % 2 ^ 32)

-- x / d of Go, for a positive constant d: the quotient is truncated towards zero
unfoldable pub quot : ℤ → ℕ → ℤ
quot (pos n) d = pos (n / d)
quot (negsuc n) d = sub_ℕ 0 (suc n / d)

-- x * d for a positive constant d
unfoldable pub scale : ℤ → ℕ → ℤ
scale (pos n) d = pos (n * d)
scale (negsuc n) d = sub_ℕ 0 (suc n * d)

abbrev pub InInt64 : ℤ → Type 0
InInt64 x = (pos_part x < 2 ^ 63) × (neg_part x ≤ 2 ^ 63)

abbrev pub InInt32 : ℤ → Type 0
InInt32 x = (pos_part x < 2 ^ 31) × (neg_part x ≤ 2 ^ 31)

-- a conversion changes nothing that is in range
pub to_int64_id : (x : ℤ) → InInt64 x → to_int64 x ≡ x
unfolding to_int64
to_int64_id (pos n) h = ground arith
to_int64_id (negsuc n) h = ground arith

pub to_int32_id : (x : ℤ) → InInt32 x → to_int32 x ≡ x
unfolding to_int32
to_int32_id (pos n) h = ground arith
to_int32_id (negsuc n) h = ground arith

-- half of the range: differences of such values do not wrap
abbrev pub IsModerate : ℤ → Type 0
IsModerate x = (pos_part x < 2 ^ 62) × (neg_part x < 2 ^ 62)

pub sub_no_wrap : (x y : ℤ) → IsModerate x → IsModerate y → to_int64 (x -ℤ y) ≡ x -ℤ y
unfolding ◌-ℤ◌
sub_no_wrap x y hx hy = to_int64_id (x -ℤ y) (ground arith)

pub ltb_ℤ-sub : (x y : ℤ) → ltb_ℤ (x -ℤ y) (pos 0) ≡ ltb_ℤ x y
unfolding ◌-ℤ◌
ltb_ℤ-sub x y = ground arith

pub ltb_ℤ-sub_pos : (x y : ℤ) → ltb_ℤ (pos 0) (x -ℤ y) ≡ ltb_ℤ y x
unfolding ◌-ℤ◌
ltb_ℤ-sub_pos x y = ground arith

infixl 65 ◌+ℤ◌
unfoldable pub ◌+ℤ◌ : ℤ → ℤ → ℤ
a +ℤ b = sub_ℕ (pos_part a + pos_part b) (neg_part a + neg_part b)
