-- ===== src/Base/Int.antt =====
-- Signed integers over the native numbers, under the library's names, and Go's `int64`: an integer
-- whose sums are brought back into the 64-bit range by wrap-around.
use Prim.Native.Nat.{ℕ, suc, ◌+◌, ◌-◌, ◌*◌, ◌/◌, ◌%◌, ◌≤◌, ◌<◌}
use mathlib.Core.Path.{◌≡◌}
use mathlib.Core.Logic.{◌↔◌}
use mathlib.Core.Bool.{Bool, true}
use native.Mathlib.Omega.{arith}
use v_llm_orchestrator.Base.Tests.{ltb, leb, ◌==◌, if◌then◌else◌}

-- `negsuc n` is -(n + 1).
pub data ℤ : Type 0 where
  pos : ℕ → ℤ
  negsuc : ℕ → ℤ

abbrev pub pos_part : ℤ → ℕ
pos_part (pos n) = n
pos_part (negsuc n) = 0

abbrev pub neg_part : ℤ → ℕ
neg_part (pos n) = 0
neg_part (negsuc n) = suc n

-- a - b, as an integer.
abbrev pub sub_ℕ : ℕ → ℕ → ℤ
sub_ℕ a b = if leb b a then pos (a - b) else negsuc (b - a - 1)

infixl 65 ◌+ℤ◌ ◌-ℤ◌
infix 50 ◌≤ℤ◌ ◌<ℤ◌
unfoldable pub ◌+ℤ◌ : ℤ → ℤ → ℤ
a +ℤ b = sub_ℕ (pos_part a + pos_part b) (neg_part a + neg_part b)

unfoldable pub ◌-ℤ◌ : ℤ → ℤ → ℤ
a -ℤ b = sub_ℕ (pos_part a + neg_part b) (neg_part a + pos_part b)

abbrev pub ◌≤ℤ◌ : ℤ → ℤ → Type 0
a ≤ℤ b = pos_part a + neg_part b ≤ pos_part b + neg_part a

abbrev pub ◌<ℤ◌ : ℤ → ℤ → Type 0
a <ℤ b = pos_part a + neg_part b < pos_part b + neg_part a

abbrev pub ltb_ℤ : ℤ → ℤ → Bool
ltb_ℤ a b = ltb (pos_part a + neg_part b) (pos_part b + neg_part a)

abbrev pub leb_ℤ : ℤ → ℤ → Bool
leb_ℤ a b = leb (pos_part a + neg_part b) (pos_part b + neg_part a)

abbrev pub eqb_ℤ : ℤ → ℤ → Bool
eqb_ℤ a b = (pos_part a + neg_part b) == (pos_part b + neg_part a)

pub eqb_ℤ_iff : (a b : ℤ) → (eqb_ℤ a b ≡ true) ↔ (a ≡ b)
eqb_ℤ_iff a b = ground arith

-- The value of a 64-bit pattern with the weight of its sign bit.
abbrev signed_64 : ℕ → ℤ
signed_64 r = if ltb r 0x8000000000000000 then pos r else negsuc (0xffffffffffffffff - r)

-- An integer brought into the range of `int64`.
unfoldable pub to_i64 : ℤ → ℤ
to_i64 (pos n) = signed_64 (n % 0x10000000000000000)
to_i64 (negsuc n) = signed_64 (0xffffffffffffffff - n % 0x10000000000000000)

-- The range of `int64`.
abbrev pub InRange : ℤ → Type 0
InRange a = (pos_part a < 0x8000000000000000) × (neg_part a ≤ 0x8000000000000000)

unfoldable pub add_i64 : ℤ → ℤ → ℤ
unfolding ◌+ℤ◌
add_i64 a b = to_i64 (a +ℤ b)

unfoldable pub sub_i64 : ℤ → ℤ → ℤ
unfolding ◌-ℤ◌
sub_i64 a b = to_i64 (a -ℤ b)

-- Go's product and quotient of `int64`; the quotient, by a positive number, rounds towards zero.
unfoldable pub mul_i64 : ℤ → ℤ → ℤ
mul_i64 a b = to_i64 (
    sub_ℕ (pos_part a * pos_part b + neg_part a * neg_part b)
      (pos_part a * neg_part b + neg_part a * pos_part b))

unfoldable pub div_i64 : ℤ → ℕ → ℤ
div_i64 (pos n) d = pos (n / d)
div_i64 (negsuc n) d = sub_ℕ 0 (suc n / d)

to_i64-InRange : (a : ℤ) → InRange (to_i64 a)
unfolding to_i64
to_i64-InRange (pos n) = ground arith
to_i64-InRange (negsuc n) = ground arith

pub to_i64_id : (a : ℤ) → InRange a → to_i64 a ≡ a
unfolding to_i64
to_i64_id (pos n) h = ground arith
to_i64_id (negsuc n) h = ground arith

-- Taking back what was added or subtracted restores an `int64`, also across a wrap.
pub add_i64-sub_i64 : (a b : ℤ) → InRange a → InRange b → add_i64 (sub_i64 a b) b ≡ a
unfolding sub_i64 add_i64 to_i64
add_i64-sub_i64 (pos a) (pos b) h k = ground arith
add_i64-sub_i64 (pos a) (negsuc b) h k = ground arith
add_i64-sub_i64 (negsuc a) (pos b) h k = ground arith
add_i64-sub_i64 (negsuc a) (negsuc b) h k = ground arith
