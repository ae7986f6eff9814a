-- ===== src/Prelude/Integers.antt =====
-- Arithmetic on signed integers, by way of their positive and negative parts.
use Prim.Native.Nat.{ℕ, suc, ◌+◌, ◌-◌, ◌*◌, ◌/◌, ◌%◌, ◌≤◌}
use mathlib.Core.Path.{◌≡◌}
use mathlib.Core.Bool.{Bool}
use native.Mathlib.Omega.{arith}
use forge_key.Prelude.Tests.{ltb, leb, if◌then◌else◌}
use forge_key.Prelude.Words.{ℤ, pos, negsuc}

abbrev pub pos_part : ℤ → ℕ
pos_part (pos n) = n
pos_part (negsuc n) = 0

abbrev pub neg_part : ℤ → ℕ
neg_part (pos n) = 0
neg_part (negsuc n) = suc n

-- a - b, as an integer.
abbrev pub sub_ℕ : ℕ → ℕ → ℤ
sub_ℕ a b = if leb b a then pos (a - b) else negsuc (b - a - 1)

infixl 65 ◌+ℤ◌
unfoldable pub ◌+ℤ◌ : ℤ → ℤ → ℤ
a +ℤ b = sub_ℕ (pos_part a + pos_part b) (neg_part a + neg_part b)

infix 50 ◌≤ℤ◌
abbrev pub ◌≤ℤ◌ : ℤ → ℤ → Type 0
a ≤ℤ b = pos_part a + neg_part b ≤ pos_part b + neg_part a

abbrev pub ltb_ℤ : ℤ → ℤ → Bool
ltb_ℤ a b = ltb (pos_part a + neg_part b) (pos_part b + neg_part a)

-- a / b for a positive b, which C rounds towards zero.
abbrev pub quotient : ℤ → ℕ → ℤ
quotient a b = sub_ℕ (pos_part a / b) (neg_part a / b)

-- The conversion of an int to int8_t.
abbrev pub i8 : ℤ → ℤ
i8 a =
    let byte = (pos_part a + 255 * neg_part a) % 256 in
    if ltb byte 128 then pos byte else negsuc (255 - byte)

pub i8_small : (a : ℤ) → negsuc 127 ≤ℤ a → a ≤ℤ pos 127 → i8 a ≡ a
i8_small (pos n) low high = ground arith
i8_small (negsuc n) low high = ground arith
