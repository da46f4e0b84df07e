-- ===== src/Base/Int.antt =====
-- Signed integers over the native numbers, and the value of a word in two's complement.
use Prim.Native.Nat.{ℕ, ◌*◌, suc, ◌+◌, ◌-◌, ◌≤◌, ◌^◌, ◌/◌, ◌%◌}
use atua_computer.Base.Tests.{ltb, leb, if◌then◌else◌}
use atua_computer.Base.Word.{Width, size, sign_bit}

-- `negsuc n` is -(n + 1).
pub data ℤ : Type 0 where
  pos : ℕ → ℤ
  negsuc : ℕ → ℤ

abbrev pub pos_part : ℤ → ℕ
pos_part (pos n) = n
pos_part (negsuc n) = 0

abbrev pub neg_part : ℤ → ℕ
neg_part (pos n) = 0
neg_part (negsuc n) = suc n

-- a - b, as an integer.
abbrev pub sub_ℕ : ℕ → ℕ → ℤ
sub_ℕ a b = if leb b a then pos (a - b) else negsuc (b - a - 1)

infixl 65 ◌+ℤ◌ ◌-ℤ◌
infix 50 ◌<ℤ◌
unfoldable pub ◌+ℤ◌ : ℤ → ℤ → ℤ
a +ℤ b = sub_ℕ (pos_part a + pos_part b) (neg_part a + neg_part b)

unfoldable pub ◌-ℤ◌ : ℤ → ℤ → ℤ
a -ℤ b = sub_ℕ (pos_part a + neg_part b) (neg_part a + pos_part b)

infixl 70 ◌*ℤ◌
unfoldable pub ◌*ℤ◌ : ℤ → ℤ → ℤ
a *ℤ b =
    sub_ℕ (pos_part a * pos_part b + neg_part a * neg_part b)
      (pos_part a * neg_part b + neg_part a * pos_part b)

abbrev pub ◌<ℤ◌ : ℤ → ℤ → Type 0
a <ℤ b = suc (pos_part a + neg_part b) ≤ pos_part b + neg_part a

-- The value of a `w`-bit word read as a signed integer.
unfoldable pub signed : Width → ℕ → ℤ
signed w x = if ltb x (2 ^ sign_bit w) then pos x else negsuc (size w - 1 - x)

-- `v >> k` on integers: division by `2 ^ k`, rounded down.
abbrev pub floor_shift : ℤ → ℕ → ℤ
floor_shift (pos n) k = pos (n / 2 ^ k)
floor_shift (negsuc n) k = negsuc (n / 2 ^ k)

-- The lowest bit of an integer.
abbrev pub odd : ℤ → ℕ
odd (pos n) = n % 2
odd (negsuc n) = 1 - n % 2
