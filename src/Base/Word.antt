-- ===== src/Base/Word.antt =====
-- Words of C as native numbers: the four operand sizes, shifts, and `bool` as a number.
use Prim.Native.Nat.{ℕ, ◌-◌, ◌*◌, ◌/◌, ◌%◌, ◌^◌, compare, Ordering, bit_and, bit_or, bit_xor}
use mathlib.Core.Bool.{Bool, true, false}

-- The operand sizes of an instruction, in the order of the columns of `kAlu`.
pub data Width : Type 0 where
  w8 w16 w32 w64 : Width

abbrev pub bits : Width → ℕ
bits w8 = 8
bits w16 = 16
bits w32 = 32
bits w64 = 64

-- The bits of a word without its sign bit.
abbrev pub sign_bit : Width → ℕ
sign_bit w8 = 7
sign_bit w16 = 15
sign_bit w32 = 31
sign_bit w64 = 63

abbrev pub size : Width → ℕ
size w = 2 ^ bits w

-- A cast to a `w`-bit unsigned integer.
abbrev pub cast : Width → ℕ → ℕ
cast w n = n % size w

infixl 75 ◌<<<◌ ◌>>>◌
abbrev pub ◌<<<◌ : ℕ → ℕ → ℕ
x <<< k = x * 2 ^ k

abbrev pub ◌>>>◌ : ℕ → ℕ → ℕ
x >>> k = x / 2 ^ k

infixl 60 ◌&&&◌
infixl 58 ◌^^^◌
infixl 55 ◌|||◌
abbrev pub ◌&&&◌ : ℕ → ℕ → ℕ
x &&& y = bit_and x y

abbrev pub ◌^^^◌ : ℕ → ℕ → ℕ
x ^^^ y = bit_xor x y

abbrev pub ◌|||◌ : ℕ → ℕ → ℕ
x ||| y = bit_or x y

-- `~x` on 32 and on 64 bits.
abbrev pub not32 : ℕ → ℕ
not32 x = 0xffff_ffff - x

abbrev pub not64 : ℕ → ℕ
not64 x = 0xffff_ffff_ffff_ffff - x

-- `(int8_t)x < 0`
abbrev pub is_negative8 : ℕ → Bool
is_negative8 x = elim (compare (x % 256) 128) [ Ordering.lt ↦ false | _ ↦ true ]

-- A C `bool` where a number is expected.
abbrev pub to_u : Bool → ℕ
to_u true = 1
to_u false = 0

-- `!!n`, the conversion of a number to `bool`.
abbrev pub truth : ℕ → ℕ
truth n = elim (compare n 0) [ Ordering.eq ↦ 0 | _ ↦ 1 ]

-- `!n`
abbrev pub falsity : ℕ → ℕ
falsity n = elim (compare n 0) [ Ordering.eq ↦ 1 | _ ↦ 0 ]

-- Bit `k` of a word.
abbrev pub bit : ℕ → ℕ → ℕ
bit k x = x / 2 ^ k % 2
