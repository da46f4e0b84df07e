-- ===== src/Alu/Shift/Signed.antt =====
-- `Sar` at every operand size.
use native.Mathlib.Nat.{div-le_self}
use atua_computer.Base.{
  ℕ, suc, ◌-◌, ◌%◌, ◌^◌, ◌<◌, ◌≡◌, arith, Width, w8, w16, w32, w64, size, cast, bit_and, signed,
  floor_shift, odd,
}
use atua_computer.Machine.{Machine}
use atua_computer.Bits.{bit_and_mask}
use atua_computer.Alu.Shift.{sar_at, count_mask, carrier, sign_extend, shift_signed}
use atua_computer.Alu.Shift.Laws.{suc-ne-zero, suc-sub-one}
use atua_computer.Alu.Arith.Carries.{cast-lt}
use atua_computer.Alu.Arith.Described.{Leaves, at-Leaves}

pub sar_value :
    (w : Width) (x k : ℕ)
    → x < size w
    → signed w (cast w (shift_signed (carrier w) (sign_extend w x) k)) ≡ floor_shift (signed w x) k
unfolding signed sign_extend shift_signed
sar_value w8 x k h = ground (arith, div-le_self x (2 ^ k), div-le_self (size w8 - 1 - x) (2 ^ k))
sar_value w16 x k h = ground (arith, div-le_self x (2 ^ k), div-le_self (size w16 - 1 - x) (2 ^ k))
sar_value w32 x k h = ground (arith, div-le_self x (2 ^ k), div-le_self (size w32 - 1 - x) (2 ^ k))
sar_value w64 x k h = ground (arith, div-le_self x (2 ^ k), div-le_self (size w64 - 1 - x) (2 ^ k))

pub sar_carry :
    (w : Width) (x k : ℕ)
    → x < size w
    → shift_signed (carrier w) (sign_extend w x) k % 2 ≡ odd (floor_shift (signed w x) k)
unfolding signed sign_extend shift_signed
sar_carry w8 x k h = ground (arith, div-le_self x (2 ^ k), div-le_self (size w8 - 1 - x) (2 ^ k))
sar_carry w16 x k h = ground (arith, div-le_self x (2 ^ k), div-le_self (size w16 - 1 - x) (2 ^ k))
sar_carry w32 x k h = ground (arith, div-le_self x (2 ^ k), div-le_self (size w32 - 1 - x) (2 ^ k))
sar_carry w64 x k h = ground (arith, div-le_self x (2 ^ k), div-le_self (size w64 - 1 - x) (2 ^ k))

module _ (w : Width) (m : Machine) (x64 y64 j : ℕ) (e : bit_and y64 (count_mask w) ≡ suc j) where
  abbrev x : ℕ
  x = cast w x64

  abbrev z : ℕ
  z = cast w (shift_signed (carrier w) (sign_extend w x) (suc j))

  pub sar-Leaves :
      Leaves w m (sar_at w m x64 y64) z 0 0 (shift_signed (carrier w) (sign_extend w x) j % 2)
  unfolding sar_at
  sar-Leaves =
      rw
        (
          e,
          suc-ne-zero j,
          suc-sub-one j,
          bit_and_mask 1 (shift_signed (carrier w) (sign_extend w x) j),
        )
        (at-Leaves w m z 0 _ _ (cast-lt w _) (omega arith) (omega arith) (omega arith))
