-- ===== src/Alu/Shift/Laws.antt =====
-- What the shifts compute and where the last bit that leaves the word goes.
use atua_computer.Base.{
  ◌==◌, false, sym, ℕ, suc, ◌+◌, ◌-◌, ◌*◌, ◌/◌, ◌%◌, ◌^◌, ◌<◌, ◌≡◌, ◌∙◌, arith, Width, w8, w16, w32,
  w64, size, sign_bit, cast, bit, bit_and, bit_xor,
}
use native.Mathlib.Nat.{div-div-eq-div-mul, div-le_self, pow-suc}
use atua_computer.Bits.{bit_xor-zero, bit_and_mask, bit_xor-div, div-two-pow-suc}
use atua_computer.Machine.{Machine}
use atua_computer.Alu.Shift.{shr_at, count_mask, carrier}
use atua_computer.Alu.Arith.Carries.{cast-lt}
use atua_computer.Alu.Arith.Described.{Leaves, at-Leaves}

-- The count that a shift goes by.
abbrev pub count : Width → ℕ → ℕ
count w y = y % (count_mask w + 1)

pub count_lem : (w : Width) (y : ℕ) → bit_and y (count_mask w) ≡ count w y
count_lem w8 y = bit_and_mask 5 y
count_lem w16 y = bit_and_mask 5 y
count_lem w32 y = bit_and_mask 5 y
count_lem w64 y = bit_and_mask 6 y

half_fits : (w : Width) (x j : ℕ) → x < size w → x / 2 ^ suc j < 2 ^ sign_bit w
half_fits w8 x j h = omega (arith, div-two-pow-suc x j, div-le_self (x / 2) (2 ^ j))
half_fits w16 x j h = omega (arith, div-two-pow-suc x j, div-le_self (x / 2) (2 ^ j))
half_fits w32 x j h = omega (arith, div-two-pow-suc x j, div-le_self (x / 2) (2 ^ j))
half_fits w64 x j h = omega (arith, div-two-pow-suc x j, div-le_self (x / 2) (2 ^ j))

div-two-pow-suc' : (x j : ℕ) → x / 2 ^ suc j ≡ x / 2 ^ j / 2
div-two-pow-suc' x j = rw (pow-suc 2 j) (sym (div-div-eq-div-mul x (2 ^ j) 2))

pub suc-ne-zero : (j : ℕ) → (suc j == 0) ≡ false
suc-ne-zero j = ground arith

pub suc-sub-one : (j : ℕ) → suc j - 1 ≡ j
suc-sub-one j = omega arith

-- A digitwise difference from something below place `s` is not seen at `s`.
xor_low : (s a z : ℕ) → z / 2 ^ s ≡ 0 → bit_xor a z / 2 ^ s ≡ a / 2 ^ s
xor_low s a z h = bit_xor-div s a z ∙ rw h (bit_xor-zero (a / 2 ^ s))

-- The overflow of a right shift: the sign before its last step.
shr_sign :
    (w : Width) (v : ℕ)
    → v < size w
    → bit_xor (cast (carrier w) (v / 2 * 2 ^ 1)) (v / 2) / 2 ^ sign_bit w ≡ bit (sign_bit w) v
shr_sign w8 v h = xor_low 7 _ (v / 2) (omega arith) ∙ omega arith
shr_sign w16 v h = xor_low 15 _ (v / 2) (omega arith) ∙ omega arith
shr_sign w32 v h = xor_low 31 _ (v / 2) (omega arith) ∙ omega arith
shr_sign w64 v h = xor_low 63 _ (v / 2) (omega arith) ∙ omega arith

module _ (w : Width) (m : Machine) (x64 y64 j : ℕ) (e : bit_and y64 (count_mask w) ≡ suc j) where
  abbrev x : ℕ
  x = cast w x64

  div-lt : (k : ℕ) → x / 2 ^ k < size w
  div-lt k = omega (arith, div-le_self x (2 ^ k), cast-lt w x64)

  pub shr-Leaves :
      Leaves w m (shr_at w m x64 y64) (x / 2 ^ suc j) 0 (bit (sign_bit w) (x / 2 ^ j)) (bit j x)
  unfolding shr_at
  shr-Leaves =
      rw
        (
          e,
          suc-ne-zero j,
          suc-sub-one j,
          div-two-pow-suc' x j,
          shr_sign w (x / 2 ^ j) (div-lt j),
          bit_and_mask 1 (x / 2 ^ j),
        )
        (at-Leaves w m (x / 2 ^ j / 2) 0 _ _ (omega (arith, div-lt j)) (omega arith) (omega arith)
          (omega arith))
