-- ===== src/Flags/Conditions.antt =====
-- The conditions of `flags.h` say of the flag bits what the comments beside them say.
use atua_computer.Base.{
  ℕ, ◌+◌, ◌-◌, ◌*◌, ◌/◌, ◌%◌, ◌^◌, ◌<◌, ◌≡◌, ◌≢◌, ◌↔◌, ◌⊎◌, arith, bit, true, bit_and, bit_or,
  bit_xor, is_negative8, not32,
}
use atua_computer.Bits.{bit-bit_and, bit-bit_or, bit-bit_xor, bit_xor-lt, bit_and_mask}
use atua_computer.Machine.{Machine}
use atua_computer.Flags.{
  is_below_or_equal, is_above, is_less, is_greater_or_equal, is_less_or_equal, is_greater,
}

is_negative8_iff : (x : ℕ) → (is_negative8 x ≡ true) ↔ (bit 7 x ≡ 1)
is_negative8_iff x = ground arith

bit-not32 : (x : ℕ) → x < 2 ^ 32 → bit 7 (not32 x) ≡ 1 - bit 7 x
bit-not32 x h = omega arith

sign_differs : (f : ℕ) → bit 7 (bit_xor f (f / 2 ^ 4)) ≡ (bit 7 f + bit 11 f) % 2
sign_differs f = omega (arith, bit-bit_xor 7 f (f / 2 ^ 4))

zero_flag : (f : ℕ) → bit 7 (f * 2 ^ 1 % 2 ^ 32) ≡ bit 6 f
zero_flag f = omega arith

-- What `x` and the flags shifted into place say of each other, for the six comparisons.
module _ (m : Machine) (fits : m.flags < 2 ^ 32) where
  abbrev signs : ℕ
  signs = bit_xor m.flags (m.flags / 2 ^ 4)

  abbrev shifted : ℕ
  shifted = m.flags * 2 ^ 1 % 2 ^ 32

  signs_fit : signs < 2 ^ 32
  signs_fit = bit_xor-lt 32 m.flags (m.flags / 2 ^ 4) fits (omega arith)

  pub is_less_iff : (is_less m ≡ true) ↔ (bit 7 m.flags ≢ bit 11 m.flags)
  unfolding is_less
  is_less_iff = grind (arith, is_negative8_iff signs, sign_differs m.flags)

  pub is_greater_or_equal_iff : (is_greater_or_equal m ≡ true) ↔ (bit 7 m.flags ≡ bit 11 m.flags)
  unfolding is_greater_or_equal
  is_greater_or_equal_iff =
      grind (arith, is_negative8_iff (not32 signs), bit-not32 signs signs_fit, sign_differs m.flags)

  pub is_less_or_equal_iff :
      (is_less_or_equal m ≡ true) ↔ ((bit 6 m.flags ≡ 1) ⊎ (bit 7 m.flags ≢ bit 11 m.flags))
  unfolding is_less_or_equal
  is_less_or_equal_iff = grind (
    arith,
    is_negative8_iff (bit_or signs shifted),
    bit-bit_or 7 signs shifted,
    sign_differs m.flags,
    zero_flag m.flags,
  )

  pub is_greater_iff :
      (is_greater m ≡ true) ↔ ((bit 6 m.flags ≡ 0) × (bit 7 m.flags ≡ bit 11 m.flags))
  unfolding is_greater
  is_greater_iff = grind (
    arith,
    is_negative8_iff (bit_and (not32 signs) (not32 shifted)),
    bit-bit_and 7 (not32 signs) (not32 shifted),
    bit-not32 signs signs_fit,
    bit-not32 shifted (omega arith),
    sign_differs m.flags,
    zero_flag m.flags,
  )

  pub is_below_or_equal_iff :
      (is_below_or_equal m ≡ true) ↔ ((bit 0 m.flags ≡ 1) ⊎ (bit 6 m.flags ≡ 1))
  unfolding is_below_or_equal
  is_below_or_equal_iff = grind (
    arith,
    bit_and_mask 1 (bit_or (m.flags / 2 ^ 6) m.flags),
    bit-bit_or 0 (m.flags / 2 ^ 6) m.flags,
  )

  pub is_above_iff : (is_above m ≡ true) ↔ ((bit 0 m.flags ≡ 0) × (bit 6 m.flags ≡ 0))
  unfolding is_above
  is_above_iff = grind (
    arith,
    bit_and_mask 1 (bit_and (not32 m.flags / 2 ^ 6) (not32 m.flags)),
    bit-bit_and 0 (not32 m.flags / 2 ^ 6) (not32 m.flags),
  )
