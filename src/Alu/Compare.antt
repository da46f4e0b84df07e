-- ===== src/Alu/Compare.antt =====
-- The conditions of `flags.h` after a comparison: `cmp` and then a conditional jump compare the
-- operands, as unsigned and as signed integers.
use atua_computer.Base.{
  iff_trans, iff_symm, or_congr, and_congr, not_congr, ◌^◌, ◌≤◌, true, ◌⊎◌, ◌%◌, ℕ, ◌+◌, ◌-◌, ◌<◌,
  ◌≡◌, ◌≢◌, ◌↔◌, Width, w8, w16, w32, w64, arith, size, bit, signed, ◌-ℤ◌, ◌<ℤ◌, pos, sign_bit,
}
use atua_computer.Alu.Spec.{IsDifference}
use atua_computer.Machine.{Machine}
use atua_computer.Flags.{
  is_above, is_below_or_equal, is_less, is_less_or_equal, is_greater, is_greater_or_equal,
}
use atua_computer.Flags.Conditions.{
  is_above_iff, is_below_or_equal_iff, is_less_iff, is_less_or_equal_iff, is_greater_iff,
  is_greater_or_equal_iff,
}

-- The sign of the result and the overflow give the signed order.
signed_order :
    (w : Width) (x y z o : ℕ)
    → x < size w
    → y < size w
    → o < 2
    → z ≡ (x + size w - (y + 0)) % size w
    → (o ≡ 0) ↔ (signed w z ≡ signed w x -ℤ signed w y -ℤ pos 0)
    → (bit (sign_bit w) z ≢ o) ↔ (signed w x <ℤ signed w y)
unfolding signed ◌-ℤ◌
signed_order w8 x y z o hx hy ho e h = ground arith
signed_order w16 x y z o hx hy ho e h = ground arith
signed_order w32 x y z o hx hy ho e h = ground arith
signed_order w64 x y z o hx hy ho e h = ground arith

zero_order :
    (w : Width) (x y z : ℕ)
    → x < size w
    → y < size w
    → z ≡ (x + size w - (y + 0)) % size w
    → (z ≡ 0) ↔ (x ≡ y)
zero_order w8 x y z hx hy e = ground arith
zero_order w16 x y z hx hy e = ground arith
zero_order w32 x y z hx hy e = ground arith
zero_order w64 x y z hx hy e = ground arith

same_signed : (w : Width) (x y : ℕ) → x < size w → y < size w → (x ≡ y) ↔ (signed w x ≡ signed w y)
unfolding signed
same_signed w8 x y hx hy = ground arith
same_signed w16 x y hx hy = ground arith
same_signed w32 x y hx hy = ground arith
same_signed w64 x y hx hy = ground arith

less_or_same :
    (w : Width) (x y : ℕ)
    → x < size w
    → y < size w
    → ((x ≡ y) ⊎ (signed w x <ℤ signed w y))
      ↔ ((signed w x ≡ signed w y) ⊎ (signed w x <ℤ signed w y))
less_or_same w x y hx hy = or_congr (same_signed w x y hx hy) (λ h. h, λ h. h)

eq_iff_not_ne : (a b : ℕ) → (a ≡ b) ↔ ¬ (a ≢ b)
eq_iff_not_ne a b = ground arith

clear_iff : (f : ℕ) → (bit 6 f ≡ 0) ↔ ¬ (bit 6 f ≡ 1)
clear_iff f = grind arith

signed_total :
    (w : Width) (x y : ℕ)
    → x < size w
    → y < size w
    → (signed w y <ℤ signed w x) ↔ ((x ≢ y) × (¬ (signed w x <ℤ signed w y)))
unfolding signed
signed_total w8 x y hx hy = ground arith
signed_total w16 x y hx hy = ground arith
signed_total w32 x y hx hy = ground arith
signed_total w64 x y hx hy = ground arith

-- The six conditions, as they order `x` and `y`.
pub record Orders (w : Width) (m : Machine) (x y : ℕ) : Type 0 where
  pub below : (bit 0 m.flags ≡ 1) ↔ (x < y)
  pub equal : (bit 6 m.flags ≡ 1) ↔ (x ≡ y)
  pub below_or_equal : (is_below_or_equal m ≡ true) ↔ (x ≤ y)
  pub above : (is_above m ≡ true) ↔ (y < x)
  pub less : (is_less m ≡ true) ↔ (signed w x <ℤ signed w y)
  pub greater_or_equal : (is_greater_or_equal m ≡ true) ↔ ¬ (signed w x <ℤ signed w y)
  pub less_or_equal :
      (is_less_or_equal m ≡ true) ↔ ((signed w x ≡ signed w y) ⊎ (signed w x <ℤ signed w y))
  pub greater : (is_greater m ≡ true) ↔ (signed w y <ℤ signed w x)

module _ (w : Width) (m m' : Machine) (x y z : ℕ) (hx : x < size w) (hy : y < size w)
    (d : IsDifference w m m' x y 0 z) where
  flags_fit : m'.flags < 2 ^ 32
  flags_fit = omega (arith, d.described.parity)

  less_flag : (bit 7 m'.flags ≢ bit 11 m'.flags) ↔ (signed w x <ℤ signed w y)
  less_flag =
      rw d.described.sign
        (signed_order w x y z (bit 11 m'.flags) hx hy (omega arith) d.value d.overflow)

  equal_flag : (bit 6 m'.flags ≡ 1) ↔ (x ≡ y)
  equal_flag = grind (arith, d.described.zero_result, zero_order w x y z hx hy d.value)

  same_signs : (bit 7 m'.flags ≡ bit 11 m'.flags) ↔ ¬ (signed w x <ℤ signed w y)
  same_signs = iff_trans (eq_iff_not_ne _ _) (not_congr less_flag)

  different : (bit 6 m'.flags ≡ 0) ↔ (x ≢ y)
  different = iff_trans (clear_iff m'.flags) (not_congr equal_flag)

  pub Orders-of_difference : Orders w m' x y
  Orders-of_difference = record {
    below = grind (arith, d.borrow);
    equal = equal_flag;
    below_or_equal = grind (arith, is_below_or_equal_iff m' flags_fit, d.borrow, equal_flag);
    above = grind (arith, is_above_iff m' flags_fit, d.borrow, equal_flag);
    less = iff_trans (is_less_iff m' flags_fit) less_flag;
    greater_or_equal = iff_trans (is_greater_or_equal_iff m' flags_fit) same_signs;
    less_or_equal =
        iff_trans (is_less_or_equal_iff m' flags_fit)
          (iff_trans (or_congr equal_flag less_flag) (less_or_same w x y hx hy));
    greater =
        iff_trans (is_greater_iff m' flags_fit)
          (iff_trans (and_congr different same_signs) (iff_symm (signed_total w x y hx hy)));
  }
