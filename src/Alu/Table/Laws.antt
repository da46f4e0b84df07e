-- ===== src/Alu/Table/Laws.antt =====
-- The rows of `kAlu` keep the promises of `Alu.Spec` at every operand size.
use atua_computer.Base.{
  ltb, to_u, ℕ, ◌+◌, ◌%◌, ◌≡◌, Width, w8, w16, w32, w64, cast, bit, min, max, truth,
}
use atua_computer.Machine.{Machine}
use atua_computer.Alu.Spec.{IsSum, IsDifference, IsLogical, AgreeBut}
use atua_computer.Alu.Table.{k_alu, add, adc, sub, sbb, cmp, and, or, xor, inc, dec, neg}
use atua_computer.Alu.Arith.Sums.{add_at-IsSum, adc_at-IsSum}
use atua_computer.Alu.Arith.Differences.{sub_at-IsDifference, sbb_at-IsDifference}
use atua_computer.Alu.Arith.Logic.{and_at-IsLogical, or_at-IsLogical, xor_at-IsLogical}
use atua_computer.Alu.Arith.Unary.{inc_at-AgreeBut, dec_at-AgreeBut}
use atua_computer.Alu.Arith.Negation.{neg_at-AgreeBut}
use atua_computer.Alu.Compare.{Orders, Orders-of_difference}
use atua_computer.Alu.Arith.Carries.{cast-lt}

-- `Add8` to `Add64` return the sum of their operands cut to the operand size, with CF the carry
-- out of the word, AF the carry out of the low digit, OF clear exactly when the signed sum did not
-- overflow, ZF, SF and the parity byte describing the result, and all else unchanged.
pub k_alu-add :
    (w : Width) (m : Machine) (x y : ℕ)
    → let (m', z) = k_alu add w m x y in IsSum w m m' (cast w x) (cast w y) 0 z
unfolding k_alu
k_alu-add w8 m x y = add_at-IsSum w8 m x y
k_alu-add w16 m x y = add_at-IsSum w16 m x y
k_alu-add w32 m x y = add_at-IsSum w32 m x y
k_alu-add w64 m x y = add_at-IsSum w64 m x y

-- `Adc8` to `Adc64` do the same for the sum of the operands and the carry flag.
pub k_alu-adc :
    (w : Width) (m : Machine) (x y : ℕ)
    → let (m', z) = k_alu adc w m x y in IsSum w m m' (cast w x) (cast w y) (bit 0 m.flags) z
unfolding k_alu
k_alu-adc w8 m x y = adc_at-IsSum w8 m x y
k_alu-adc w16 m x y = adc_at-IsSum w16 m x y
k_alu-adc w32 m x y = adc_at-IsSum w32 m x y
k_alu-adc w64 m x y = adc_at-IsSum w64 m x y

-- `Sub8` to `Sub64` return the difference cut to the operand size, with CF and AF the borrows, OF
-- clear exactly when the signed difference did not overflow, ZF, SF and the parity byte describing
-- the result, and all else unchanged.
pub k_alu-sub :
    (w : Width) (m : Machine) (x y : ℕ)
    → let (m', z) = k_alu sub w m x y in IsDifference w m m' (cast w x) (cast w y) 0 z
unfolding k_alu
k_alu-sub w8 m x y = sub_at-IsDifference w8 m x y
k_alu-sub w16 m x y = sub_at-IsDifference w16 m x y
k_alu-sub w32 m x y = sub_at-IsDifference w32 m x y
k_alu-sub w64 m x y = sub_at-IsDifference w64 m x y

-- `Sbb8` to `Sbb64` do the same for the difference less the carry flag.
pub k_alu-sbb :
    (w : Width) (m : Machine) (x y : ℕ)
    → let (m', z) = k_alu sbb w m x y in IsDifference w m m' (cast w x) (cast w y) (bit 0 m.flags) z
unfolding k_alu
k_alu-sbb w8 m x y = sbb_at-IsDifference w8 m x y
k_alu-sbb w16 m x y = sbb_at-IsDifference w16 m x y
k_alu-sbb w32 m x y = sbb_at-IsDifference w32 m x y
k_alu-sbb w64 m x y = sbb_at-IsDifference w64 m x y

-- After the comparison row of `kAlu` (which is `Sub`), CF and ZF and the six conditions of flags.h
-- order the operands, cut to the operand size, as unsigned and as signed integers.
pub k_alu-cmp :
    (w : Width) (m : Machine) (x y : ℕ) → Orders w (k_alu cmp w m x y).0 (cast w x) (cast w y)
unfolding k_alu
k_alu-cmp w8 m x y =
    Orders-of_difference w8 m _ (cast w8 x) (cast w8 y) _ (cast-lt w8 x) (cast-lt w8 y)
      (sub_at-IsDifference w8 m x y)
k_alu-cmp w16 m x y =
    Orders-of_difference w16 m _ (cast w16 x) (cast w16 y) _ (cast-lt w16 x) (cast-lt w16 y)
      (sub_at-IsDifference w16 m x y)
k_alu-cmp w32 m x y =
    Orders-of_difference w32 m _ (cast w32 x) (cast w32 y) _ (cast-lt w32 x) (cast-lt w32 y)
      (sub_at-IsDifference w32 m x y)
k_alu-cmp w64 m x y =
    Orders-of_difference w64 m _ (cast w64 x) (cast w64 y) _ (cast-lt w64 x) (cast-lt w64 y)
      (sub_at-IsDifference w64 m x y)

-- The digits of the `and` row, with CF, AF and OF cleared.
pub k_alu-and :
    (w : Width) (m : Machine) (x y : ℕ)
    → let (m', z) = k_alu and w m x y in IsLogical w m m' (λ k. min (bit k x) (bit k y)) z
unfolding k_alu
k_alu-and w8 m x y = and_at-IsLogical w8 m x y
k_alu-and w16 m x y = and_at-IsLogical w16 m x y
k_alu-and w32 m x y = and_at-IsLogical w32 m x y
k_alu-and w64 m x y = and_at-IsLogical w64 m x y

-- The digits of the `or` row, with CF, AF and OF cleared.
pub k_alu-or :
    (w : Width) (m : Machine) (x y : ℕ)
    → let (m', z) = k_alu or w m x y in IsLogical w m m' (λ k. max (bit k x) (bit k y)) z
unfolding k_alu
k_alu-or w8 m x y = or_at-IsLogical w8 m x y
k_alu-or w16 m x y = or_at-IsLogical w16 m x y
k_alu-or w32 m x y = or_at-IsLogical w32 m x y
k_alu-or w64 m x y = or_at-IsLogical w64 m x y

-- The digits of the `xor` row, with CF, AF and OF cleared.
pub k_alu-xor :
    (w : Width) (m : Machine) (x y : ℕ)
    → let (m', z) = k_alu xor w m x y in IsLogical w m m' (λ k. (bit k x + bit k y) % 2) z
unfolding k_alu
k_alu-xor w8 m x y = xor_at-IsLogical w8 m x y
k_alu-xor w16 m x y = xor_at-IsLogical w16 m x y
k_alu-xor w32 m x y = xor_at-IsLogical w32 m x y
k_alu-xor w64 m x y = xor_at-IsLogical w64 m x y

-- `Inc` agrees with `Add` of 1 in the result and in every flag but CF, which it keeps, and AF,
-- which is set exactly when the low digit of the result is below that of the second argument.
pub k_alu-inc :
    (w : Width) (m : Machine) (x y : ℕ)
    → let o = k_alu inc w m x y in
      AgreeBut o (k_alu add w m x 1)
      × (bit 0 o.0.flags ≡ bit 0 m.flags)
      × (bit 4 o.0.flags ≡ to_u (ltb (cast w (cast w x + 1) % 16) (y % 16)))
unfolding k_alu
k_alu-inc w8 m x y = inc_at-AgreeBut w8 m x y
k_alu-inc w16 m x y = inc_at-AgreeBut w16 m x y
k_alu-inc w32 m x y = inc_at-AgreeBut w32 m x y
k_alu-inc w64 m x y = inc_at-AgreeBut w64 m x y

-- `Dec` agrees with `Sub` of 1 in the result and in every flag but CF, which it keeps.
pub k_alu-dec :
    (w : Width) (m : Machine) (x y : ℕ)
    → let o = k_alu dec w m x y in
      AgreeBut o (k_alu sub w m x 1)
      × (bit 0 o.0.flags ≡ bit 0 m.flags)
      × (bit 4 o.0.flags ≡ bit 4 (k_alu sub w m x 1).0.flags)
unfolding k_alu
k_alu-dec w8 m x y = dec_at-AgreeBut w8 m x y
k_alu-dec w16 m x y = dec_at-AgreeBut w16 m x y
k_alu-dec w32 m x y = dec_at-AgreeBut w32 m x y
k_alu-dec w64 m x y = dec_at-AgreeBut w64 m x y

-- `Neg` agrees with `Sub` from 0 in the result, in CF and in every other flag but AF, and both CF and
-- AF are set exactly when the operand is not 0.
pub k_alu-neg :
    (w : Width) (m : Machine) (x y : ℕ)
    → let o = k_alu neg w m x y in
      AgreeBut o (k_alu sub w m 0 x)
      × (bit 0 o.0.flags ≡ bit 0 (k_alu sub w m 0 x).0.flags)
      × (bit 0 o.0.flags ≡ truth (cast w x))
      × (bit 4 o.0.flags ≡ truth (cast w x))
unfolding k_alu
k_alu-neg w8 m x y = neg_at-AgreeBut w8 m x y
k_alu-neg w16 m x y = neg_at-AgreeBut w16 m x y
k_alu-neg w32 m x y = neg_at-AgreeBut w32 m x y
k_alu-neg w64 m x y = neg_at-AgreeBut w64 m x y
