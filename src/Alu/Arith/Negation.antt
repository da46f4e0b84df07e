-- ===== src/Alu/Arith/Negation.antt =====
-- `Neg` at every operand size, against subtraction from 0.
use atua_computer.Alu.Arith.{sign_bit, ltb, to_u, truth, neg_at, sub_at}
use atua_computer.Base.{
  ◌==◌, ◌%◌, ◌<◌, ℕ, ◌+◌, ◌-◌, ◌^◌, ◌≡◌, Width, w8, w16, w32, w64, arith, size, cast, bit, sym, ◌∙◌,
}
use atua_computer.Bits.{bit_and_mask}
use atua_computer.Machine.{Machine}
use atua_computer.Alu.Spec.{AgreeBut}
use atua_computer.Alu.Arith.Carries.{fits, cast-lt, to_u-lt}
use atua_computer.Alu.Arith.Unary.{AgreeBut-of_Leaves, clash}
use atua_computer.Alu.Arith.Described.{Leaves, at-Leaves, overflow_bit}

neg_overflow :
    (w : Width) (x : ℕ)
    → x < size w
    → to_u (x == 2 ^ sign_bit w) ≡ clash w 0 x (cast w (0 + size w - x)) 0
neg_overflow w8 x h = ground arith
neg_overflow w16 x h = ground arith
neg_overflow w32 x h = ground arith
neg_overflow w64 x h = ground arith

neg_value : (w : Width) (x : ℕ) → x < size w → cast w (size w - 1 - x + 1) ≡ cast w (0 + size w - x)
neg_value w8 x h = omega arith
neg_value w16 x h = omega arith
neg_value w32 x h = omega arith
neg_value w64 x h = omega arith

cast-zero : (w : Width) → cast w 0 ≡ 0
cast-zero w8 = omega arith
cast-zero w16 = omega arith
cast-zero w32 = omega arith
cast-zero w64 = omega arith

zero-lt : (w : Width) → 0 < size w
zero-lt w8 = omega arith
zero-lt w16 = omega arith
zero-lt w32 = omega arith
zero-lt w64 = omega arith

truth-lt : (x : ℕ) → truth x < 2
truth-lt x = ground arith

neg_carry : (w : Width) (x : ℕ) → x < size w → truth x ≡ to_u (ltb 0 (cast w (0 + size w - x)))
neg_carry w8 x h = ground arith
neg_carry w16 x h = ground arith
neg_carry w32 x h = ground arith
neg_carry w64 x h = ground arith

module _ (w : Width) (m : Machine) (x64 : ℕ) where
  abbrev x : ℕ
  x = cast w x64

  hx : x < size w
  hx = cast-lt w x64

  abbrev z : ℕ
  z = cast w (0 + size w - x)

  hz : z < size w
  hz = cast-lt w (0 + size w - x)

  neg-Leaves : (y : ℕ) → Leaves w m (neg_at w m x64 y) z (truth x) (clash w 0 x z 0) (truth x)
  unfolding neg_at
  neg-Leaves y =
      rw (neg_value w x hx, neg_overflow w x hx)
        (at-Leaves w m z _ _ _ hz (truth-lt x) (omega arith) (truth-lt x))

  sub-Leaves :
      Leaves w m (sub_at w m 0 x64) z (to_u (ltb 0 (z % 16))) (clash w 0 x z 0) (to_u (ltb 0 z))
  unfolding sub_at
  sub-Leaves =
      rw
        (
          cast-zero w,
          bit_and_mask 4 z,
          overflow_bit (sign_bit w) 0 x z 0 (fits w (zero-lt w)) (fits w hx),
        )
        (at-Leaves w m z _ _ _ hz (to_u-lt _) (omega arith) (to_u-lt _))

  -- `Neg` is `Sub` from 0 but for AF, which repeats CF.
  pub neg_at-AgreeBut :
      (y : ℕ)
      → AgreeBut (neg_at w m x64 y) (sub_at w m 0 x64)
        × (bit 0 (neg_at w m x64 y).0.flags ≡ bit 0 (sub_at w m 0 x64).0.flags)
        × (bit 0 (neg_at w m x64 y).0.flags ≡ truth x)
        × (bit 4 (neg_at w m x64 y).0.flags ≡ truth x)
  neg_at-AgreeBut y = (
    AgreeBut-of_Leaves w m _ _ _ _ _ _ _ _ (neg-Leaves y) sub-Leaves,
    (neg-Leaves y).status.carry ∙ neg_carry w x hx ∙ sym sub-Leaves.status.carry,
    (neg-Leaves y).status.carry,
    (neg-Leaves y).status.auxiliary,
  )
