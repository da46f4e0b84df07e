-- ===== src/Alu/Shift/Specs.antt =====
-- The three shifts in the terms of `Alu.Spec`, for a count that is not 0.
use atua_computer.Base.{
  subst, ap, sym, ℕ, ◌+◌, ◌-◌, ◌%◌, ◌/◌, ◌*◌, ◌^◌, ◌≡◌, ◌≢◌, ◌≤◌, ◌∙◌, Width, w8, w16, w32, w64,
  cast, bit, bits, sign_bit, signed, floor_shift, odd, suc, arith, bit_and,
}
use atua_computer.Machine.{Machine, Outcome}
use atua_computer.Alu.Spec.{IsShifted}
use atua_computer.Alu.Arith.Carries.{cast-lt}
use atua_computer.Alu.Arith.Described.{Leaves}
use atua_computer.Alu.Shift.{shr_at, shl_at, sar_at, count_mask, carrier, sign_extend, shift_signed}
use atua_computer.Alu.Shift.Laws.{count, count_lem, shr-Leaves}
use atua_computer.Alu.Shift.Left.{shl-Leaves}
use atua_computer.Alu.Shift.Signed.{sar-Leaves, sar_value, sar_carry}

IsShifted-of_Leaves :
    (w : Width) (m : Machine) (o : Outcome) (z cf of : ℕ)
    → Leaves w m o z 0 of cf
    → IsShifted w m o cf of
IsShifted-of_Leaves w m o z cf of l = record {
  carry = l.status.carry;
  auxiliary = l.status.auxiliary;
  overflow = l.status.overflow;
  described = rw l.result l.described;
}

count-le : (w : Width) (y : ℕ) → count w y ≤ count_mask w
count-le w8 y = omega arith
count-le w16 y = omega arith
count-le w32 y = omega arith
count-le w64 y = omega arith

module _ (w : Width) (m : Machine) (x y : ℕ) (ne : count w y ≢ 0) where
  abbrev v : ℕ
  v = cast w x

  abbrev k : ℕ
  k = count w y

  as_suc : suc (k - 1) ≡ k
  as_suc = omega arith

  counted : bit_and y (count_mask w) ≡ suc (k - 1)
  counted = count_lem w y ∙ sym as_suc

  pub shr_at-IsShifted :
      (let o = shr_at w m x y in
        (o.1 ≡ v / 2 ^ k) × IsShifted w m o (bit (k - 1) v) (bit (sign_bit w) (v / 2 ^ (k - 1))))
  shr_at-IsShifted =
      let l = shr-Leaves w m x y (k - 1) counted in
      (l.result ∙ ap (λ t. v / 2 ^ t) as_suc, IsShifted-of_Leaves w m _ _ _ _ l)

  pub shl_at-IsShifted :
      (let o = shl_at w m x y in
        let p = v * 2 ^ k in
        (o.1 ≡ cast w p)
        × IsShifted w m o (bit (bits w) p) ((o.1 / 2 ^ sign_bit w + bit (bits w) p) % 2))
  shl_at-IsShifted =
      let l = shl-Leaves w m x y (k - 1) counted (rw as_suc (count-le w y)) in
      let l' = rw as_suc at l in
      (
        l'.result,
        subst
            (λ t.
              IsShifted w m (shl_at w m x y) (bit (bits w) (v * 2 ^ k))
                ((t / 2 ^ sign_bit w + bit (bits w) (v * 2 ^ k)) % 2))
            (sym l'.result) (IsShifted-of_Leaves w m _ _ _ _ l'),
      )

  pub sar_at-IsShifted :
      (let o = sar_at w m x y in
        (signed w o.1 ≡ floor_shift (signed w v) k)
        × IsShifted w m o (odd (floor_shift (signed w v) (k - 1))) 0)
  sar_at-IsShifted =
      let l = sar-Leaves w m x y (k - 1) counted in
      (
        ap (signed w)
              (l.result ∙ ap (λ t. cast w (shift_signed (carrier w) (sign_extend w v) t)) as_suc)
            ∙ sar_value w v k (cast-lt w x),
        IsShifted-of_Leaves w m _ _ _ _ (rw (sar_carry w v (k - 1) (cast-lt w x)) at l),
      )

-- A count of 0 changes nothing.
module _ (w : Width) (m : Machine) (x y : ℕ) (e : count w y ≡ 0) where
  pub shr-zero : shr_at w m x y ≡ (m, cast w x)
  unfolding shr_at
  shr-zero = rw (count_lem w y, e)

  pub shl-zero : shl_at w m x y ≡ (m, cast w x)
  unfolding shl_at
  shl-zero = rw (count_lem w y, e)

  pub sar-zero : sar_at w m x y ≡ (m, cast w x)
  unfolding sar_at
  sar-zero = rw (count_lem w y, e)
