-- ===== src/Alu/Shifts/Laws.antt =====
-- The rows of `kBsu`: what the shifts and the plain rotations compute at every operand size.
use atua_computer.Base.{
  ◌<◌, Bool, true, false, ℕ, ◌+◌, ◌-◌, ◌%◌, ◌/◌, ◌*◌, ◌^◌, ◌≡◌, ◌≢◌, Width, w8, w16, w32, w64, cast,
  bit, bits, sign_bit, signed, floor_shift, odd,
}
use atua_computer.Alu.Status.Rotated.{IsRotated}
use atua_computer.Alu.Shifts.{sal, rol, ror, rcl, rcr, BsuOp, k_bsu, shl, shr, sar}
use atua_computer.Alu.Rotate.Plain.{
  distance, rol_at-IsRotated, ror_at-IsRotated, ror-rol, rol-zero, ror-zero,
}
use atua_computer.Alu.Shift.Specs.{
  shl-zero, shr-zero, sar-zero, shr_at-IsShifted, shl_at-IsShifted, sar_at-IsShifted,
}
use atua_computer.Machine.{Machine}
use atua_computer.Alu.Spec.{IsShifted}
use atua_computer.Alu.Shift.Laws.{count}

-- By a count that is not 0, `Shr` divides the operand by a power of two; CF is the last bit moved
-- out, OF the sign before the last step, AF is clear, and ZF, SF and parity describe the result.
pub k_bsu-shr :
    (w : Width) (m : Machine) (x y : ℕ)
    → count w y ≢ 0
    → let o = k_bsu shr w m x y in
      let v = cast w x in
      let k = count w y in
      (o.1 ≡ v / 2 ^ k) × IsShifted w m o (bit (k - 1) v) (bit (sign_bit w) (v / 2 ^ (k - 1)))
unfolding k_bsu
k_bsu-shr w8 m x y ne = shr_at-IsShifted w8 m x y ne
k_bsu-shr w16 m x y ne = shr_at-IsShifted w16 m x y ne
k_bsu-shr w32 m x y ne = shr_at-IsShifted w32 m x y ne
k_bsu-shr w64 m x y ne = shr_at-IsShifted w64 m x y ne

-- By a count that is not 0, `Shl` multiplies by a power of two and cuts to the operand size; CF is
-- the last bit moved out, which is 0 when the count passes the width, and OF tells whether it
-- differs from the new sign.
pub k_bsu-shl :
    (w : Width) (m : Machine) (x y : ℕ)
    → count w y ≢ 0
    → let o = k_bsu shl w m x y in
      let p = cast w x * 2 ^ count w y in
      (o.1 ≡ cast w p)
      × IsShifted w m o (bit (bits w) p) ((o.1 / 2 ^ sign_bit w + bit (bits w) p) % 2)
unfolding k_bsu
k_bsu-shl w8 m x y ne = shl_at-IsShifted w8 m x y ne
k_bsu-shl w16 m x y ne = shl_at-IsShifted w16 m x y ne
k_bsu-shl w32 m x y ne = shl_at-IsShifted w32 m x y ne
k_bsu-shl w64 m x y ne = shl_at-IsShifted w64 m x y ne

-- By a count that is not 0, `Sar` divides the signed operand by a power of two and rounds down; CF
-- is the last bit moved out of the signed integer, and OF is clear.
pub k_bsu-sar :
    (w : Width) (m : Machine) (x y : ℕ)
    → count w y ≢ 0
    → let o = k_bsu sar w m x y in
      let v = signed w (cast w x) in
      let k = count w y in
      (signed w o.1 ≡ floor_shift v k) × IsShifted w m o (odd (floor_shift v (k - 1))) 0
unfolding k_bsu
k_bsu-sar w8 m x y ne = sar_at-IsShifted w8 m x y ne
k_bsu-sar w16 m x y ne = sar_at-IsShifted w16 m x y ne
k_bsu-sar w32 m x y ne = sar_at-IsShifted w32 m x y ne
k_bsu-sar w64 m x y ne = sar_at-IsShifted w64 m x y ne

-- By a count that is not 0, `Rol` moves digit `j` of the operand `r` places up around the end, `r`
-- being the count modulo the width; CF is the digit that came in last, OF compares the ends, and
-- every other flag stays.
pub k_bsu-rol :
    (w : Width) (m : Machine) (x y : ℕ)
    → count w y ≢ 0
    → let o = k_bsu rol w m x y in
      IsRotated m o o.1 (bit 0 o.1) ((bit (sign_bit w) o.1 + bit 0 o.1) % 2)
      × ((j : ℕ) → j < bits w → bit j o.1 ≡ bit ((j + bits w - distance w y) % bits w) (cast w x))
unfolding k_bsu
k_bsu-rol w8 m x y ne = rol_at-IsRotated w8 m x y ne
k_bsu-rol w16 m x y ne = rol_at-IsRotated w16 m x y ne
k_bsu-rol w32 m x y ne = rol_at-IsRotated w32 m x y ne
k_bsu-rol w64 m x y ne = rol_at-IsRotated w64 m x y ne

-- `Ror` moves every digit down in the same way; CF is the new top digit.
pub k_bsu-ror :
    (w : Width) (m : Machine) (x y : ℕ)
    → count w y ≢ 0
    → let o = k_bsu ror w m x y in
      IsRotated m o o.1
        (bit (sign_bit w) o.1)
        ((bit (sign_bit w) o.1 + bit (sign_bit w - 1) o.1) % 2)
      × ((j : ℕ) → j < bits w → bit j o.1 ≡ bit ((j + distance w y) % bits w) (cast w x))
unfolding k_bsu
k_bsu-ror w8 m x y ne = ror_at-IsRotated w8 m x y ne
k_bsu-ror w16 m x y ne = ror_at-IsRotated w16 m x y ne
k_bsu-ror w32 m x y ne = ror_at-IsRotated w32 m x y ne
k_bsu-ror w64 m x y ne = ror_at-IsRotated w64 m x y ne

-- Whatever the flags and the count, `Ror` gives back the operand that `Rol` turned by that count.
pub k_bsu-ror-rol :
    (w : Width) (m m' : Machine) (x y : ℕ) → (k_bsu ror w m' (k_bsu rol w m x y).1 y).1 ≡ cast w x
unfolding k_bsu
k_bsu-ror-rol w8 m m' x y = ror-rol w8 m m' x y
k_bsu-ror-rol w16 m m' x y = ror-rol w16 m m' x y
k_bsu-ror-rol w32 m m' x y = ror-rol w32 m m' x y
k_bsu-ror-rol w64 m m' x y = ror-rol w64 m m' x y

-- The rows that go by the plain count.
abbrev pub plain_count : BsuOp → Bool
plain_count rcl = false
plain_count rcr = false
plain_count _ = true

-- A count of 0 changes neither flags nor registers, whatever the shift or plain rotation.
pub k_bsu-zero :
    (op : BsuOp) (w : Width) (m : Machine) (x y : ℕ)
    → plain_count op ≡ true
    → count w y ≡ 0
    → k_bsu op w m x y ≡ (m, cast w x)
unfolding k_bsu
k_bsu-zero rol w8 m x y p e = rol-zero w8 m x y e
k_bsu-zero rol w16 m x y p e = rol-zero w16 m x y e
k_bsu-zero rol w32 m x y p e = rol-zero w32 m x y e
k_bsu-zero rol w64 m x y p e = rol-zero w64 m x y e
k_bsu-zero ror w8 m x y p e = ror-zero w8 m x y e
k_bsu-zero ror w16 m x y p e = ror-zero w16 m x y e
k_bsu-zero ror w32 m x y p e = ror-zero w32 m x y e
k_bsu-zero ror w64 m x y p e = ror-zero w64 m x y e
k_bsu-zero rcl w8 m x y p e = cc
k_bsu-zero rcl w16 m x y p e = cc
k_bsu-zero rcl w32 m x y p e = cc
k_bsu-zero rcl w64 m x y p e = cc
k_bsu-zero rcr w8 m x y p e = cc
k_bsu-zero rcr w16 m x y p e = cc
k_bsu-zero rcr w32 m x y p e = cc
k_bsu-zero rcr w64 m x y p e = cc
k_bsu-zero shl w8 m x y p e = shl-zero w8 m x y e
k_bsu-zero shl w16 m x y p e = shl-zero w16 m x y e
k_bsu-zero shl w32 m x y p e = shl-zero w32 m x y e
k_bsu-zero shl w64 m x y p e = shl-zero w64 m x y e
k_bsu-zero shr w8 m x y p e = shr-zero w8 m x y e
k_bsu-zero shr w16 m x y p e = shr-zero w16 m x y e
k_bsu-zero shr w32 m x y p e = shr-zero w32 m x y e
k_bsu-zero shr w64 m x y p e = shr-zero w64 m x y e
k_bsu-zero sal w8 m x y p e = shl-zero w8 m x y e
k_bsu-zero sal w16 m x y p e = shl-zero w16 m x y e
k_bsu-zero sal w32 m x y p e = shl-zero w32 m x y e
k_bsu-zero sal w64 m x y p e = shl-zero w64 m x y e
k_bsu-zero sar w8 m x y p e = sar-zero w8 m x y e
k_bsu-zero sar w16 m x y p e = sar-zero w16 m x y e
k_bsu-zero sar w32 m x y p e = sar-zero w32 m x y e
k_bsu-zero sar w64 m x y p e = sar-zero w64 m x y e
