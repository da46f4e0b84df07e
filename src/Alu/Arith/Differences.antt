-- ===== src/Alu/Arith/Differences.antt =====
-- `Sub` and `Sbb` at every operand size.
use atua_computer.Base.{ℕ, ◌+◌, ◌-◌, ◌/◌, ◌%◌, ◌^◌, ◌<◌, ◌≡◌, ◌↔◌, min, Width, w8, w16, w32, w64}
use atua_computer.Base.{
  arith, size, sign_bit, bit, cast, bit_and, bit_xor, to_u, truth, ltb, ap, ◌||◌,
}
use atua_computer.Base.{signed, pos, ◌-ℤ◌}
use atua_computer.Bits.{bit_and_mask, bit_and_comm}
use atua_computer.Machine.{Machine}
use atua_computer.Alu.Arith.{sub_at, sbb_at}
use atua_computer.Alu.Status.{alu_flags_at}
use atua_computer.Alu.Status.Laws.{HasStatus}
use atua_computer.Alu.Spec.{Describes, IsDifference}
use atua_computer.Alu.Arith.Carries.{cast-lt, cast_id, fits, to_u-lt, bit_in_word}
use atua_computer.Alu.Arith.Borrows
use atua_computer.Alu.Arith.Borrows.{cast_low_sub}
use atua_computer.Alu.Arith.Described.{at-result, at-HasStatus, at-Describes, overflow_bit}
use atua_computer.Alu.Arith.Described.{carry_in}

-- The overflow test on the signs.
difference_overflow :
    (w : Width) (x y b z : ℕ)
    → x < size w
    → y < size w
    → b < 2
    → z ≡ (x + size w - (y + b)) % size w
    → let s = sign_bit w in
      (min ((bit s z + bit s x) % 2) ((bit s x + bit s y) % 2) ≡ 0)
      ↔ (signed w z ≡ signed w x -ℤ signed w y -ℤ pos b)
unfolding signed ◌-ℤ◌
difference_overflow w8 x y b z hx hy hb e = ground arith
difference_overflow w16 x y b z hx hy hb e = ground arith
difference_overflow w32 x y b z hx hy hb e = ground arith
difference_overflow w64 x y b z hx hy hb e = ground arith

-- A result with the right borrows and overflow is a difference.
module _ (w : Width) (m : Machine) (x y b z af of cf : ℕ) (hx : x < size w) (hy : y < size w)
    (hb : b < 2) (value : z ≡ (x + size w - (y + b)) % size w) (af-lt : af < 2) (cf-lt : cf < 2)
    (haf : (af ≡ 1) ↔ (x % 16 < y % 16 + b)) (hcf : (cf ≡ 1) ↔ (x < y + b))
    (hof : let s = sign_bit w in of ≡ min ((bit s z + bit s x) % 2) ((bit s x + bit s y) % 2)) where
  z-lt : z < size w
  z-lt = rw value (cast-lt w (x + size w - (y + b)))

  status : HasStatus (alu_flags_at w m z af of cf).0.flags z af of cf (z / 2 ^ sign_bit w)
  status = rw (cast_id w z z-lt) at (at-HasStatus w m z af of cf af-lt (omega arith) cf-lt)

  described : Describes w m (alu_flags_at w m z af of cf).0 z
  described = rw (cast_id w z z-lt) at (at-Describes w m z af of cf af-lt (omega arith) cf-lt)

  pub IsDifference-of_flags :
      IsDifference w m (alu_flags_at w m z af of cf).0 x y b (alu_flags_at w m z af of cf).1
  IsDifference-of_flags =
      rw (at-result w m z af of cf, cast_id w z z-lt)
        (record {
          value = value;
          borrow = rw status.carry hcf;
          auxiliary = rw status.auxiliary haf;
          overflow = rw (status.overflow, hof) (difference_overflow w x y b z hx hy hb value);
          described = described;
        })

pub sub_at-IsDifference :
    (w : Width) (m : Machine) (x64 y64 : ℕ)
    → let (m', z) = sub_at w m x64 y64 in IsDifference w m m' (cast w x64) (cast w y64) 0 z
unfolding sub_at
sub_at-IsDifference w m x64 y64 =
    IsDifference-of_flags w m x y 0 z _ _ _ hx hy (omega arith) value (to_u-lt _) (to_u-lt _)
      auxiliary (Borrows.wrap_borrow w x y hx hy) overflow
  where
    x : ℕ
    x = cast w x64

    y : ℕ
    y = cast w y64

    z : ℕ
    z = cast w (x + size w - y)

    hx : x < size w
    hx = cast-lt w x64

    hy : y < size w
    hy = cast-lt w y64

    value : z ≡ (x + size w - (y + 0)) % size w
    value = ap (λ t. cast w (x + size w - t)) (omega arith)

    auxiliary : (to_u (ltb (bit_and x 15) (bit_and z 15)) ≡ 1) ↔ (x % 16 < y % 16 + 0)
    auxiliary =
        rw (bit_and_mask 4 x, bit_and_mask 4 z) (Borrows.low_borrow x y z (cast_low_sub w x y hy))

    overflow :
        let s = sign_bit w in
        truth (bit_and (bit_xor x y) (bit_xor z x) / 2 ^ s)
        ≡ min ((bit s z + bit s x) % 2) ((bit s x + bit s y) % 2)
    overflow =
        rw (bit_and_comm (bit_xor x y) (bit_xor z x))
          (overflow_bit (sign_bit w) z x x y (fits w (cast-lt w (x + size w - y))) (fits w hx))

pub sbb_at-IsDifference :
    (w : Width) (m : Machine) (x64 y64 : ℕ)
    → let (m', z) = sbb_at w m x64 y64 in
      IsDifference w m m' (cast w x64) (cast w y64) (bit 0 m.flags) z
unfolding sbb_at
sbb_at-IsDifference w m x64 y64 = rw (carry_in m.flags) (
    IsDifference-of_flags w m x y b z _ _ _ hx hy hb (Borrows.cast_difference w x y b hx hy hb)
      (to_u-lt _) (to_u-lt _) auxiliary (Borrows.wrap_borrow_in w x y b hx hy hb)
      (overflow_bit (sign_bit w) z x x y (fits w (cast-lt w (t + size w - y))) (fits w hx)))
  where
    b : ℕ
    b = bit 0 m.flags

    hb : b < 2
    hb = omega arith

    x : ℕ
    x = cast w x64

    y : ℕ
    y = cast w y64

    t : ℕ
    t = cast w (x + size w - b)

    z : ℕ
    z = cast w (t + size w - y)

    hx : x < size w
    hx = cast-lt w x64

    hy : y < size w
    hy = cast-lt w y64

    hbw : b < size w
    hbw = bit_in_word w hb

    auxiliary :
        (to_u (ltb (bit_and x 15) (bit_and t 15) || ltb (bit_and t 15) (bit_and z 15)) ≡ 1)
        ↔ (x % 16 < y % 16 + b)
    auxiliary =
        rw (bit_and_mask 4 x, bit_and_mask 4 t, bit_and_mask 4 z)
          (Borrows.low_borrow_in x y b t z hb (cast_low_sub w x b hbw) (cast_low_sub w t y hy))
