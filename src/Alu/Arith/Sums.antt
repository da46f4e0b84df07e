-- ===== src/Alu/Arith/Sums.antt =====
-- `Add` and `Adc` at every operand size.
use atua_computer.Alu.Arith.Described.{
  carry_in, at-result, at-HasStatus, at-Describes, overflow_bit,
}
use atua_computer.Base.{
  ℕ, ◌+◌, ◌/◌, ◌%◌, ◌^◌, ◌<◌, ◌≡◌, ◌↔◌, min, Width, w8, w16, w32, w64, arith, size, sign_bit, bit,
  cast, bit_and, to_u, ltb, ap, ◌∙◌, ◌||◌, signed, pos, ◌+ℤ◌,
}
use atua_computer.Bits.{bit_and_mask}
use atua_computer.Machine.{Machine}
use atua_computer.Alu.Arith.{add_at, adc_at}
use atua_computer.Alu.Status.{alu_flags_at}
use atua_computer.Alu.Status.Laws.{HasStatus}
use atua_computer.Alu.Spec.{Describes, IsSum}
use atua_computer.Alu.Arith.Carries
use atua_computer.Alu.Arith.Carries.{cast-lt, cast_id, cast_low, fits}

-- The overflow test on the signs.
sum_overflow :
    (w : Width) (x y c z : ℕ)
    → x < size w
    → y < size w
    → c < 2
    → z ≡ (x + y + c) % size w
    → let s = sign_bit w in
      (min ((bit s z + bit s x) % 2) ((bit s z + bit s y) % 2) ≡ 0)
      ↔ (signed w z ≡ signed w x +ℤ signed w y +ℤ pos c)
unfolding signed ◌+ℤ◌
sum_overflow w8 x y c z hx hy hc e = ground arith
sum_overflow w16 x y c z hx hy hc e = ground arith
sum_overflow w32 x y c z hx hy hc e = ground arith
sum_overflow w64 x y c z hx hy hc e = ground arith

-- A result with the right carries and overflow is a sum.
module _ (w : Width) (m : Machine) (x y c z af of cf : ℕ) (hx : x < size w) (hy : y < size w)
    (hc : c < 2) (value : z ≡ (x + y + c) % size w) (haf : af ≡ (x % 16 + y % 16 + c) / 16)
    (hcf : cf ≡ (x + y + c) / size w)
    (hof : let s = sign_bit w in of ≡ min ((bit s z + bit s x) % 2) ((bit s z + bit s y) % 2)) where
  cf-lt : cf < 2
  cf-lt = rw hcf (Carries.carry-lt w x y c hx hy hc)

  z-lt : z < size w
  z-lt = rw value (cast-lt w (x + y + c))

  status : HasStatus (alu_flags_at w m z af of cf).0.flags z af of cf (z / 2 ^ sign_bit w)
  status = rw (cast_id w z z-lt) at (at-HasStatus w m z af of cf (omega arith) (omega arith) cf-lt)

  described : Describes w m (alu_flags_at w m z af of cf).0 z
  described =
      rw (cast_id w z z-lt) at (at-Describes w m z af of cf (omega arith) (omega arith) cf-lt)

  pub IsSum-of_flags :
      IsSum w m (alu_flags_at w m z af of cf).0 x y c (alu_flags_at w m z af of cf).1
  IsSum-of_flags =
      rw (at-result w m z af of cf, cast_id w z z-lt)
        (record {
          value = value;
          carry = status.carry ∙ hcf;
          auxiliary = status.auxiliary ∙ haf;
          overflow = rw (status.overflow, hof) (sum_overflow w x y c z hx hy hc value);
          described = described;
        })

pub add_at-IsSum :
    (w : Width) (m : Machine) (x64 y64 : ℕ)
    → let (m', z) = add_at w m x64 y64 in IsSum w m m' (cast w x64) (cast w y64) 0 z
unfolding add_at
add_at-IsSum w m x64 y64 =
    IsSum-of_flags w m x y 0 z _ _ _ hx hy (omega arith) (ap (cast w) (omega arith)) auxiliary
      (Carries.wrap_carry w x y hx hy)
      (overflow_bit (sign_bit w) z x z y (fits w (cast-lt w (x + y))) (fits w hx))
  where
    x : ℕ
    x = cast w x64

    y : ℕ
    y = cast w y64

    z : ℕ
    z = cast w (x + y)

    hx : x < size w
    hx = cast-lt w x64

    hy : y < size w
    hy = cast-lt w y64

    auxiliary : to_u (ltb (bit_and z 15) (bit_and y 15)) ≡ (x % 16 + y % 16 + 0) / 16
    auxiliary =
        rw (bit_and_mask 4 z, bit_and_mask 4 y) (Carries.low_carry x y z (cast_low w (x + y)))

pub adc_at-IsSum :
    (w : Width) (m : Machine) (x64 y64 : ℕ)
    → let (m', z) = adc_at w m x64 y64 in IsSum w m m' (cast w x64) (cast w y64) (bit 0 m.flags) z
unfolding adc_at
adc_at-IsSum w m x64 y64 = rw (carry_in m.flags) (
    IsSum-of_flags w m x y c z _ _ _ hx hy hc (Carries.cast_sum w x y c) auxiliary
      (Carries.wrap_carry_in w x y c hx hy hc)
      (overflow_bit (sign_bit w) z x z y (fits w (cast-lt w (t + y))) (fits w hx)))
  where
    c : ℕ
    c = bit 0 m.flags

    hc : c < 2
    hc = omega arith

    x : ℕ
    x = cast w x64

    y : ℕ
    y = cast w y64

    t : ℕ
    t = cast w (x + c)

    z : ℕ
    z = cast w (t + y)

    hx : x < size w
    hx = cast-lt w x64

    hy : y < size w
    hy = cast-lt w y64

    auxiliary :
        to_u (ltb (bit_and t 15) (bit_and x 15) || ltb (bit_and z 15) (bit_and y 15))
        ≡ (x % 16 + y % 16 + c) / 16
    auxiliary =
        rw (bit_and_mask 4 t, bit_and_mask 4 x, bit_and_mask 4 z, bit_and_mask 4 y)
          (Carries.low_carry_in x y c t z hc (cast_low w (x + c)) (cast_low w (t + y)))
