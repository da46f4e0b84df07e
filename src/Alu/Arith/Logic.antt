-- ===== src/Alu/Arith/Logic.antt =====
-- `And`, `Or`, `Xor` and `Not` at every operand size.
use atua_computer.Base.{
  ℕ, ◌+◌, ◌%◌, ◌≡◌, min, max, Width, arith, bits, bit, bit_and, bit_xor, bit_or, ◌∙◌,
}
use atua_computer.Bits.{bit-bit_and, bit-bit_or, bit-bit_xor}
use atua_computer.Bits.Place.{bit_mod}
use atua_computer.Machine.{Machine}
use atua_computer.Alu.Arith.{and_at, or_at, xor_at}
use atua_computer.Alu.Status.{alu_flags_at}
use atua_computer.Alu.Spec.{IsLogical}
use atua_computer.Alu.Arith.Carries.{cast-lt}
use atua_computer.Alu.Arith.Described.{at-HasStatus, at-Describes, at-result}

module _ (w : Width) (m : Machine) (v : ℕ) (f : ℕ → ℕ) (digits : (k : ℕ) → bit k v ≡ f k) where
  IsLogical-of_digits : IsLogical w m (alu_flags_at w m v 0 0 0).0 f (alu_flags_at w m v 0 0 0).1
  IsLogical-of_digits =
      let s = at-HasStatus w m v 0 0 0 (omega arith) (omega arith) (omega arith) in
      rw (at-result w m v 0 0 0) (record {
        below = cast-lt w v;
        digits = λ k h. bit_mod (bits w) k v h ∙ digits k;
        carry = s.carry;
        auxiliary = s.auxiliary;
        overflow = s.overflow;
        described = at-Describes w m v 0 0 0 (omega arith) (omega arith) (omega arith);
      })

pub and_at-IsLogical :
    (w : Width) (m : Machine) (x y : ℕ)
    → let (m', z) = and_at w m x y in IsLogical w m m' (λ k. min (bit k x) (bit k y)) z
unfolding and_at
and_at-IsLogical w m x y = IsLogical-of_digits w m (bit_and x y) _ (λ k. bit-bit_and k x y)

pub or_at-IsLogical :
    (w : Width) (m : Machine) (x y : ℕ)
    → let (m', z) = or_at w m x y in IsLogical w m m' (λ k. max (bit k x) (bit k y)) z
unfolding or_at
or_at-IsLogical w m x y = IsLogical-of_digits w m (bit_or x y) _ (λ k. bit-bit_or k x y)

pub xor_at-IsLogical :
    (w : Width) (m : Machine) (x y : ℕ)
    → let (m', z) = xor_at w m x y in IsLogical w m m' (λ k. (bit k x + bit k y) % 2) z
unfolding xor_at
xor_at-IsLogical w m x y = IsLogical-of_digits w m (bit_xor x y) _ (λ k. bit-bit_xor k x y)
