-- ===== src/Alu/Status/Rotated.antt =====
-- What the flag word holds after `RotateFlags`: CF and OF, and all else as before.
use atua_computer.Base.{
  ℕ, ◌*◌, ◌^◌, ◌<◌, min, max, ◌≡◌, ◌≢◌, ◌||◌, refl, arith, bit, true, ◌==◌, holds_below,
  holds_below_lem, bit_and, bit_or,
}
use atua_computer.Bits.{bit-bit_and, bit-bit_or}
use atua_computer.Bits.Place.{bit_place, bit-lt}
use atua_computer.Machine.{Machine, Outcome}
use atua_computer.Alu.Status.{rotate_flags}

-- CF and OF are given, the result is `z`, and the other flags and the registers stay.
pub record IsRotated (m : Machine) (o : Outcome) (z cf of : ℕ) : Type 0 where
  pub result : o.1 ≡ z
  pub carry : bit 0 o.0.flags ≡ cf
  pub overflow : bit 11 o.0.flags ≡ of
  pub others : (k : ℕ) → k < 32 → k ≢ 0 → k ≢ 11 → bit k o.0.flags ≡ bit k m.flags
  pub registers : o.0.weg ≡ m.weg

kept_table : holds_below (λ k. (k == 0) || (k == 11) || (bit k 0xffff_f7fe == 1)) 32 ≡ true
unfolding holds_below
kept_table = refl

kept_bit : (k : ℕ) → k < 32 → k ≢ 0 → k ≢ 11 → bit k 0xffff_f7fe ≡ 1
kept_bit k h h0 h11 = ground (
  arith,
  holds_below_lem (λ k. (k == 0) || (k == 11) || (bit k 0xffff_f7fe == 1)) 32 kept_table k h,
)

module _ (m : Machine) (z cf of : ℕ) (hcf : cf < 2) (hof : of < 2) where
  bit-flags :
      (k : ℕ)
      → bit k (rotate_flags m z cf of).0.flags
        ≡ max
            (min (bit k m.flags) (bit k 0xffff_f7fe))
            (max (bit k (cf * 2 ^ 0)) (bit k (of * 2 ^ 11)))
  unfolding rotate_flags
  bit-flags k = omega (
    arith,
    bit-bit_or k (bit_and m.flags 0xffff_f7fe) (bit_or (cf * 2 ^ 0) (of * 2 ^ 11)),
    bit-bit_and k m.flags 0xffff_f7fe,
    bit-bit_or k (cf * 2 ^ 0) (of * 2 ^ 11),
  )

  pub rotate_flags-IsRotated : IsRotated m (rotate_flags m z cf of) z cf of
  rotate_flags-IsRotated = record {
    result = unfold rotate_flags in refl;
    carry = omega (arith, bit-flags 0);
    overflow = omega (arith, bit-flags 11);
    others = λ k h h0 h11. ground (
      arith,
      bit-flags k,
      kept_bit k h h0 h11,
      bit_place 0 k cf hcf,
      bit_place 11 k of hof,
      bit-lt k m.flags,
    );
    registers = unfold rotate_flags in refl;
  }
