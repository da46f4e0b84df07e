-- ===== src/Alu/Status/Laws.antt =====
-- What the flag word holds after `AluFlags` and `RotateFlags`, bit by bit.
use atua_computer.Base.{
  ℕ, ◌/◌, ◌%◌, ◌^◌, ◌<◌, min, max, ◌&&&◌, ◌|||◌, ◌<<<◌, falsity, ◌≡◌, ◌≢◌, ◌||◌, refl, arith, bit,
  true, ◌==◌, holds_below, holds_below_lem,
}
use atua_computer.Bits.{
  bit-bit_and, bit-bit_or, bit_and_mask, bit_or_comm, bit_and_comm, bit_or_fields, zero-bit_or,
  bit_or-lt, bit_and-lt, bit_or-div,
}
use atua_computer.Bits.Place.{bit_place, bit_below, bit-lt}
use atua_computer.Machine.{Machine}
use atua_computer.Flags.{flags_cf, flags_zf, flags_sf, flags_of, flags_af}
use atua_computer.Alu.Status.{alu_flags}

-- The flags that `alu_flags` sets, each from its argument, and the lazy parity byte.
pub record HasStatus (f x af of cf sf : ℕ) : Type 0 where
  pub carry : bit 0 f ≡ cf
  pub auxiliary : bit 4 f ≡ af
  pub zero_result : bit 6 f ≡ falsity x
  pub sign : bit 7 f ≡ sf
  pub overflow : bit 11 f ≡ of
  pub parity : f / 2 ^ 24 ≡ x % 256

kept_table :
    holds_below
      (λ k. (k == 0) || (k == 4) || (k == 6) || (k == 7) || (k == 11) || (bit k 0x00ff_f72e == 1))
      24
    ≡ true
unfolding holds_below
kept_table = refl

kept_bit : (k : ℕ) → k < 24 → k ≢ 0 → k ≢ 4 → k ≢ 6 → k ≢ 7 → k ≢ 11 → bit k 0x00ff_f72e ≡ 1
kept_bit k h h0 h4 h6 h7 h11 = ground (
  arith,
  holds_below_lem
      (λ k. (k == 0) || (k == 4) || (k == 6) || (k == 7) || (k == 11) || (bit k 0x00ff_f72e == 1))
      24 kept_table k h,
)

falsity-lt : (x : ℕ) → falsity x < 2
falsity-lt x = ground arith

module _ (m : Machine) (x af of cf sf : ℕ) (haf : af < 2) (hof : of < 2) (hcf : cf < 2)
    (hsf : sf < 2) where
  abbrev low : ℕ
  low =
      (sf <<< flags_sf)
      ||| (cf <<< flags_cf)
      ||| (falsity x <<< flags_zf)
      ||| (of <<< flags_of)
      ||| (af <<< flags_af)

  abbrev word : ℕ
  word = low ||| ((x &&& 0xff) <<< 24)

  abbrev kept : ℕ
  kept = m.flags &&& 0x00ff_f72e

  bit-low :
      (k : ℕ)
      → bit k low
        ≡ max
            (max
              (max
                (max (bit k (sf <<< flags_sf)) (bit k (cf <<< flags_cf)))
                (bit k (falsity x <<< flags_zf)))
              (bit k (of <<< flags_of)))
            (bit k (af <<< flags_af))
  bit-low k = simp bit-bit_or

  low-lt : low < 2 ^ 24
  low-lt =
      bit_or-lt 24 _ _
        (bit_or-lt 24 _ _
          (bit_or-lt 24 _ _ (bit_or-lt 24 _ _ (omega arith) (omega arith))
            (omega (arith, falsity-lt x)))
          (omega arith))
        (omega arith)

  kept-lt : kept < 2 ^ 24
  kept-lt = rw (bit_and_comm m.flags 0x00ff_f72e) (bit_and-lt 24 0x00ff_f72e m.flags (omega arith))

  bit-flags :
      (k : ℕ)
      → k < 24
      → bit k (alu_flags m x af of cf sf).0.flags
        ≡ max (min (bit k m.flags) (bit k 0x00ff_f72e)) (bit k low)
  unfolding alu_flags
  bit-flags k h = omega (
    arith,
    bit-bit_or k kept word,
    bit-bit_and k m.flags 0x00ff_f72e,
    bit-bit_or k low ((x &&& 0xff) <<< 24),
    bit_below 24 k (x &&& 0xff) h,
  )

  alu_flags-parity : (alu_flags m x af of cf sf).0.flags / 2 ^ 24 ≡ x % 256
  unfolding alu_flags
  alu_flags-parity =
      let top : kept / 2 ^ 24 ≡ 0 = omega (arith, kept-lt) in
      let word_top : word / 2 ^ 24 ≡ x % 256 = omega (
        arith,
        bit_or_comm low ((x &&& 0xff) <<< 24),
        bit_or_fields 24 (x &&& 0xff) low low-lt,
        bit_and_mask 8 x,
        low-lt,
      ) in
      rw (bit_or-div 24 kept word, top, word_top) (zero-bit_or (x % 256))

  pub alu_flags-HasStatus : HasStatus (alu_flags m x af of cf sf).0.flags x af of cf sf
  alu_flags-HasStatus = record {
    carry = omega (arith, bit-flags 0 (omega arith), bit-low 0, falsity-lt x);
    auxiliary = omega (arith, bit-flags 4 (omega arith), bit-low 4, falsity-lt x);
    zero_result = omega (arith, bit-flags 6 (omega arith), bit-low 6, falsity-lt x);
    sign = omega (arith, bit-flags 7 (omega arith), bit-low 7, falsity-lt x);
    overflow = omega (arith, bit-flags 11 (omega arith), bit-low 11, falsity-lt x);
    parity = alu_flags-parity;
  }

  pub alu_flags_keeps :
      (k : ℕ)
      → k < 24
      → k ≢ 0
      → k ≢ 4
      → k ≢ 6
      → k ≢ 7
      → k ≢ 11
      → bit k (alu_flags m x af of cf sf).0.flags ≡ bit k m.flags
  alu_flags_keeps k h h0 h4 h6 h7 h11 = ground (
    arith,
    bit-flags k h,
    bit-low k,
    kept_bit k h h0 h4 h6 h7 h11,
    bit_place 7 k sf,
    bit_place 0 k cf,
    bit_place 6 k (falsity x) (falsity-lt x),
    bit_place 11 k of,
    bit_place 4 k af,
    bit-lt k m.flags,
  )
