-- ===== src/Bitscan/Prefix.antt =====
-- `IsOpcodeEqual` of native/blink/blink/instruction.c compares the leading bytes of two places.
use native.Mathlib.Nat.{
  one-le-pow, mod-lt, add-mul, div-eq_of_lt-le, mul_assoc, mul-mod_left, zero-mod,
}
use atua_computer.Base.{
  bit, ℕ, zero, suc, ◌+◌, ◌-◌, ◌*◌, ◌/◌, ◌%◌, ◌^◌, ◌≤◌, ◌<◌, ◌≡◌, ◌≢◌, ◌↔◌, inl, inr, sym, ◌∙◌, ap,
  arith, bit_xor, ◌>>>◌, ◌==◌, ltb, leb, true, false, ◌||◌, if_unequal, Bool-cases, if◌then◌else◌,
}
use atua_computer.Bits.{bit-bit_xor, bit_ext, bit_xor-lt}
use atua_computer.Bits.Place.{bit_mod, bit_above, bit-lt}
use atua_computer.Bits.Powers.{two_pow_add}
use atua_computer.Bitscan.{bsf, is_opcode_equal}
use atua_computer.Bitscan.Forward.{bsf_lem}

-- Words agree in their low bits when `^` has none of these bits.
agree_of_xor : (n a b : ℕ) → bit_xor a b % 2 ^ n ≡ 0 → a % 2 ^ n ≡ b % 2 ^ n
agree_of_xor n a b none_differs = bit_ext _ _ λ k. elim (Bool-cases (ltb k n)) [
  | inl low ↦
      let less : k < n = ground (arith, low) in
      bit_mod n k a less
      ∙ omega (
        arith,
        bit-bit_xor k a b,
        bit_mod n k (bit_xor a b) less,
        ap (bit k) none_differs,
        bit_above 0 k 0 (omega arith) (omega arith),
        bit-lt k a,
        bit-lt k b,
      )
      ∙ sym (bit_mod n k b less)
  | inr high ↦
      bit_above n k (a % 2 ^ n) (mod-lt a (one-le-pow n 2 (omega arith))) (ground (arith, high))
      ∙ sym (
          bit_above n k (b % 2 ^ n) (mod-lt b (one-le-pow n 2 (omega arith)))
            (ground (arith, high)))
]

xor_of_agree : (n a b : ℕ) → a % 2 ^ n ≡ b % 2 ^ n → bit_xor a b % 2 ^ n ≡ 0
xor_of_agree n a b same = bit_ext _ _ λ k. elim (Bool-cases (ltb k n)) [
  | inl low ↦
      let less : k < n = ground (arith, low) in
      bit_mod n k (bit_xor a b) less
      ∙ omega (
        arith,
        bit-bit_xor k a b,
        sym (bit_mod n k a less) ∙ ap (bit k) same ∙ bit_mod n k b less,
        bit-lt k b,
      )
      ∙ sym (bit_above 0 k 0 (omega arith) (omega arith))
  | inr high ↦
      bit_above n k (bit_xor a b % 2 ^ n) (mod-lt (bit_xor a b) (one-le-pow n 2 (omega arith)))
        (ground (arith, high))
      ∙ sym (bit_above 0 k 0 (omega arith) (omega arith))
]

-- An odd multiple of a power of 2 has the digit of that power.
odd_digit : (k m : ℕ) → bit k ((2 * m + 1) * 2 ^ k) ≡ 1
odd_digit k m =
    let quotient : (2 * m + 1) * 2 ^ k / 2 ^ k ≡ 2 * m + 1 =
      div-eq_of_lt-le (2 ^ k) (omega arith)
        (omega (arith, add-mul (2 * m + 1) 1 (2 ^ k), one-le-pow k 2)) in
    ap (λ (t : ℕ). t % 2) quotient ∙ omega arith

multiple_low : (n k m : ℕ) → n ≤ k → (2 * m + 1) * 2 ^ k % 2 ^ n ≡ 0
multiple_low n k m le =
    let split : 2 ^ k ≡ 2 ^ (k - n) * 2 ^ n =
      ap (λ t. 2 ^ t) (let e : k ≡ k - n + n = omega arith in e) ∙ two_pow_add (k - n) n in
    ap (λ t. t % 2 ^ n)
      (ap (λ t. (2 * m + 1) * t) split ∙ sym (mul_assoc (2 * m + 1) (2 ^ (k - n)) (2 ^ n)))
    ∙ mul-mod_left ((2 * m + 1) * 2 ^ (k - n)) (2 ^ n)

multiple_high : (n k m : ℕ) → k < n → (2 * m + 1) * 2 ^ k % 2 ^ n ≢ 0
multiple_high n k m less none_left = absurd (
    omega (
      arith,
      sym (bit_mod n k ((2 * m + 1) * 2 ^ k) less)
          ∙ ap (bit k) none_left
          ∙ bit_above 0 k 0 (omega arith) (omega arith),
      odd_digit k m,
    ))

-- The test on a word that is not 0.
scanned : (n w : ℕ) → 0 < w → w < 2 ^ 64 → (leb n (bsf w >>> 3) ≡ true) ↔ (w % 2 ^ (8 * n) ≡ 0)
scanned n w some_w fits =
    let (small, (m, odd)) = bsf_lem w some_w fits in
    (
      λ far. ap (λ t. t % 2 ^ (8 * n)) odd ∙ multiple_low (8 * n) (bsf w) m (ground (arith, far)),
      λ none_left. elim (Bool-cases (leb n (bsf w >>> 3))) [
        | inl far ↦ far
        | inr near ↦ absurd (
            multiple_high (8 * n) (bsf w) m (ground (arith, near))
              (ap (λ t. t % 2 ^ (8 * n)) (sym odd) ∙ none_left))
      ],
    )

tested :
    (n w : ℕ)
    → 0 < n
    → w < 2 ^ 64
    → ((if n == 0 then false else (w == 0 || leb n (bsf w >>> 3))) ≡ true) ↔ (w % 2 ^ (8 * n) ≡ 0)
tested n zero some_n fits =
    let chosen =
      if_unequal n 0 false (0 == 0 || leb n (bsf 0 >>> 3)) (λ e. absurd (omega (arith, e))) in
    (λ yes_equal. zero-mod (2 ^ (8 * n)), λ none_left. chosen)
tested n (suc w) some_n fits =
    let some_bits : (suc w == 0) ≡ false = ground arith in
    let chosen =
      if_unequal n 0 false (suc w == 0 || leb n (bsf (suc w) >>> 3))
        (λ e. absurd (omega (arith, e)))
      ∙ ap (λ t. t || leb n (bsf (suc w) >>> 3)) some_bits in
    let both_ways = scanned n (suc w) (omega arith) fits in
    (λ yes_equal. both_ways.0 (sym chosen ∙ yes_equal), λ none_left. chosen ∙ both_ways.1 none_left)

-- For an instruction of 1 to 7 bytes that was decoded before, `IsOpcodeEqual` says whether the
-- places agree in that many bytes; their first eight bytes are words of 64 bits.
pub is_opcode_equal-prefix :
    (n a b : ℕ)
    → 0 < n
    → n ≤ 7
    → a < 2 ^ 64
    → b < 2 ^ 64
    → (is_opcode_equal n a b ≡ true) ↔ (a % 2 ^ (8 * n) ≡ b % 2 ^ (8 * n))
unfolding is_opcode_equal
is_opcode_equal-prefix n a b some_n few a_fits b_fits =
    let equal = tested n (bit_xor a b) some_n (bit_xor-lt 64 a b a_fits b_fits) in
    (
      λ yes_equal. agree_of_xor (8 * n) a b (equal.0 yes_equal),
      λ same. equal.1 (xor_of_agree (8 * n) a b same),
    )
