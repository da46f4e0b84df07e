-- ===== src/Bits/Masks.antt =====
-- Masks: how `&` and `|` combine, for bits that an entry of a page table holds.
use atua_computer.Base.{
  zero, suc, min, ◌+◌, ◌*◌, ◌/◌, ◌-◌, ◌%◌, ◌^◌, ◌<◌, subst, ap, ◌∙◌, ℕ, bit_and, bit_or, ◌≡◌, arith,
}
use native.Mathlib.Nat.{pow-suc, div-one, div-eq_of_lt}
use atua_computer.Bits.Step.{bit_and-IsDigitwise}
use atua_computer.Bits.{
  div-two-pow-suc, bit_and_comm, bit_and_mask, zero-bit_and, bit_ext, bit-bit_and, bit-bit_or,
}

pub bit_and_assoc : (a b c : ℕ) → bit_and (bit_and a b) c ≡ bit_and a (bit_and b c)
bit_and_assoc a b c = bit_ext _ _ λ k. omega (
  arith,
  bit-bit_and k (bit_and a b) c,
  bit-bit_and k a b,
  bit-bit_and k a (bit_and b c),
  bit-bit_and k b c,
)

pub bit_and-bit_or : (a b c : ℕ) → bit_and (bit_or a b) c ≡ bit_or (bit_and a c) (bit_and b c)
bit_and-bit_or a b c = bit_ext _ _ λ k. omega (
  arith,
  bit-bit_and k (bit_or a b) c,
  bit-bit_or k a b,
  bit-bit_or k (bit_and a c) (bit_and b c),
  bit-bit_and k a c,
  bit-bit_and k b c,
)

-- A mask of high places reads the high digits only.
pub bit_and_high : (n x b : ℕ) → bit_and x (b * 2 ^ n) ≡ bit_and (x / 2 ^ n) b * 2 ^ n
bit_and_high zero x b =
    let whole : b * 2 ^ 0 ≡ b = omega arith in rw (div-one x, whole) (omega arith)
bit_and_high (suc n) x b =
    let doubled = ap (λ (t : ℕ). b * t) (pow-suc 2 n) in
    let half : b * 2 ^ suc n / 2 ≡ b * 2 ^ n = omega (arith, doubled) in
    let even : b * 2 ^ suc n % 2 ≡ 0 = omega (arith, doubled) in
    let lower = bit_and-IsDigitwise x (b * 2 ^ suc n) in
    let upper = bit_and_high n (x / 2) b in
    let again = ap (λ (t : ℕ). bit_and t b * 2 ^ n) (div-two-pow-suc x n) in
    let last = ap (λ (t : ℕ). bit_and (x / 2 ^ suc n) b * t) (pow-suc 2 n) in
    omega (
      arith,
      even,
      upper,
      again,
      last,
      subst
          (λ t. bit_and x (b * 2 ^ suc n) ≡ bit_and (x / 2) t * 2 + min (x % 2) (b * 2 ^ suc n % 2))
          half lower,
    )

-- A multiple of `2 ^ n` and a number below it have no digit in common.
pub high_bit_and_low : (n q m : ℕ) → m < 2 ^ n → bit_and (q * 2 ^ n) m ≡ 0
high_bit_and_low n q m small =
    let flat : m / 2 ^ n ≡ 0 = div-eq_of_lt small in
    omega (
      arith,
      bit_and_comm (q * 2 ^ n) m,
      bit_and_high n m q,
      ap (λ (t : ℕ). bit_and t q * 2 ^ n) flat,
      ap (λ (t : ℕ). t * 2 ^ n) (zero-bit_and q),
    )

-- The field of `w` digits from place `n`.
pub bit_and_field : (n w x : ℕ) → bit_and x ((2 ^ w - 1) * 2 ^ n) ≡ x / 2 ^ n % 2 ^ w * 2 ^ n
bit_and_field n w x =
    bit_and_high n x (2 ^ w - 1) ∙ ap (λ (t : ℕ). t * 2 ^ n) (bit_and_mask w (x / 2 ^ n))
