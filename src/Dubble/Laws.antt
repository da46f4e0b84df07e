-- ===== src/Dubble/Laws.antt =====
-- The 128-bit helpers of native/blink/blink/divmul.c against exact arithmetic.
use native.Mathlib.Nat.{mul-le-mul}
use atua_computer.Base.{
  ℕ, ◌+◌, ◌-◌, ◌*◌, ◌/◌, ◌%◌, ◌^◌, ◌<◌, ◌≤◌, ◌≡◌, sym, ap₂, ◌∙◌, subst, arith, bit_and, true, ◌↔◌,
  bit_or,
}
use atua_computer.Dubble.{Dubble, dubble_mul, dubble_neg, dubble_shl, dubble_shr, dubble_lte}
use atua_computer.Bits.{bit_or-lt, bit_or_comm, bit_and_mask, bit_or_fields}

-- The number that the two words make.
abbrev pub value : Dubble → ℕ
value x = x.lo + x.hi * 2 ^ 64

pub record IsDubble (x : Dubble) : Type 0 where
  pub lo_fits : x.lo < 2 ^ 64
  pub hi_fits : x.hi < 2 ^ 64

low_half : (a : ℕ) → bit_and a 0xffff_ffff ≡ a % 2 ^ 32
low_half a = bit_and_mask 32 a

half_product : (a b : ℕ) → a < 2 ^ 32 → b < 2 ^ 32 → a * b ≤ 0xffff_ffff * 0xffff_ffff
half_product a b p q =
    mul-le-mul {n₁ = a} {m₁ = b} {n₂ = 0xffff_ffff} {m₂ = 0xffff_ffff} (omega arith) (omega arith)

-- The steps of the schoolbook on the four partial products: no sum wraps.
schoolbook :
    (p00 p10 p01 p11 : ℕ)
    → p00 ≤ 0xffff_ffff * 0xffff_ffff
    → p10 ≤ 0xffff_ffff * 0xffff_ffff
    → p01 ≤ 0xffff_ffff * 0xffff_ffff
    → p11 ≤ 0xffff_ffff * 0xffff_ffff
    → (let x0 : ℕ = p00 % 2 ^ 64 in
        let t1 : ℕ = (x0 / 2 ^ 32 + p10) % 2 ^ 64 in
        let x2 : ℕ = (x0 % 2 ^ 32 + t1 % 2 ^ 32 * 2 ^ 32) % 2 ^ 64 in
        let t3 : ℕ = (x2 / 2 ^ 32 + p01) % 2 ^ 64 in
        (x2 % 2 ^ 32 + t3 % 2 ^ 32 * 2 ^ 32) % 2 ^ 64
        + ((t1 / 2 ^ 32 + t3 / 2 ^ 32) % 2 ^ 64 + p11) % 2 ^ 64 * 2 ^ 64)
      ≡ p00 + (p10 + p01) * 2 ^ 32 + p11 * 2 ^ 64
schoolbook p00 p10 p01 p11 b00 b10 b01 b11 = omega arith

expanded :
    (a1 a0 b1 b0 : ℕ)
    → (a1 * 2 ^ 32 + a0) * (b1 * 2 ^ 32 + b0)
      ≡ a0 * b0 + (a1 * b0 + b1 * a0) * 2 ^ 32 + a1 * b1 * 2 ^ 64
expanded a1 a0 b1 b0 = grind arith

halves_product :
    (a b : ℕ)
    → a * b
      ≡ a % 2 ^ 32 * (b % 2 ^ 32)
        + (a / 2 ^ 32 * (b % 2 ^ 32) + b / 2 ^ 32 * (a % 2 ^ 32)) * 2 ^ 32
        + a / 2 ^ 32 * (b / 2 ^ 32) * 2 ^ 64
halves_product a b =
    ap₂ (λ s t. s * t) (let e : a ≡ a / 2 ^ 32 * 2 ^ 32 + a % 2 ^ 32 = omega arith in e)
      (let e : b ≡ b / 2 ^ 32 * 2 ^ 32 + b % 2 ^ 32 = omega arith in e)
    ∙ expanded (a / 2 ^ 32) (a % 2 ^ 32) (b / 2 ^ 32) (b % 2 ^ 32)

-- `DubbleMul` is the exact product of two 64-bit words, in 128 bits.
pub dubble_mul-value : (a b : ℕ) → a < 2 ^ 64 → b < 2 ^ 64 → value (dubble_mul a b) ≡ a * b
unfolding dubble_mul
dubble_mul-value a b ha hb = simp low_half (
    schoolbook (a % 2 ^ 32 * (b % 2 ^ 32)) (a / 2 ^ 32 * (b % 2 ^ 32)) (b / 2 ^ 32 * (a % 2 ^ 32))
      (a / 2 ^ 32 * (b / 2 ^ 32))
      (half_product (a % 2 ^ 32) (b % 2 ^ 32) (omega arith) (omega arith))
      (half_product (a / 2 ^ 32) (b % 2 ^ 32) (omega arith) (omega arith))
      (half_product (b / 2 ^ 32) (a % 2 ^ 32) (omega arith) (omega arith))
      (half_product (a / 2 ^ 32) (b / 2 ^ 32) (omega arith) (omega arith))
    ∙ sym (halves_product a b))

-- `DubbleNeg` is negation modulo 2 to the 128.
pub dubble_neg-value :
    (x : Dubble) → IsDubble x → value (dubble_neg x) ≡ (2 ^ 128 - value x) % 2 ^ 128
unfolding dubble_neg
dubble_neg-value x ok = ground arith

pub dubble_shl-value : (x : Dubble) → IsDubble x → value (dubble_shl x) ≡ value x * 2 % 2 ^ 128
unfolding dubble_shl
dubble_shl-value x ok =
    let parts = bit_or_fields 1 (x.hi % 2 ^ 63) (x.lo / 2 ^ 63) (omega (arith, ok.lo_fits)) in
    let high : x.hi * 2 ^ 1 % 2 ^ 64 ≡ x.hi % 2 ^ 63 * 2 ^ 1 = omega arith in
    subst (λ t. x.lo * 2 ^ 1 % 2 ^ 64 + bit_or t (x.lo / 2 ^ 63) * 2 ^ 64 ≡ value x * 2 % 2 ^ 128)
      (sym high) (omega (arith, parts, ok.lo_fits, ok.hi_fits))

pub dubble_shr-value : (x : Dubble) → IsDubble x → value (dubble_shr x) ≡ value x / 2
unfolding dubble_shr
dubble_shr-value x ok =
    let parts = bit_or_fields 63 (x.hi % 2) (x.lo / 2 ^ 1) (omega (arith, ok.lo_fits)) in
    let high : x.hi * 2 ^ 63 % 2 ^ 64 ≡ x.hi % 2 * 2 ^ 63 = omega arith in
    subst (λ t. bit_or (x.lo / 2 ^ 1) t + x.hi / 2 ^ 1 * 2 ^ 64 ≡ value x / 2) (sym high)
      (omega (arith, parts, bit_or_comm (x.lo / 2 ^ 1) (x.hi % 2 * 2 ^ 63), ok.lo_fits, ok.hi_fits))

pub dubble_lte_lem :
    (a b : Dubble) → IsDubble a → IsDubble b → (dubble_lte a b ≡ true) ↔ (value a ≤ value b)
unfolding dubble_lte
dubble_lte_lem a b ha hb = ground arith

pub IsDubble-shl : (x : Dubble) → IsDubble x → IsDubble (dubble_shl x)
unfolding dubble_shl
IsDubble-shl x ok = record {
  lo_fits = omega arith;
  hi_fits =
      bit_or-lt 64 (x.hi * 2 ^ 1 % 2 ^ 64) (x.lo / 2 ^ 63) (omega arith)
        (omega (arith, ok.lo_fits));
}

pub IsDubble-shr : (x : Dubble) → IsDubble x → IsDubble (dubble_shr x)
unfolding dubble_shr
IsDubble-shr x ok = record {
  lo_fits =
      bit_or-lt 64 (x.lo / 2 ^ 1) (x.hi * 2 ^ 63 % 2 ^ 64) (omega (arith, ok.lo_fits))
        (omega arith);
  hi_fits = omega (arith, ok.hi_fits);
}

pub shr-small : (x : Dubble) → IsDubble x → (dubble_shr x).hi < 2 ^ 63
unfolding dubble_shr
shr-small x ok = omega (arith, ok.hi_fits)
