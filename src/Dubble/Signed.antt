-- ===== src/Dubble/Signed.antt =====
-- `DubbleImul` of native/blink/blink/divmul.c on signed words.
use native.Mathlib.Nat.{mul-le-mul}
use native.Mathlib.Decide.{ℕ_discrete}
use atua_computer.Base.{
  if_equal, if_unequal, bit_xor, negsuc, pos, sub_ℕ, ◌>>>◌, ℕ, suc, ◌-◌, ◌*◌, ◌%◌, ◌^◌, ◌<◌, ◌≤◌,
  ◌≡◌, sym, ap, ap₂, ◌∙◌, arith, if◌then◌else◌, ltb, ◌==◌, Bool-cases, inl, inr, ℤ, ◌*ℤ◌, signed,
  w64, subst,
}
use atua_computer.Dubble.{dubble_mul, dubble_imul, dubble_neg}
use atua_computer.Dubble.Laws.{value, IsDubble, dubble_mul-value, dubble_neg-value}

-- A signed integer as a pattern of 128 bits.
abbrev pub pattern128 : ℤ → ℕ
pattern128 (pos n) = n % 2 ^ 128
pattern128 (negsuc n) = 2 ^ 128 - 1 - n % 2 ^ 128

-- The distance of a signed word from 0.
abbrev magnitude : ℕ → ℕ
magnitude a = if a >>> 63 == 0 then a else (2 ^ 64 - a) % 2 ^ 64

pattern_minus : (m : ℕ) → m ≤ 2 ^ 127 → pattern128 (sub_ℕ 0 m) ≡ (2 ^ 128 - m) % 2 ^ 128
pattern_minus m h = ground arith

pattern_plus : (m : ℕ) → m ≤ 2 ^ 127 → pattern128 (sub_ℕ m 0) ≡ m
pattern_plus m h = ground arith

product_bound : (a b : ℕ) → a ≤ 2 ^ 63 → b ≤ 2 ^ 63 → a * b ≤ 2 ^ 127
product_bound a b p q =
    let bound : a * b ≤ 2 ^ 63 * 2 ^ 63 =
      mul-le-mul {n₁ = a} {m₁ = b} {n₂ = 2 ^ 63} {m₂ = 2 ^ 63} p q in
    omega (arith, bound)

pub IsDubble-mul : (a b : ℕ) → IsDubble (dubble_mul a b)
unfolding dubble_mul
IsDubble-mul a b = record { lo_fits = omega arith; hi_fits = omega arith }

pub IsDubble-imul : (a b : ℕ) → IsDubble (dubble_imul a b)
unfolding dubble_imul dubble_neg
IsDubble-imul a b = elim (ℕ_discrete (bit_xor (a >>> 63) (b >>> 63)) 0) [
  | yes same ↦
      subst IsDubble (sym (if_equal (bit_xor (a >>> 63) (b >>> 63)) 0 _ _ same)) (IsDubble-mul _ _)
  | no differ ↦
      subst IsDubble (sym (if_unequal (bit_xor (a >>> 63) (b >>> 63)) 0 _ _ differ))
        (record { lo_fits = omega arith; hi_fits = omega arith })
]

data Sign (a : ℕ) : Type 0 where
  plus : a >>> 63 ≡ 0 → magnitude a ≡ a → a ≤ 2 ^ 63 → signed w64 a ≡ pos a → Sign a
  minus :
      (n : ℕ)
      → a >>> 63 ≡ 1
      → magnitude a ≡ suc n
      → suc n ≤ 2 ^ 63
      → signed w64 a ≡ negsuc n
      → Sign a

sign : (a : ℕ) → a < 2 ^ 64 → Sign a
unfolding signed
sign a h = elim (Bool-cases (ltb a (2 ^ 63))) [
  | inl low ↦ plus (ground arith) (ground arith) (ground arith) (ground arith)
  | inr high ↦ minus (2 ^ 64 - 1 - a) (ground arith) (ground arith) (ground arith) (ground arith)
]

module _ (a b : ℕ) where
  imul-same :
      bit_xor (a >>> 63) (b >>> 63) ≡ 0 → dubble_imul a b ≡ dubble_mul (magnitude a) (magnitude b)
  unfolding dubble_imul
  imul-same e = if_equal (bit_xor (a >>> 63) (b >>> 63)) 0 _ _ e

  imul-differ :
      bit_xor (a >>> 63) (b >>> 63) ≡ 1
      → dubble_imul a b ≡ dubble_neg (dubble_mul (magnitude a) (magnitude b))
  unfolding dubble_imul
  imul-differ e =
      if_unequal (bit_xor (a >>> 63) (b >>> 63)) 0 _ _ (λ z. absurd (omega (arith, e, z)))

-- The pattern of a product by the magnitudes of its factors.
module _ (m n : ℕ) (p : m ≤ 2 ^ 63) (q : n ≤ 2 ^ 63) where
  positive : (x y : ℤ) → x *ℤ y ≡ sub_ℕ (m * n) 0 → m * n ≡ pattern128 (x *ℤ y)
  positive x y e = sym (pattern_plus (m * n) (product_bound m n p q)) ∙ ap pattern128 (sym e)

  opposed : (x y : ℤ) → x *ℤ y ≡ sub_ℕ 0 (m * n) → (2 ^ 128 - m * n) % 2 ^ 128 ≡ pattern128 (x *ℤ y)
  opposed x y e = sym (pattern_minus (m * n) (product_bound m n p q)) ∙ ap pattern128 (sym e)

  value-mul :
      (a b : ℕ)
      → magnitude a ≡ m
      → magnitude b ≡ n
      → value (dubble_mul (magnitude a) (magnitude b)) ≡ m * n
  value-mul a b e f =
      ap₂ (λ s t. value (dubble_mul s t)) e f ∙ dubble_mul-value m n (omega arith) (omega arith)

  value-neg-mul :
      (a b : ℕ)
      → magnitude a ≡ m
      → magnitude b ≡ n
      → value (dubble_neg (dubble_mul (magnitude a) (magnitude b))) ≡ (2 ^ 128 - m * n) % 2 ^ 128
  value-neg-mul a b e f =
      dubble_neg-value (dubble_mul (magnitude a) (magnitude b))
        (IsDubble-mul (magnitude a) (magnitude b))
      ∙ ap (λ t. (2 ^ 128 - t) % 2 ^ 128) (value-mul a b e f)

pos-pos : (m n : ℕ) → pos m *ℤ pos n ≡ sub_ℕ (m * n) 0
unfolding ◌*ℤ◌
pos-pos m n = ap₂ sub_ℕ (omega arith) (omega arith)

pos-neg : (m n : ℕ) → pos m *ℤ negsuc n ≡ sub_ℕ 0 (m * suc n)
unfolding ◌*ℤ◌
pos-neg m n = ap₂ sub_ℕ (omega arith) (omega arith)

neg-pos : (m n : ℕ) → negsuc m *ℤ pos n ≡ sub_ℕ 0 (suc m * n)
unfolding ◌*ℤ◌
neg-pos m n = ap₂ sub_ℕ (omega arith) (omega arith)

neg-neg : (m n : ℕ) → negsuc m *ℤ negsuc n ≡ sub_ℕ (suc m * suc n) 0
unfolding ◌*ℤ◌
neg-neg m n = ap₂ sub_ℕ (omega arith) (omega arith)

-- `DubbleImul` is the exact product of two signed 64-bit words, as a pattern of 128 bits.
pub dubble_imul-value :
    (a b : ℕ)
    → a < 2 ^ 64
    → b < 2 ^ 64
    → value (dubble_imul a b) ≡ pattern128 (signed w64 a *ℤ signed w64 b)
dubble_imul-value a b ha hb = elim (sign a ha) [
  | plus s m l e ↦ elim (sign b hb) [
    | plus s' m' l' e' ↦
        ap value (imul-same a b (ap₂ bit_xor s s'))
        ∙ value-mul a b l l' a b m m'
        ∙ positive a b l l' _ _ (ap₂ (λ x y. x *ℤ y) e e' ∙ pos-pos a b)
    | minus n' s' m' l' e' ↦
        ap value (imul-differ a b (ap₂ bit_xor s s'))
        ∙ value-neg-mul a (suc n') l l' a b m m'
        ∙ opposed a (suc n') l l' _ _ (ap₂ (λ x y. x *ℤ y) e e' ∙ pos-neg a n')
  ]
  | minus n s m l e ↦ elim (sign b hb) [
    | plus s' m' l' e' ↦
        ap value (imul-differ a b (ap₂ bit_xor s s'))
        ∙ value-neg-mul (suc n) b l l' a b m m'
        ∙ opposed (suc n) b l l' _ _ (ap₂ (λ x y. x *ℤ y) e e' ∙ neg-pos n b)
    | minus n' s' m' l' e' ↦
        ap value (imul-same a b (ap₂ bit_xor s s'))
        ∙ value-mul (suc n) (suc n') l l' a b m m'
        ∙ positive (suc n) (suc n') l l' _ _ (ap₂ (λ x y. x *ℤ y) e e' ∙ neg-neg n n')
  ]
]
