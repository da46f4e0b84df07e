-- ===== src/Bitscan/Reverse.antt =====
-- `bsr` of native/blink/blink/bitscan.c finds the highest digit.
use native.Mathlib.Nat.{div-eq_of_lt-le, one-le-pow, div-le_self, pow-suc}
use atua_computer.Base.{
  holds_below, holds_below_lem, bit, ℕ, zero, suc, ◌+◌, ◌-◌, ◌*◌, ◌/◌, ◌%◌, ◌^◌, ◌≤◌, ◌<◌, ◌≡◌, ◌⊎◌,
  inl, inr, refl, sym, ◌∙◌, ap, subst, arith, ◌|||◌, ◌>>>◌, ◌==◌, ltb, true, Bool, get_or, ==_iff,
  Bool-cases,
}
use atua_computer.Bits.{bit-bit_or, bit_ext, bit_or-lt}
use atua_computer.Bits.Powers.{digit_right}
use atua_computer.Bits.Place.{bit_above, bit_complement}
use atua_computer.Bitscan.{bsr, smear, k_debruijn}

-- `k` is the highest digit, and the `a` digits from there down are ones.
record Smeared (k a x : ℕ) : Type 0 where
  below : x < 2 ^ suc k
  ones : (j : ℕ) → j ≤ k → k < j + a → bit j x ≡ 1

within : (k j a : ℕ) → (k < j + a) ⊎ (j + a ≤ k)
within k j a = elim (Bool-cases (ltb k (j + a))) [
  | inl less ↦ inl (ground (arith, less))
  | inr more ↦ inr (ground (arith, more))
]

Smeared-start : (k x : ℕ) → 2 ^ k ≤ x → x < 2 ^ suc k → Smeared k 1 x
Smeared-start k x least less = record {
  below = less;
  ones = λ j le near.
      let top : k ≡ j = omega (arith, le, near) in
      ap (λ t. bit t x) (sym top)
      ∙ ap (λ (t : ℕ). t % 2)
          (let one : x / 2 ^ k ≡ 1 =
              div-eq_of_lt-le (2 ^ k) (omega arith) (omega (arith, pow-suc 2 k)) in
            one);
}

Smeared-step : (k a x : ℕ) → Smeared k a x → Smeared k (a + a) (x ||| (x >>> a))
Smeared-step k a x h = record {
  below = bit_or-lt (suc k) x (x >>> a) h.below (omega (arith, h.below, div-le_self x (2 ^ a)));
  ones = λ j le near. elim (within k j a) [
    | inl close ↦ omega (arith, bit-bit_or j x (x >>> a), h.ones j le close)
    | inr far ↦ omega (
      arith,
      bit-bit_or j x (x >>> a),
      digit_right a j x,
      ap (λ t. bit t x) (let e : a + j ≡ j + a = omega arith in e),
      h.ones (j + a) far (omega (arith, near)),
    )
  ];
}

ones_digit : (n j : ℕ) → j < n → bit j (2 ^ n - 1) ≡ 1
ones_digit n j less =
    ap (bit j) (let e : 2 ^ n - 1 ≡ 2 ^ n - 1 - 0 = omega arith in e)
    ∙ bit_complement n j 0 less (one-le-pow n 2 (omega arith))
    ∙ ap (λ t. 1 - t) (bit_above 0 j 0 (omega arith) (omega arith))

all_ones : (k x : ℕ) → k < 64 → Smeared k 64 x → x ≡ 2 ^ suc k - 1
all_ones k x small h = bit_ext x (2 ^ suc k - 1) λ j. elim (within j k 1) [
  | inl le ↦
      h.ones j (omega (arith, le)) (omega (arith, small))
      ∙ sym (ones_digit (suc k) j (omega (arith, le)))
  | inr gt ↦
      bit_above (suc k) j x h.below (omega (arith, gt))
      ∙ sym (
          bit_above (suc k) j (2 ^ suc k - 1) (omega (arith, one-le-pow (suc k) 2))
            (omega (arith, gt)))
]

-- The highest digit of a number.
pub highest : (n x : ℕ) → 0 < x → x < 2 ^ n → (k : ℕ) × (k < n) × (2 ^ k ≤ x) × (x < 2 ^ suc k)
highest zero x some_x less = absurd (omega (arith, less, some_x))
highest (suc n) x some_x less = elim (Bool-cases (ltb x (2 ^ n))) [
  | inl low ↦
      let (k, a, b, c) = highest n x some_x (ground (arith, low)) in (k, omega (arith, a), b, c)
  | inr high ↦ (n, omega arith, ground (arith, high), less)
]

-- The table gives the position for each number of ones.
looked_up : ℕ → Bool
looked_up k = get_or k_debruijn (((2 ^ suc k - 1) * 0x03f7_9d71_b4cb_0a89 % 2 ^ 64) >>> 58) 0 == k

looked_up_all : holds_below looked_up 64 ≡ true
unfolding looked_up holds_below
looked_up_all = refl

smear-ones : (k x : ℕ) → k < 64 → 2 ^ k ≤ x → x < 2 ^ suc k → smear x ≡ 2 ^ suc k - 1
smear-ones k x small least less =
    let x1 = Smeared-step k 1 x (Smeared-start k x least less) in
    let x2 = Smeared-step k 2 _ x1 in
    let x4 = Smeared-step k 4 _ x2 in
    let x8 = Smeared-step k 8 _ x4 in
    let x16 = Smeared-step k 16 _ x8 in all_ones k (smear x) small (Smeared-step k 32 _ x16)

bsr-top : (k x : ℕ) → k < 64 → 2 ^ k ≤ x → x < 2 ^ suc k → bsr x ≡ k
unfolding bsr looked_up
bsr-top k x small least less =
    ap (λ (t : ℕ). get_or k_debruijn ((t * 0x03f7_9d71_b4cb_0a89 % 2 ^ 64) >>> 58) 0)
      (smear-ones k x small least less)
    ∙ (==_iff _ _).0 (holds_below_lem looked_up 64 looked_up_all k small)

-- For a word that is not 0, `bsr` is the place of its highest digit.
pub bsr_lem : (x : ℕ) → 0 < x → x < 2 ^ 64 → (bsr x < 64) × (2 ^ bsr x ≤ x) × (x < 2 ^ suc (bsr x))
bsr_lem x some_x fits =
    let (k, small, least, less) = highest 64 x some_x fits in
    subst (λ t. (t < 64) × (2 ^ t ≤ x) × (x < 2 ^ suc t)) (sym (bsr-top k x small least less))
      (small, least, less)
