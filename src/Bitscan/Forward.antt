-- ===== src/Bitscan/Forward.antt =====
-- `bsf` of native/blink/blink/bitscan.c finds the lowest digit.
use atua_computer.Bits.{zero-bit_and}
use atua_computer.Bits.Step.{bit_and-IsDigitwise}
use native.Mathlib.Nat.{mul_assoc, pow-suc}
use atua_computer.Base.{
  holds_below, holds_below_lem, ℕ, zero, suc, ◌+◌, ◌-◌, ◌*◌, ◌/◌, ◌%◌, ◌^◌, ◌<◌, ◌≡◌, inl, inr,
  refl, sym, ◌∙◌, ap, subst, arith, bit_and, ◌==◌, true, Bool, ==_iff, Bool-cases,
}
use atua_computer.Bitscan.{bsf, single_bit}

-- A number and its complement share no digit.
complement : (n m : ℕ) → m < 2 ^ n → bit_and m (2 ^ n - 1 - m) ≡ 0
complement zero m less = let e : m ≡ 0 = omega arith in rw e (zero-bit_and 0)
complement (suc n) m less =
    let half : (2 ^ suc n - 1 - m) / 2 ≡ 2 ^ n - 1 - m / 2 = omega (arith, pow-suc 2 n) in
    let rest = complement n (m / 2) (omega (arith, pow-suc 2 n)) in
    omega (
      arith,
      bit_and-IsDigitwise m (2 ^ suc n - 1 - m),
      ap (bit_and (m / 2)) half,
      rest,
      pow-suc 2 n,
    )

-- What a number and its negative share is the lowest digit.
data Lowest (n x : ℕ) : Type 0 where
  lowest : (k m : ℕ) → k < n → x ≡ (2 * m + 1) * 2 ^ k → bit_and x (2 ^ n - x) ≡ 2 ^ k → Lowest n x

Lowest-odd : (n x : ℕ) → x < 2 ^ suc n → x % 2 ≡ 1 → Lowest (suc n) x
Lowest-odd n x less odd =
    let half : (2 ^ suc n - x) / 2 ≡ 2 ^ n - 1 - x / 2 = omega (arith, pow-suc 2 n) in
    lowest 0 (x / 2) (omega arith) (omega arith) (
      omega (
        arith,
        bit_and-IsDigitwise x (2 ^ suc n - x),
        ap (bit_and (x / 2)) half,
        complement n (x / 2) (omega (arith, pow-suc 2 n)),
        pow-suc 2 n,
      ))

Lowest-even : (n x : ℕ) → x < 2 ^ suc n → x % 2 ≡ 0 → Lowest n (x / 2) → Lowest (suc n) x
Lowest-even n x less even (lowest k m few e shared) =
    let half : (2 ^ suc n - x) / 2 ≡ 2 ^ n - x / 2 = omega (arith, pow-suc 2 n) in
    let double : x ≡ x / 2 * 2 = omega (arith, even) in
    lowest (suc k) m (omega (arith, few))
      (double
        ∙ ap (λ t. t * 2) e
        ∙ mul_assoc (2 * m + 1) (2 ^ k) 2
        ∙ ap (λ t. (2 * m + 1) * t) (sym (pow-suc 2 k)))
      (omega (
        arith,
        bit_and-IsDigitwise x (2 ^ suc n - x),
        ap (bit_and (x / 2)) half,
        shared,
        pow-suc 2 n,
        pow-suc 2 k,
        even,
      ))

first_one : (n x : ℕ) → 0 < x → x < 2 ^ n → Lowest n x
first_one zero x some_x less = absurd (omega (arith, some_x, less))
first_one (suc n) x some_x less = elim (Bool-cases (x % 2 == 0)) [
  | inl even ↦
      Lowest-even n x less (ground (arith, even))
        (first_one n (x / 2) (ground (arith, even)) (omega (arith, pow-suc 2 n)))
  | inr odd ↦ Lowest-odd n x less (ground (arith, odd))
]

searched : ℕ → Bool
searched k = single_bit (2 ^ k) == k

searched_all : holds_below searched 64 ≡ true
unfolding searched holds_below single_bit
searched_all = refl

-- For a word that is not 0, `bsf` is the place of its lowest digit: the word is an odd multiple of
-- its power of 2.
pub bsf_lem :
    (x : ℕ) → 0 < x → x < 2 ^ 64 → (bsf x < 64) × ((m : ℕ) × (x ≡ (2 * m + 1) * 2 ^ bsf x))
unfolding bsf searched
bsf_lem x some_x fits = elim (first_one 64 x some_x fits) [
  | lowest k m few e shared ↦
      let place : bsf x ≡ k =
        ap (λ t. single_bit (bit_and x t))
          (let small : (2 ^ 64 - x) % 2 ^ 64 ≡ 2 ^ 64 - x = omega (arith, some_x) in small)
        ∙ ap single_bit shared
        ∙ (==_iff _ _).0 (holds_below_lem searched 64 searched_all k few) in
      subst (λ t. (t < 64) × ((i : ℕ) × (x ≡ (2 * i + 1) * 2 ^ t))) (sym place) (few, (m, e))
]
