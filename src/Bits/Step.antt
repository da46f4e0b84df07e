-- ===== src/Bits/Step.antt =====
-- The native operations stand for a recursion on binary digits with fuel. Here the fuel is
-- dropped, and each operation is seen to act on the lowest digits and on the halves apart.
use native.Mathlib.Decide.{ℕ_discrete}
use Prim.Native.Nat.{digits, bitwise, differ, bit_and-bitwise, bit_or-bitwise, bit_xor-bitwise}
use atua_computer.Base.{
  ℕ, zero, suc, ◌+◌, ◌*◌, ◌/◌, ◌%◌, ◌≤◌, ◌<◌, min, max, bit_and, bit_or, bit_xor, ◌≡◌, refl, ◌∙◌,
  arith,
}

-- An operation that acts digit by digit, as one equation.
abbrev pub IsDigitwise : (ℕ → ℕ → ℕ) → (ℕ → ℕ → ℕ) → Type 0
IsDigitwise f op = (a b : ℕ) → op a b ≡ op (a / 2) (b / 2) * 2 + f (a % 2) (b % 2)

module _ (z : ℕ → ℕ) (f : ℕ → ℕ → ℕ) where
  digits_spare : (n a b : ℕ) → a ≤ n → digits z f (suc n) a b ≡ digits z f n a b
  digits_spare zero zero b le = refl
  digits_spare (suc n) zero b le = refl
  digits_spare zero (suc a) b le = absurd (omega arith)
  digits_spare (suc n) (suc a) b le = rw (digits_spare n (suc a / 2) (b / 2) (omega arith))

  digits_enough : (n a b : ℕ) → a ≤ n → digits z f n a b ≡ bitwise z f a b
  digits_enough zero zero b le = refl
  digits_enough zero (suc a) b le = absurd (omega arith)
  digits_enough (suc n) a b le = elim (ℕ_discrete a (suc n)) [
    | yes last ↦ rw last refl
    | no earlier ↦ digits_spare n a b (omega arith) ∙ digits_enough n a b (omega arith)
  ]

  digitwise :
      (op : ℕ → ℕ → ℕ)
      → ((a b : ℕ) → op a b ≡ bitwise z f a b)
      → ((b : ℕ) → z b ≡ z (b / 2) * 2 + f 0 (b % 2))
      → IsDigitwise f op
  digitwise op meaning base zero b = omega (arith, meaning 0 b, meaning 0 (b / 2), base b)
  digitwise op meaning base (suc a) b = omega (
    arith,
    meaning (suc a) b,
    meaning (suc a / 2) (b / 2),
    digits_enough a (suc a / 2) (b / 2) (omega arith),
  )

pub bit_and-IsDigitwise : IsDigitwise min bit_and
bit_and-IsDigitwise = digitwise (λ y. 0) min bit_and bit_and-bitwise (λ b. omega arith)

pub bit_or-IsDigitwise : IsDigitwise max bit_or
bit_or-IsDigitwise = digitwise (λ y. y) max bit_or bit_or-bitwise (λ b. omega arith)

differ_of_bits : (a b : ℕ) → a < 2 → b < 2 → differ a b ≡ (a + b) % 2
differ_of_bits zero b p q = omega arith
differ_of_bits (suc zero) zero p q = refl
differ_of_bits (suc zero) (suc zero) p q = refl
differ_of_bits a (suc (suc b)) p q = absurd (omega arith)
differ_of_bits (suc (suc a)) b p q = absurd (omega arith)

pub bit_xor-IsDigitwise : IsDigitwise (λ x y. (x + y) % 2) bit_xor
bit_xor-IsDigitwise a b = omega (
  arith,
  digitwise (λ y. y) differ bit_xor bit_xor-bitwise (λ c. omega arith) a b,
  differ_of_bits (a % 2) (b % 2) (omega arith) (omega arith),
)
