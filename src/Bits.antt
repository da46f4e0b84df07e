-- ===== src/Bits.antt =====
-- Laws of `&`, `|` and `^` at variables, bit by bit: each acts on the digits one at a time, and
-- two numbers with the same digits are equal.
pub mod Step
pub mod Place
pub mod Masks
pub mod Powers
pub mod Rotation
use atua_computer.Base.{
  subst, ℕ, zero, suc, ◌+◌, ◌-◌, ◌*◌, ◌/◌, ◌%◌, ◌^◌, ◌≤◌, ◌<◌, min, max, bit_and, bit_or, bit_xor,
  ◌≡◌, ◌⊎◌, refl, ap, ap₂, ◌∙◌, sym, arith, bit,
}
use atua_computer.Bits.Step.{bit_and-IsDigitwise, bit_or-IsDigitwise, bit_xor-IsDigitwise}
use Prim.Native.Nat.{bit_and-bitwise, bit_or-bitwise, bit_xor-bitwise}
use native.Mathlib.Nat.{
  pow-suc, div-div-eq-div-mul, mul_comm, div-eq_of_lt, div-one, one-le-pow, mod-add-div',
}

pub div-two-pow-suc : (a k : ℕ) → a / 2 ^ suc k ≡ a / 2 / 2 ^ k
div-two-pow-suc a k = rw (pow-suc 2 k, mul_comm (2 ^ k) 2) (sym (div-div-eq-div-mul a 2 (2 ^ k)))

pub mod-two-pow-suc : (a k : ℕ) → a % 2 ^ suc k ≡ a / 2 % 2 ^ k * 2 + a % 2
mod-two-pow-suc a k = omega (
  arith,
  mod-add-div' a (2 ^ suc k),
  mod-add-div' (a / 2) (2 ^ k),
  ap (λ (t : ℕ). t * 2 ^ suc k) (div-two-pow-suc a k),
  ap (λ (t : ℕ). a / 2 / 2 ^ k * t) (pow-suc 2 k),
)

-- Dividing by a power of two drops digits, so it commutes with a digitwise operation.
div_pow_of_step :
    (op : ℕ → ℕ → ℕ)
    → ((a b : ℕ) → op a b / 2 ≡ op (a / 2) (b / 2))
    → (k a b : ℕ) → op a b / 2 ^ k ≡ op (a / 2 ^ k) (b / 2 ^ k)
div_pow_of_step op half zero a b = div-one (op a b) ∙ ap₂ op (sym (div-one a)) (sym (div-one b))
div_pow_of_step op half (suc k) a b =
    rw (div-two-pow-suc (op a b) k, div-two-pow-suc a k, div-two-pow-suc b k, half a b)
      (div_pow_of_step op half k (a / 2) (b / 2))

pub bit_and-div : (k a b : ℕ) → bit_and a b / 2 ^ k ≡ bit_and (a / 2 ^ k) (b / 2 ^ k)
bit_and-div = div_pow_of_step bit_and (λ a b. omega (arith, bit_and-IsDigitwise a b))

pub bit_or-div : (k a b : ℕ) → bit_or a b / 2 ^ k ≡ bit_or (a / 2 ^ k) (b / 2 ^ k)
bit_or-div = div_pow_of_step bit_or (λ a b. omega (arith, bit_or-IsDigitwise a b))

pub bit_xor-div : (k a b : ℕ) → bit_xor a b / 2 ^ k ≡ bit_xor (a / 2 ^ k) (b / 2 ^ k)
bit_xor-div = div_pow_of_step bit_xor (λ a b. omega (arith, bit_xor-IsDigitwise a b))

-- Each digit of the result depends on the digits of the arguments at the same place.
pub bit-bit_and : (k a b : ℕ) → bit k (bit_and a b) ≡ min (bit k a) (bit k b)
bit-bit_and k a b = omega (arith, bit_and-div k a b, bit_and-IsDigitwise (a / 2 ^ k) (b / 2 ^ k))

pub bit-bit_or : (k a b : ℕ) → bit k (bit_or a b) ≡ max (bit k a) (bit k b)
bit-bit_or k a b = omega (arith, bit_or-div k a b, bit_or-IsDigitwise (a / 2 ^ k) (b / 2 ^ k))

pub bit-bit_xor : (k a b : ℕ) → bit k (bit_xor a b) ≡ (bit k a + bit k b) % 2
bit-bit_xor k a b = omega (arith, bit_xor-div k a b, bit_xor-IsDigitwise (a / 2 ^ k) (b / 2 ^ k))

-- Numbers with the same digits are equal.
bit_ext_fuel : (n a b : ℕ) → a ≤ n → b ≤ n → ((k : ℕ) → bit k a ≡ bit k b) → a ≡ b
bit_ext_fuel zero a b p q h = omega arith
bit_ext_fuel (suc n) a b p q h =
    omega (arith, low, bit_ext_fuel n (a / 2) (b / 2) (omega arith) (omega arith) high)
  where
    low : a % 2 ≡ b % 2
    low = omega (arith, h 0)

    high : (k : ℕ) → bit k (a / 2) ≡ bit k (b / 2)
    high k = omega (arith, h (suc k), div-two-pow-suc a k, div-two-pow-suc b k)

pub bit_ext : (a b : ℕ) → ((k : ℕ) → bit k a ≡ bit k b) → a ≡ b
bit_ext a b = bit_ext_fuel (max a b) a b (omega arith) (omega arith)

pub zero-bit_and : (b : ℕ) → bit_and 0 b ≡ 0
zero-bit_and b = bit_and-bitwise 0 b

pub zero-bit_or : (b : ℕ) → bit_or 0 b ≡ b
zero-bit_or b = bit_or-bitwise 0 b

pub zero-bit_xor : (b : ℕ) → bit_xor 0 b ≡ b
zero-bit_xor b = bit_xor-bitwise 0 b

-- A result has no more digits than its arguments.
pub bit_and-lt : (k a b : ℕ) → a < 2 ^ k → bit_and a b < 2 ^ k
bit_and-lt zero a b p = let e : a ≡ 0 = omega arith in rw e (omega (arith, zero-bit_and b))
bit_and-lt (suc k) a b p =
    let h : a / 2 < 2 ^ k = omega (arith, pow-suc 2 k) in
    omega (arith, pow-suc 2 k, bit_and-IsDigitwise a b, bit_and-lt k (a / 2) (b / 2) h)

pub bit_or-lt : (k a b : ℕ) → a < 2 ^ k → b < 2 ^ k → bit_or a b < 2 ^ k
bit_or-lt zero a b p q = let e : a ≡ 0 = omega arith in rw e (omega (arith, zero-bit_or b))
bit_or-lt (suc k) a b p q =
    let h : a / 2 < 2 ^ k = omega (arith, pow-suc 2 k) in
    let i : b / 2 < 2 ^ k = omega (arith, pow-suc 2 k) in
    omega (arith, pow-suc 2 k, bit_or-IsDigitwise a b, bit_or-lt k (a / 2) (b / 2) h i)

pub bit_xor-lt : (k a b : ℕ) → a < 2 ^ k → b < 2 ^ k → bit_xor a b < 2 ^ k
bit_xor-lt zero a b p q = let e : a ≡ 0 = omega arith in rw e (omega (arith, zero-bit_xor b))
bit_xor-lt (suc k) a b p q =
    let h : a / 2 < 2 ^ k = omega (arith, pow-suc 2 k) in
    let i : b / 2 < 2 ^ k = omega (arith, pow-suc 2 k) in
    omega (arith, pow-suc 2 k, bit_xor-IsDigitwise a b, bit_xor-lt k (a / 2) (b / 2) h i)

pub bit_and-zero : (n a : ℕ) → a ≤ n → bit_and a 0 ≡ 0
bit_and-zero zero a h = let e : a ≡ 0 = omega arith in rw e refl
bit_and-zero (suc n) a h =
    omega (arith, bit_and-IsDigitwise a 0, bit_and-zero n (a / 2) (omega arith))

-- A mask of `k` ones is the remainder by `2 ^ k`.
pub bit_and_mask : (k a : ℕ) → bit_and a (2 ^ k - 1) ≡ a % 2 ^ k
bit_and_mask zero a = omega (arith, bit_and-zero a a (omega arith))
bit_and_mask (suc k) a =
    let half : (2 ^ suc k - 1) / 2 ≡ 2 ^ k - 1 = omega (arith, pow-suc 2 k, one-le-pow k 2) in
    let step = bit_and-IsDigitwise a (2 ^ suc k - 1) in
    let ih : bit_and (a / 2) ((2 ^ suc k - 1) / 2) ≡ a / 2 % 2 ^ k =
      rw half (bit_and_mask k (a / 2)) in
    omega (arith, step, ih, mod-two-pow-suc a k, pow-suc 2 k, one-le-pow k 2)

pub bit_and_comm : (a b : ℕ) → bit_and a b ≡ bit_and b a
bit_and_comm a b = bit_ext _ _ λ k. omega (arith, bit-bit_and k a b, bit-bit_and k b a)

pub mask_bit_and : (k a : ℕ) → bit_and (2 ^ k - 1) a ≡ a % 2 ^ k
mask_bit_and k a = bit_and_comm (2 ^ k - 1) a ∙ bit_and_mask k a

pub bit_or_comm : (a b : ℕ) → bit_or a b ≡ bit_or b a
bit_or_comm a b = bit_ext _ _ λ k. omega (arith, bit-bit_or k a b, bit-bit_or k b a)

pub bit_or-zero : (a : ℕ) → bit_or a 0 ≡ a
bit_or-zero a = bit_or_comm a 0 ∙ zero-bit_or a

-- `|` of a multiple of `2 ^ k` and a number below it is their sum.
pub bit_or_fields : (k q r : ℕ) → r < 2 ^ k → bit_or (q * 2 ^ k) r ≡ q * 2 ^ k + r
bit_or_fields zero q r small =
    let none_left : r ≡ 0 = omega arith in rw none_left (omega (arith, bit_or-zero (q * 1)))
bit_or_fields (suc k) q r small =
    let doubled = ap (λ (t : ℕ). q * t) (pow-suc 2 k) in
    let upper = bit_or_fields k q (r / 2) (omega (arith, pow-suc 2 k)) in
    let lower = bit_or-IsDigitwise (q * 2 ^ suc k) r in
    let half : q * 2 ^ suc k / 2 ≡ q * 2 ^ k = omega (arith, doubled) in
    omega (
      arith,
      doubled,
      upper,
      subst (λ t. bit_or (q * 2 ^ suc k) r ≡ bit_or t (r / 2) * 2 + max (q * 2 ^ suc k % 2) (r % 2))
          half lower,
    )

bit_xor_comm : (a b : ℕ) → bit_xor a b ≡ bit_xor b a
bit_xor_comm a b = bit_ext _ _ λ k. omega (arith, bit-bit_xor k a b, bit-bit_xor k b a)

pub bit_xor-zero : (a : ℕ) → bit_xor a 0 ≡ a
bit_xor-zero a = bit_xor_comm a 0 ∙ zero-bit_xor a

-- Of two single bits, `^` is the sum without its carry.
pub xor_of_bits : (a b : ℕ) → a < 2 → b < 2 → bit_xor a b ≡ (a + b) % 2
xor_of_bits a b ha hb =
    let p : a / 2 ≡ 0 = omega arith in
    let q : b / 2 ≡ 0 = omega arith in
    bit_xor-IsDigitwise a b ∙ rw (p, q) (omega (arith, zero-bit_xor 0))

pub bit_and-one : (a : ℕ) → bit_and a 1 ≡ bit 0 a
bit_and-one a = bit_and_mask 1 a ∙ omega arith
