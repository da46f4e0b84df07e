-- ===== src/Bits/Powers.antt =====
-- Shifts by a variable count: products and quotients of powers of two.
use native.Mathlib.Nat.{
  div-div-eq-div-mul, div-lt_iff_lt-mul, add-suc, add-zero, pow-suc, mul_assoc, mul-div-mul_right,
  one-le-pow,
}
use atua_computer.Base.{
  sym, subst, ◌∙◌, ap, ◌-◌, ◌≤◌, ◌<◌, ◌%◌, bit, ℕ, zero, suc, ◌+◌, ◌*◌, ◌/◌, ◌^◌, ◌≡◌, arith,
}

pub two_pow_add : (a b : ℕ) → 2 ^ (a + b) ≡ 2 ^ a * 2 ^ b
two_pow_add a zero = ground (arith, ap (λ (t : ℕ). 2 ^ t) (add-zero a))
two_pow_add a (suc b) =
    rw (add-suc a b, pow-suc 2 (a + b), pow-suc 2 b, two_pow_add a b) (mul_assoc (2 ^ a) (2 ^ b) 2)

-- `x << k >> n` is one shift to the right when `k` is the smaller.
pub shift_back : (q k x : ℕ) → x * 2 ^ k / 2 ^ (q + k) ≡ x / 2 ^ q
shift_back q k x = rw (two_pow_add q k) (mul-div-mul_right x (2 ^ q) (one-le-pow k 2 (omega arith)))

-- The bit that `k` steps to the left carry over the top is at place `n - k`, if there is one.
pub carried_in : (n k x : ℕ) → k ≤ n → bit n (x * 2 ^ k) ≡ bit (n - k) x
carried_in n k x h =
    let e : n ≡ n - k + k = omega arith in
    ap (λ t. t % 2) (ap (λ t. x * 2 ^ k / 2 ^ t) e ∙ shift_back (n - k) k x)

-- Digits of a word shifted to the right.
pub digit_right : (q j x : ℕ) → bit j (x / 2 ^ q) ≡ bit (q + j) x
digit_right q j x =
    ap (λ t. t % 2) (div-div-eq-div-mul x (2 ^ q) (2 ^ j) ∙ ap (λ t. x / t) (sym (two_pow_add q j)))

pub quotient_fits : (n q x : ℕ) → q ≤ n → x < 2 ^ n → x / 2 ^ q < 2 ^ (n - q)
quotient_fits n q x h lt =
    (div-lt_iff_lt-mul {x = x} {y = 2 ^ (n - q)} (one-le-pow q 2 (omega arith))).1
      (rw (← two_pow_add (n - q) q) (subst (λ t. x < 2 ^ t) e lt))
  where
    e : n ≡ n - q + q
    e = omega arith
