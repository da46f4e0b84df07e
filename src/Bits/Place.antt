-- ===== src/Bits/Place.antt =====
-- Single digits of shifted bits, complements and remainders, at a variable place.
use native.Mathlib.Nat.{pow-suc, pow-le-pow_right, div-eq_of_lt}
use atua_computer.Base.{ℕ, zero, suc, ◌-◌, ◌*◌, ◌/◌, ◌%◌, ◌^◌, ◌≤◌, ◌<◌, ◌≡◌, ap, arith, bit}
use atua_computer.Base.{◌==◌, if◌then◌else◌}
use atua_computer.Bits.{div-two-pow-suc, mod-two-pow-suc}

pub bit-suc : (k x : ℕ) → bit (suc k) x ≡ bit k (x / 2)
bit-suc k x = ap (λ (t : ℕ). t % 2) (div-two-pow-suc x k)

pub bit-zero : (x : ℕ) → bit 0 x ≡ x % 2
bit-zero x = omega arith

pub bit_above : (n k x : ℕ) → x < 2 ^ n → n ≤ k → bit k x ≡ 0
bit_above n k x h le = omega (
  arith,
  div-eq_of_lt {n = x} {m = 2 ^ k} (omega (arith, pow-le-pow_right {n = 2} (omega arith) le)),
)

-- A bit shifted to place `b` stands there and nowhere else.
pub bit_place : (b k v : ℕ) → v < 2 → bit k (v * 2 ^ b) ≡ (if k == b then v else 0)
bit_place zero zero v h = omega arith
bit_place zero (suc k) v h = ground (arith, bit_above 1 (suc k) v)
bit_place (suc b) zero v h =
    ground (arith, bit-zero (v * 2 ^ suc b), ap (λ (t : ℕ). v * t) (pow-suc 2 b))
bit_place (suc b) (suc k) v h =
    let half : v * 2 ^ suc b / 2 ≡ v * 2 ^ b = omega (arith, ap (λ (t : ℕ). v * t) (pow-suc 2 b)) in
    ground (arith, bit-suc k (v * 2 ^ suc b), half, bit_place b k v)

pub bit_complement : (n k x : ℕ) → k < n → x < 2 ^ n → bit k (2 ^ n - 1 - x) ≡ 1 - bit k x
bit_complement zero k x lt h = absurd (omega arith)
bit_complement (suc n) zero x lt h =
    omega (arith, bit-zero x, bit-zero (2 ^ suc n - 1 - x), pow-suc 2 n)
bit_complement (suc n) (suc k) x lt h =
    let half : (2 ^ suc n - 1 - x) / 2 ≡ 2 ^ n - 1 - x / 2 = omega (arith, pow-suc 2 n) in
    ground (
      arith,
      bit-suc k (2 ^ suc n - 1 - x),
      bit-suc k x,
      half,
      bit_complement n k (x / 2) (omega arith) (omega (arith, pow-suc 2 n)),
    )

-- A cast keeps the digits below its width.
pub bit_mod : (n k x : ℕ) → k < n → bit k (x % 2 ^ n) ≡ bit k x
bit_mod zero k x lt = absurd (omega arith)
bit_mod (suc n) zero x lt = omega (arith, bit-zero x, bit-zero (x % 2 ^ suc n), mod-two-pow-suc x n)
bit_mod (suc n) (suc k) x lt =
    let half : x % 2 ^ suc n / 2 ≡ x / 2 % 2 ^ n = omega (arith, mod-two-pow-suc x n) in
    ground (arith, bit-suc k (x % 2 ^ suc n), bit-suc k x, half, bit_mod n k (x / 2) (omega arith))

pub bit-lt : (k x : ℕ) → bit k x < 2
bit-lt k x = omega arith

-- What is shifted left leaves zeros behind.
pub bit_below : (n k x : ℕ) → k < n → bit k (x * 2 ^ n) ≡ 0
bit_below zero k x h = absurd (omega arith)
bit_below (suc n) zero x h =
    omega (arith, bit-zero (x * 2 ^ suc n), ap (λ (t : ℕ). x * t) (pow-suc 2 n))
bit_below (suc n) (suc k) x h =
    let half : x * 2 ^ suc n / 2 ≡ x * 2 ^ n = omega (arith, ap (λ (t : ℕ). x * t) (pow-suc 2 n)) in
    ground (arith, bit-suc k (x * 2 ^ suc n), half, bit_below n k x (omega arith))
