-- ===== src/Memory/Bytes.antt =====
-- Reading and writing the bytes of a number: `Read64` and `Write64` under native/blink/blink/pte32.c.
use atua_computer.Base.{
  subst, ℕ, zero, suc, ◌+◌, ◌-◌, ◌*◌, ◌/◌, ◌%◌, ◌^◌, ◌≤◌, ◌<◌, ◌≡◌, ◌⊎◌, refl, sym, ◌∙◌, ap, ap₂,
  arith,
}
use atua_computer.Memory.Pages.{read_bytes, write_bytes}
use native.Mathlib.Nat.{mod-eq_of_lt, pow-suc, div-div-eq-div-mul, mul_comm, mod-add-div', div-one}

-- Every address holds a byte.
unfoldable pub IsBytes : (ℕ → ℕ) → Type 0
IsBytes mem = (a : ℕ) → mem a < 256

pub read_bytes-lt : (n : ℕ) (mem : ℕ → ℕ) (p : ℕ) → IsBytes mem → read_bytes n mem p < 256 ^ n
unfolding read_bytes IsBytes
read_bytes-lt zero mem p bytes = omega arith
read_bytes-lt (suc n) mem p bytes =
    omega (arith, pow-suc 256 n, bytes p, read_bytes-lt n mem (p + 1) bytes)

write_bytes-at :
    (n : ℕ) (mem : ℕ → ℕ) (p v i : ℕ) → i < n → write_bytes n mem p v (p + i) ≡ v / 256 ^ i % 256
unfolding write_bytes
write_bytes-at n mem p v i inside = let back : (p + i) - p ≡ i = omega arith in ground (arith, back)

pub write_bytes-other :
    (n : ℕ) (mem : ℕ → ℕ) (p v a : ℕ) → (a < p) ⊎ (p + n ≤ a) → write_bytes n mem p v a ≡ mem a
unfolding write_bytes
write_bytes-other n mem p v a outside = ground arith

above_step : (n a : ℕ) → a / 256 ^ suc n ≡ a / 256 / 256 ^ n
above_step n a =
    rw (pow-suc 256 n, mul_comm (256 ^ n) 256) (sym (div-div-eq-div-mul a 256 (256 ^ n)))

digits : (n a : ℕ) → a % 256 + a / 256 % 256 ^ n * 256 ≡ a % 256 ^ suc n
digits n a = omega (
  arith,
  mod-add-div' a (256 ^ suc n),
  mod-add-div' (a / 256) (256 ^ n),
  ap (λ (t : ℕ). t * 256 ^ suc n) (above_step n a),
  ap (λ (t : ℕ). a / 256 / 256 ^ n * t) (pow-suc 256 n),
)

read_written :
    (n k : ℕ) (mem : ℕ → ℕ) (p v i : ℕ)
    → i + n ≤ k
    → read_bytes n (write_bytes k mem p v) (p + i) ≡ v / 256 ^ i % 256 ^ n
unfolding read_bytes
read_written zero k mem p v i fits = omega arith
read_written (suc n) k mem p v i fits =
    let next : p + suc i ≡ p + i + 1 = omega arith in
    let shifted : v / 256 ^ suc i ≡ v / 256 ^ i / 256 =
      rw (pow-suc 256 i) (sym (div-div-eq-div-mul v (256 ^ i) 256)) in
    let above =
      subst (λ t. read_bytes n (write_bytes k mem p v) t ≡ v / 256 ^ i / 256 % 256 ^ n) next
        (read_written n k mem p v (suc i) (omega arith) ∙ ap (λ t. t % 256 ^ n) shifted) in
    ap₂ (λ x y. x + y * 256) (write_bytes-at k mem p v i (omega arith)) above
    ∙ digits n (v / 256 ^ i)

-- Writing a number of `n` bytes and reading it again gives the number.
pub read_bytes-write_bytes :
    (n : ℕ) (mem : ℕ → ℕ) (p v : ℕ) → v < 256 ^ n → read_bytes n (write_bytes n mem p v) p ≡ v
read_bytes-write_bytes n mem p v fits =
    let here : p + 0 ≡ p = omega arith in
    subst (λ t. read_bytes n (write_bytes n mem p v) t ≡ v) here
      (read_written n n mem p v 0 (omega arith) ∙ rw (div-one v) (mod-eq_of_lt fits))

-- A number that lies elsewhere is read as before.
pub read_bytes-apart :
    (n k : ℕ) (mem : ℕ → ℕ) (p q v : ℕ)
    → (q + n ≤ p) ⊎ (p + k ≤ q)
    → read_bytes n (write_bytes k mem p v) q ≡ read_bytes n mem q
unfolding read_bytes
read_bytes-apart zero k mem p q v apart = refl
read_bytes-apart (suc n) k mem p q v apart =
    ap₂ (λ x y. x + y * 256) (write_bytes-other k mem p v q (omega arith))
      (read_bytes-apart n k mem p (q + 1) v (omega arith))
