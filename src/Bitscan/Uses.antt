-- ===== src/Bitscan/Uses.antt =====
-- What the bit scans of native/blink/blink/bitscan.c are used for.
use native.Mathlib.Nat.{pow-suc}
use atua_computer.Base.{
  to_u, if_true, ℕ, suc, ◌-◌, ◌*◌, ◌%◌, ◌^◌, ◌≤◌, ◌<◌, ◌≡◌, inl, inr, refl, sym, subst, arith,
  ◌<<<◌, ◌==◌, ltb, not, Bool-cases,
}
use atua_computer.Bitscan.{bsr, roundup_two_pow}
use atua_computer.Bitscan.Reverse.{bsr_lem}

-- A power of 2 that is not less than `x` and less than its double.
pub record IsRoundup (x r : ℕ) : Type 0 where
  pub exponent : ℕ
  pub power : r ≡ 2 ^ exponent
  pub enough : x ≤ r
  pub near : r < 2 * x

IsRoundup-above :
    (x b : ℕ)
    → 1 < x
    → x ≤ 2 ^ 63
    → 2 ^ b ≤ x - 1
    → x - 1 < 2 ^ suc b
    → IsRoundup x (2 * 2 ^ b % 2 ^ 64)
IsRoundup-above x b above fits least less = record {
  exponent = suc b;
  power = omega (arith, pow-suc 2 b);
  enough = omega (arith, pow-suc 2 b);
  near = omega (arith, pow-suc 2 b);
}

rounded_one : roundup_two_pow 1 ≡ 1
unfolding roundup_two_pow
rounded_one = refl

-- For numbers from 1 to 2 ^ 63, `RoundupTwoPow` gives a power of 2 that is not less than the number
-- and less than its double.
pub roundup_two_pow-IsRoundup : (x : ℕ) → 0 < x → x ≤ 2 ^ 63 → IsRoundup x (roundup_two_pow x)
unfolding roundup_two_pow
roundup_two_pow-IsRoundup x some_x fits = elim (Bool-cases (ltb 1 x)) [
  | inl more ↦
      let above : 1 < x = ground (arith, more) in
      let (small, least, less) = bsr_lem (x - 1) (omega (arith, above)) (omega (arith, fits)) in
      subst (IsRoundup x)
        (sym (if_true (ltb 1 x) ((2 <<< bsr (x - 1)) % 2 ^ 64) (to_u (not (x == 0))) more))
        (IsRoundup-above x (bsr (x - 1)) above fits least less)
  | inr few ↦
      let one : x ≡ 1 = ground (arith, few, some_x) in
      subst (λ t. IsRoundup t (roundup_two_pow t)) (sym one)
        (subst (IsRoundup 1) (sym rounded_one)
          (record { exponent = 0; power = refl; enough = omega arith; near = omega arith }))
]
