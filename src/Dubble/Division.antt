-- ===== src/Dubble/Division.antt =====
-- `DubbleDiv` of native/blink/blink/divmul.c is long division.
use native.Mathlib.Nat.{
  add-mul, div-eq_of_lt-le, add-mul-mod_self_right, pow-le-pow_right, mod-eq_of_lt,
}
use atua_computer.Base.{ℕ, ◌+◌, ◌*◌, ◌/◌, ◌%◌, ◌^◌, ◌<◌, ◌≤◌, ◌≡◌, sym, ap, ◌∙◌, arith}
use atua_computer.Dubble.{Dubble, dubble_div, raise, reduce}
use atua_computer.Dubble.Laws.{value, IsDubble}
use atua_computer.Dubble.Raise.{Raised, raise_lem}
use atua_computer.Dubble.Reduce.{Reduced, reduce_lem}

-- The quotient and remainder of exact division.
pub record IsQuotient (a b : ℕ) (r : Dubble × ℕ) : Type 0 where
  pub quotient : r.0.lo ≡ a / b
  pub no_overflow : r.0.hi ≡ 0
  pub remainder : r.1 ≡ a % b

quotient_of_sum : (a b q r : ℕ) → q * b + r ≡ a → r < b → (q ≡ a / b) × (r ≡ a % b)
quotient_of_sum a b q r e small =
    let over : a < (q + 1) * b = omega (arith, add-mul q 1 b) in
    (
      sym (div-eq_of_lt-le b (omega arith) over),
      sym (mod-eq_of_lt small) ∙ sym (add-mul-mod_self_right r q b) ∙ ap (λ t. t % b) (omega arith),
    )

-- Dividing 128 bits by a word that is greater than the upper half, `DubbleDiv` gives the exact
-- quotient, which fits a word, and the remainder; its first loop stops before its bound.
pub dubble_div_lem :
    (a : Dubble) (b : ℕ)
    → IsDubble a
    → b < 2 ^ 64
    → a.hi < b
    → IsQuotient (value a) b (dubble_div a b)
unfolding dubble_div
dubble_div_lem a b ha hb big = record {
  quotient = omega (arith, exact.0, fits);
  no_overflow = omega (arith, fits);
  remainder = omega (arith, exact.1, down.small);
}
  where
    start : Dubble
    start = record { lo = b; hi = 0 }

    none_yet : Dubble
    none_yet = record { lo = 0; hi = 0 }

    below : value a < b * 2 ^ 64
    below = omega (arith, ha.lo_fits)

    up : Raised b hb a ha below 0 (raise 128 start a)
    up =
        raise_lem b hb a ha below 128 0 start (record { lo_fits = hb; hi_fits = omega arith })
          (omega arith) (omega arith) (omega arith)

    shifts : ℕ
    shifts = (raise 128 start a).1

    power : 2 ^ shifts ≤ 2 ^ 64
    power = pow-le-pow_right {n = 2} (omega arith) {i = shifts} {j = 64} (omega (arith, up.few))

    down : Reduced b shifts none_yet a (reduce shifts (raise 128 start a).0 none_yet a)
    down =
        reduce_lem b shifts (raise 128 start a).0 none_yet a up.valid
          (record { lo_fits = omega arith; hi_fits = omega arith }) ha
          (up.shifted ∙ ap (λ t. b * 2 ^ t) (let z : 0 + shifts ≡ shifts = omega arith in z))
          up.past (omega (arith, power))

    fits : value (dubble_div a b).0 < 2 ^ 64
    fits = omega (arith, down.bounded, power)

    exact :
        (value (dubble_div a b).0 ≡ value a / b)
        × (value (reduce shifts (raise 128 start a).0 none_yet a).1 ≡ value a % b)
    exact = quotient_of_sum (value a) b _ _ (down.sum ∙ omega arith) down.small
