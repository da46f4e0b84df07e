-- ===== src/Bits/Rotation.antt =====
-- `x << r | x >> (n - r)` in `n` bits moves every digit `r` places up, around the end.
use atua_computer.Base.{
  subst, ℕ, ◌+◌, ◌-◌, ◌*◌, ◌/◌, ◌%◌, ◌^◌, ◌≤◌, ◌<◌, ◌≡◌, ◌∙◌, sym, ap, arith, bit, bit_or,
}
use native.Mathlib.Decide.{dec_lt}
use native.Mathlib.Nat.{mod-eq_of_lt, add-mod_right}
use atua_computer.Bits.{bit-bit_or, bit_ext}
use atua_computer.Bits.Place.{bit_mod, bit_below, bit_above}
use atua_computer.Bits.Powers.{carried_in, digit_right, quotient_fits}

module _ (n r x j : ℕ) (rn : r < n) (hx : x < 2 ^ n) (hj : j < n) where
  abbrev word : ℕ
  word = bit_or (x * 2 ^ r) (x / 2 ^ (n - r))

  rotated_low : j < r → bit j word ≡ bit (j + n - r) x
  rotated_low h =
      let index : n - r + j ≡ j + n - r = omega arith in
      omega (
        arith,
        bit-bit_or j (x * 2 ^ r) (x / 2 ^ (n - r)),
        bit_below r j x h,
        digit_right (n - r) j x ∙ ap (λ t. bit t x) index,
      )

  rotated_high : r ≤ j → bit j word ≡ bit (j - r) x
  rotated_high h =
      let back : n - (n - r) ≡ r = omega arith in
      omega (
        arith,
        bit-bit_or j (x * 2 ^ r) (x / 2 ^ (n - r)),
        carried_in j r x h,
        bit_above r j (x / 2 ^ (n - r))
            (subst (λ t. x / 2 ^ (n - r) < 2 ^ t) back (quotient_fits n (n - r) x (omega arith) hx))
            h,
      )

  wrapped : r ≤ j → (j + n - r) % n ≡ j - r
  wrapped h =
      let e : j + n - r ≡ j - r + n = omega arith in
      ap (λ t. t % n) e ∙ add-mod_right (j - r) n ∙ mod-eq_of_lt (omega arith)

  pub rotate_digit : bit j (word % 2 ^ n) ≡ bit ((j + n - r) % n) x
  rotate_digit = bit_mod n j word hj ∙ elim (dec_lt j r) [
    | yes h ↦ rotated_low h ∙ ap (λ t. bit t x) (sym (mod-eq_of_lt (omega arith)))
    | no h ↦ rotated_high (omega arith) ∙ ap (λ t. bit t x) (sym (wrapped (omega arith)))
  ]

-- Numbers of `n` digits that agree below `n` are equal.
pub bit_ext_below :
    (n a b : ℕ) → a < 2 ^ n → b < 2 ^ n → ((j : ℕ) → j < n → bit j a ≡ bit j b) → a ≡ b
bit_ext_below n a b ha hb h = bit_ext a b λ j. elim (dec_lt j n) [
  | yes lt ↦ h j lt
  | no ge ↦ bit_above n j a ha (omega arith) ∙ sym (bit_above n j b hb (omega arith))
]
