-- ===== src/Alu/Rotate/Plain.antt =====
-- `Rol` and `Ror` at every operand size: every digit moves, around the end of the word.
use atua_computer.Alu.Arith.Carries.{cast_id, cast-lt, sign-lt}
use native.Mathlib.Decide.{ℕ_discrete, dec_lt}
use native.Mathlib.Nat.{mod-lt, mod-eq_of_lt, add-mod_right}
use atua_computer.Bits.Rotation.{bit_ext_below, rotate_digit}
use atua_computer.Bits.{bit_and-one, bit_or_comm, bit_and_mask, bit-bit_xor}
use atua_computer.Alu.Shift.Laws.{suc-ne-zero, count, count_lem}
use atua_computer.Base.{
  if◌then◌else◌, zero, suc, ℕ, ◌+◌, ◌-◌, ◌*◌, ◌/◌, ◌%◌, ◌^◌, ◌<◌, ◌≡◌, ◌≢◌, ◌∙◌, sym, ap, subst,
  arith, bit, bit_or, bit_xor, bit_and, ◌==◌, false, Width, w8, w16, w32, w64, bits, size, sign_bit,
  cast,
}
use atua_computer.Machine.{Machine}
use atua_computer.Alu.Rotate.{rol_at, ror_at}
use atua_computer.Alu.Status.{rotate_flags}
use atua_computer.Alu.Status.Rotated.{IsRotated, rotate_flags-IsRotated}

-- The distance that a count rotates by.
abbrev pub distance : Width → ℕ → ℕ
distance w y = y % bits w

distance_lem : (w : Width) (y : ℕ) → bit_and y (bits w - 1) ≡ distance w y
distance_lem w8 y = bit_and_mask 3 y
distance_lem w16 y = bit_and_mask 4 y
distance_lem w32 y = bit_and_mask 5 y
distance_lem w64 y = bit_and_mask 6 y

pub distance-lt : (w : Width) (y : ℕ) → distance w y < bits w
distance-lt w8 y = omega arith
distance-lt w16 y = omega arith
distance-lt w32 y = omega arith
distance-lt w64 y = omega arith

ne_zero_test : (c : ℕ) → c ≢ 0 → (c == 0) ≡ false
ne_zero_test c h = ground arith

-- The two results, for a distance `r`.
abbrev pub left : Width → ℕ → ℕ → ℕ
left w x r = if r == 0 then x else cast w (bit_or (x * 2 ^ r) (x / 2 ^ (bits w - r)))

abbrev pub right : Width → ℕ → ℕ → ℕ
right w x r = if r == 0 then x else cast w (bit_or (x / 2 ^ r) (x * 2 ^ (bits w - r)))

pub left-lt : (w : Width) (x r : ℕ) → x < size w → left w x r < size w
left-lt w x r hx = ground (arith, cast-lt w (bit_or (x * 2 ^ r) (x / 2 ^ (bits w - r))))

pub right-lt : (w : Width) (x r : ℕ) → x < size w → right w x r < size w
right-lt w x r hx = ground (arith, cast-lt w (bit_or (x / 2 ^ r) (x * 2 ^ (bits w - r))))

around : (n j : ℕ) → j < n → (j + n) % n ≡ j
around n j h = add-mod_right j n ∙ mod-eq_of_lt h

pub left_digit :
    (w : Width) (x r j : ℕ)
    → x < size w
    → r < bits w
    → j < bits w
    → bit j (left w x r) ≡ bit ((j + bits w - r) % bits w) x
left_digit w x zero j hx hr hj =
    let e : j + bits w - 0 ≡ j + bits w = omega arith in
    ap (λ t. bit t x) (sym (ap (λ t. t % bits w) e ∙ around (bits w) j hj))
left_digit w x (suc r) j hx hr hj = rw (suc-ne-zero r) (rotate_digit (bits w) (suc r) x j hr hx hj)

pub right_digit :
    (w : Width) (x r j : ℕ)
    → x < size w
    → r < bits w
    → j < bits w
    → bit j (right w x r) ≡ bit ((j + r) % bits w) x
right_digit w x zero j hx hr hj =
    let e : j + 0 ≡ j = omega arith in
    ap (λ t. bit t x) (sym (ap (λ t. t % bits w) e ∙ mod-eq_of_lt hj))
right_digit w x (suc r) j hx hr hj =
    let back : bits w - (bits w - suc r) ≡ suc r = omega arith in
    let index : j + bits w - (bits w - suc r) ≡ j + suc r = omega arith in
    let digit = rotate_digit (bits w) (bits w - suc r) x j (omega arith) hx hj in
    rw (suc-ne-zero r, bit_or_comm (x / 2 ^ suc r) (x * 2 ^ (bits w - suc r)))
      (ap (λ t. bit j (cast w (bit_or (x * 2 ^ (bits w - suc r)) (x / 2 ^ t)))) (sym back)
        ∙ digit
        ∙ ap (λ t. bit (t % bits w) x) index)

-- The flags of a rotation: CF is the bit that came around, OF the top two bits compared.
signs_bit : (a b : ℕ) → bit_and (bit_xor a b) 1 ≡ (bit 0 a + bit 0 b) % 2
signs_bit a b = bit_and-one (bit_xor a b) ∙ bit-bit_xor 0 a b

rol_flags :
    (w : Width) (m : Machine) (z : ℕ)
    → let s = sign_bit w in
      IsRotated m
        (rotate_flags m z (bit_and z 1) (bit_and (bit_xor (z / 2 ^ s) z) 1))
        z
        (bit 0 z)
        ((bit s z + bit 0 z) % 2)
rol_flags w m z =
    rw (bit_and-one z, signs_bit (z / 2 ^ sign_bit w) z, first)
      (rotate_flags-IsRotated m z (bit 0 z) _ (omega arith) (omega arith))
  where
    first : bit 0 (z / 2 ^ sign_bit w) ≡ bit (sign_bit w) z
    first = omega arith

ror_flags :
    (w : Width) (m : Machine) (z : ℕ)
    → z < size w
    → let s = sign_bit w in
      IsRotated m
        (rotate_flags m z (z / 2 ^ s) (bit_and (bit_xor (z / 2 ^ s) (z / 2 ^ (s - 1))) 1))
        z
        (bit s z)
        ((bit s z + bit (s - 1) z) % 2)
ror_flags w m z hz =
    let s = sign_bit w in
    let first : bit 0 (z / 2 ^ s) ≡ bit s z = omega arith in
    let second : bit 0 (z / 2 ^ (s - 1)) ≡ bit (s - 1) z = omega arith in
    let top : z / 2 ^ s ≡ bit s z = omega (arith, sign-lt w z hz) in
    rw (signs_bit (z / 2 ^ s) (z / 2 ^ (s - 1)), first, second)
      (subst
        (λ t.
          IsRotated m (rotate_flags m z t ((bit s z + bit (s - 1) z) % 2)) z (bit s z)
            ((bit s z + bit (s - 1) z) % 2))
        (sym top) (rotate_flags-IsRotated m z (bit s z) _ (omega arith) (omega arith)))

-- A rotation by `k` places up (`up`) or down, with the flags that it leaves.
module _ (w : Width) (m : Machine) (x64 y : ℕ) where
  abbrev x : ℕ
  x = cast w x64

  abbrev r : ℕ
  r = distance w y

  pub rol-zero : count w y ≡ 0 → rol_at w m x64 y ≡ (m, x)
  unfolding rol_at
  rol-zero e = rw (count_lem w y, e)

  pub ror-zero : count w y ≡ 0 → ror_at w m x64 y ≡ (m, x)
  unfolding ror_at
  ror-zero e = rw (count_lem w y, e)

  pub rol-IsRotated :
      count w y ≢ 0
      → IsRotated m
          (rol_at w m x64 y)
          (left w x r)
          (bit 0 (left w x r))
          ((bit (sign_bit w) (left w x r) + bit 0 (left w x r)) % 2)
  unfolding rol_at
  rol-IsRotated ne =
      rw (count_lem w y, ne_zero_test _ ne, distance_lem w y) (rol_flags w m (left w x r))

  pub ror-IsRotated :
      count w y ≢ 0
      → IsRotated m
          (ror_at w m x64 y)
          (right w x r)
          (bit (sign_bit w) (right w x r))
          ((bit (sign_bit w) (right w x r) + bit (sign_bit w - 1) (right w x r)) % 2)
  unfolding ror_at
  ror-IsRotated ne =
      rw (count_lem w y, ne_zero_test _ ne, distance_lem w y)
        (ror_flags w m (right w x r) (right-lt w x r (cast-lt w x64)))

no_distance : (w : Width) (y : ℕ) → count w y ≡ 0 → distance w y ≡ 0
no_distance w8 y e = omega arith
no_distance w16 y e = omega arith
no_distance w32 y e = omega arith
no_distance w64 y e = omega arith

module _ (w : Width) (m : Machine) (x64 y : ℕ) where
  pub rol-result : (rol_at w m x64 y).1 ≡ left w (cast w x64) (distance w y)
  rol-result = elim (ℕ_discrete (count w y) 0) [
    | yes e ↦ rw (rol-zero w m x64 y e, no_distance w y e)
    | no ne ↦ (rol-IsRotated w m x64 y ne).result
  ]

  pub ror-result : (ror_at w m x64 y).1 ≡ right w (cast w x64) (distance w y)
  ror-result = elim (ℕ_discrete (count w y) 0) [
    | yes e ↦ rw (ror-zero w m x64 y e, no_distance w y e)
    | no ne ↦ (ror-IsRotated w m x64 y ne).result
  ]

there_and_back : (n j r : ℕ) → j < n → r < n → ((j + r) % n + n - r) % n ≡ j
there_and_back n j r hj hr = elim (dec_lt (j + r) n) [
  | yes h ↦
      let e : j + r + n - r ≡ j + n = omega arith in
      ap (λ t. (t + n - r) % n) (mod-eq_of_lt h) ∙ ap (λ t. t % n) e ∙ around n j hj
  | no h ↦
      let e : j + r ≡ j + r - n + n = omega arith in
      let f : j + r - n + n - r ≡ j = omega arith in
      let low : (j + r) % n ≡ j + r - n =
        ap (λ t. t % n) e ∙ add-mod_right (j + r - n) n ∙ mod-eq_of_lt (omega arith) in
      ap (λ t. (t + n - r) % n) low ∙ ap (λ t. t % n) f ∙ mod-eq_of_lt hj
]

-- Turning back by the same distance gives the word.
pub right-left : (w : Width) (x r : ℕ) → x < size w → r < bits w → right w (left w x r) r ≡ x
right-left w x r hx hr =
    bit_ext_below (bits w) _ _ (right-lt w (left w x r) r (left-lt w x r hx)) hx λ j hj.
      right_digit w (left w x r) r j (left-lt w x r hx) hr hj
      ∙ left_digit w x r ((j + r) % bits w) hx hr (mod-lt (j + r) {m = bits w} (omega arith))
      ∙ ap (λ t. bit t x) (there_and_back (bits w) j r hj hr)

module _ (w : Width) (m : Machine) (x64 y : ℕ) (ne : count w y ≢ 0) where
  pub rol_at-IsRotated :
      (let o = rol_at w m x64 y in
        IsRotated m o o.1 (bit 0 o.1) ((bit (sign_bit w) o.1 + bit 0 o.1) % 2)
        × ((j : ℕ)
            → j < bits w
            → bit j o.1 ≡ bit ((j + bits w - distance w y) % bits w) (cast w x64)))
  rol_at-IsRotated = (
    subst (λ t. IsRotated m (rol_at w m x64 y) t (bit 0 t) ((bit (sign_bit w) t + bit 0 t) % 2))
        (sym (rol-result w m x64 y)) (rol-IsRotated w m x64 y ne),
    λ j hj.
        ap (λ t. bit j t) (rol-result w m x64 y)
        ∙ left_digit w (cast w x64) (distance w y) j (cast-lt w x64) (distance-lt w y) hj,
  )

  pub ror_at-IsRotated :
      (let o = ror_at w m x64 y in
        IsRotated m o o.1
          (bit (sign_bit w) o.1)
          ((bit (sign_bit w) o.1 + bit (sign_bit w - 1) o.1) % 2)
        × ((j : ℕ) → j < bits w → bit j o.1 ≡ bit ((j + distance w y) % bits w) (cast w x64)))
  ror_at-IsRotated = (
    subst
        (λ t.
          IsRotated m (ror_at w m x64 y) t (bit (sign_bit w) t)
            ((bit (sign_bit w) t + bit (sign_bit w - 1) t) % 2))
        (sym (ror-result w m x64 y)) (ror-IsRotated w m x64 y ne),
    λ j hj.
        ap (λ t. bit j t) (ror-result w m x64 y)
        ∙ right_digit w (cast w x64) (distance w y) j (cast-lt w x64) (distance-lt w y) hj,
  )

pub ror-rol :
    (w : Width) (m m' : Machine) (x64 y : ℕ) → (ror_at w m' (rol_at w m x64 y).1 y).1 ≡ cast w x64
ror-rol w m m' x64 y =
    let r = distance w y in
    let x = cast w x64 in
    let turned = left-lt w x r (cast-lt w x64) in
    ap (λ t. (ror_at w m' t y).1) (rol-result w m x64 y)
    ∙ ror-result w m' (left w x r) y
    ∙ ap (λ t. right w t r) (cast_id w (left w x r) turned)
    ∙ right-left w x r (cast-lt w x64) (distance-lt w y)
