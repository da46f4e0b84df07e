-- ===== src/Divmul/Division.antt =====
-- Division of two words by one: native/blink/blink/divmul.c.
use atua_computer.Divmul.{
  op_div_rdx_rax_evqp_unsigned32, op_div_rdx_rax_evqp_unsigned64, dx, put16, put64,
  op_div_rdx_rax_evqp_unsigned16,
}
use atua_computer.Base.{
  get_or-set_ne, get_or-set_self, length-set, if_true, if_false, ℕ, zero, suc, ◌+◌, ◌*◌, ◌/◌, ◌%◌,
  ◌^◌, ◌≤◌, ◌<◌, ◌≡◌, ◌≢◌, inl, inr, refl, sym, ◌∙◌, ap, subst, arith, ◌|||◌, ◌<<<◌, ltb, Option,
  none, some, List, length, get_or, set, if_equal, if_unequal, Bool-cases, ◌⊎◌, ◌==◌, true, false,
  Bool, not, if◌then◌else◌,
}
use atua_computer.Machine.{Machine, ax}
use mathlib.Core.Bool.{false≢true}
use native.Mathlib.Decide.{ℕ_discrete}
use native.Mathlib.Nat.{mod-lt, le-div_iff_mul-le}
use atua_computer.Bits.{bit_or_fields}
use atua_computer.Dubble.{Dubble, dubble_div}
use atua_computer.Dubble.Laws.{value, IsDubble}
use atua_computer.Dubble.Division.{dubble_div_lem}
use atua_computer.Dubble.Overflow.{dubble_div-overflow}

-- What two words hold, the upper in DX.
abbrev pub wide : ℕ → Machine → ℕ
wide w m = dx m % 2 ^ w * 2 ^ w + ax m % 2 ^ w

-- A division of the words of `m` by `y`: an error, or the quotient and the remainder in the words.
pub data Divides (w : ℕ) (m : Machine) (y : ℕ) : Option Machine → Type 0 where
  by_zero : y ≡ 0 → Divides w m y none
  too_great : y ≢ 0 → 2 ^ w ≤ wide w m / y → Divides w m y none
  divided :
      (n : Machine)
      → y ≢ 0
      → ax n % 2 ^ w ≡ wide w m / y
      → dx n % 2 ^ w ≡ wide w m % y
      → Divides w m y (some n)

-- The first and the third register after both were written.
registers :
    (weg : List ℕ) (q r : ℕ)
    → length weg ≡ 16
    → (get_or (set (set weg 0 q) 2 r) 0 0 ≡ q) × (get_or (set (set weg 0 q) 2 r) 2 0 ≡ r)
registers weg q r sized = (
  get_or-set_ne (set weg 0 q) 2 0 r 0 (λ e. absurd (omega arith))
      ∙ get_or-set_self weg 0 q 0 (omega arith),
  get_or-set_self (set weg 0 q) 2 r 0 (omega (arith, length-set weg 0 q)),
)

module _ (m : Machine) (q r : ℕ) (sized : length m.weg ≡ 16) where
  pub ax-put64 : ax (put64 2 r (put64 0 q m)) ≡ q % 2 ^ 64
  ax-put64 = (registers m.weg (q % 2 ^ 64) (r % 2 ^ 64) sized).0

  pub dx-put64 : dx (put64 2 r (put64 0 q m)) ≡ r % 2 ^ 64
  dx-put64 = (registers m.weg (q % 2 ^ 64) (r % 2 ^ 64) sized).1

  pub ax-put16 : ax (put16 2 r (put16 0 q m)) % 2 ^ 16 ≡ q % 2 ^ 16
  ax-put16 = ap (λ (t : ℕ). t % 2 ^ 16) (registers m.weg _ _ sized).0 ∙ omega arith

  pub dx-put16 : dx (put16 2 r (put16 0 q m)) % 2 ^ 16 ≡ r % 2 ^ 16
  dx-put16 = ap (λ (t : ℕ). t % 2 ^ 16) (registers m.weg _ _ sized).1 ∙ omega arith

positive : (y : ℕ) → y ≢ 0 → 0 < y
positive zero ne = absurd (ne refl)
positive (suc y) ne = omega arith

no_upper : (h : ℕ) → not (h == 0) ≡ false → h ≡ 0
no_upper zero e = refl
no_upper (suc h) e = ground (arith, e)

some_upper : (h : ℕ) → not (h == 0) ≡ true → h ≢ 0
some_upper zero e z = absurd (false≢true e)
some_upper (suc h) e z = absurd (omega (arith, z))

compared : (x y : ℕ) → (x < y) ⊎ (y ≤ x)
compared x y = elim (Bool-cases (ltb x y)) [
  | inl less ↦ inl (ground (arith, less))
  | inr more ↦ inr (ground (arith, more))
]

div_room : (x k y : ℕ) → 0 < y → x < k * y → x / y < k
div_room x k y some_y less = elim (compared (x / y) k) [
  | inl fits ↦ fits
  | inr over ↦ absurd (omega (arith, less, (le-div_iff_mul-le some_y).0 over))
]

-- The order of the tests that the three handlers share.
chosen-Divides :
    (w : ℕ) (m : Machine) (y : ℕ) (n : Machine) (big : Bool)
    → (y ≢ 0 → big ≡ true → 2 ^ w ≤ wide w m / y)
    → (y ≢ 0 → big ≡ false → (ax n % 2 ^ w ≡ wide w m / y) × (dx n % 2 ^ w ≡ wide w m % y))
    → Divides w m y (if y == 0 then none else (if big then none else some n))
chosen-Divides w m y n big overflow fits = elim (ℕ_discrete y 0) [
  | yes e ↦
      subst (Divides w m y) (sym (if_equal y 0 none (if big then none else some n) e)) (by_zero e)
  | no ne ↦
      subst (Divides w m y) (sym (if_unequal y 0 none (if big then none else some n) ne))
        (elim (Bool-cases big) [
          | inl yes_big ↦
              subst (Divides w m y) (sym (if_true big none (some n) yes_big))
                (too_great ne (overflow ne yes_big))
          | inr not_big ↦
              let values = fits ne not_big in
              subst (Divides w m y) (sym (if_false big none (some n) not_big))
                (divided n ne values.0 values.1)
        ])
]

-- The quotient and the remainder of 32 bits by 16 are in AX and DX; a divisor of 0 and a quotient
-- of more than 16 bits are the errors, and there is no other.
pub op_div_rdx_rax_evqp_unsigned16-Divides :
    (m : Machine) (y : ℕ)
    → length m.weg ≡ 16
    → y < 2 ^ 16
    → Divides 16 m y (op_div_rdx_rax_evqp_unsigned16 m y)
unfolding op_div_rdx_rax_evqp_unsigned16
op_div_rdx_rax_evqp_unsigned16-Divides m y sized small =
    let x = ((dx m % 2 ^ 16) <<< 16) ||| (ax m % 2 ^ 16) in
    let whole : x ≡ wide 16 m = bit_or_fields 16 (dx m % 2 ^ 16) (ax m % 2 ^ 16) (omega arith) in
    chosen-Divides 16 m y (put16 2 (x % y) (put16 0 (x / y) m)) (ltb 0xffff (x / y))
      (λ ne big. subst (λ t. 2 ^ 16 ≤ t / y) whole (ground (arith, big)))
      (λ ne fits.
        let q_small : x / y < 2 ^ 16 = ground (arith, fits) in
        (
          ax-put16 m (x / y) (x % y) sized ∙ omega (arith, q_small) ∙ ap (λ (t : ℕ). t / y) whole,
          dx-put16 m (x / y) (x % y) sized
              ∙ omega (arith, mod-lt x (positive y ne))
              ∙ ap (λ (t : ℕ). t % y) whole,
        ))

-- The quotient and the remainder of 64 bits by 32 are in EAX and EDX; a divisor of 0 and a quotient
-- of more than 32 bits are the errors, and there is no other.
pub op_div_rdx_rax_evqp_unsigned32-Divides :
    (m : Machine) (y : ℕ)
    → length m.weg ≡ 16
    → y < 2 ^ 32
    → Divides 32 m y (op_div_rdx_rax_evqp_unsigned32 m y)
unfolding op_div_rdx_rax_evqp_unsigned32
op_div_rdx_rax_evqp_unsigned32-Divides m y sized small =
    let x = ((dx m % 2 ^ 32) <<< 32) ||| (ax m % 2 ^ 32) in
    let q = x / y % 2 ^ 32 in
    let r = x % y % 2 ^ 32 in
    let whole : x ≡ wide 32 m = bit_or_fields 32 (dx m % 2 ^ 32) (ax m % 2 ^ 32) (omega arith) in
    chosen-Divides 32 m y (put64 2 r (put64 0 q m)) (ltb 0xffff_ffff (x / y))
      (λ ne big. subst (λ t. 2 ^ 32 ≤ t / y) whole (ground (arith, big)))
      (λ ne fits.
        let q_small : x / y < 2 ^ 32 = ground (arith, fits) in
        (
          ap (λ (t : ℕ). t % 2 ^ 32) (ax-put64 m q r sized)
              ∙ omega (arith, q_small)
              ∙ ap (λ (t : ℕ). t / y) whole,
          ap (λ (t : ℕ). t % 2 ^ 32) (dx-put64 m q r sized)
              ∙ omega (arith, mod-lt x (positive y ne))
              ∙ ap (λ (t : ℕ). t % y) whole,
        ))

-- The quotient and the remainder of 128 bits by 64 are in RAX and RDX; a divisor of 0 and a quotient
-- of more than 64 bits are the errors, and there is no other. The words of the machine are 64 bits.
pub op_div_rdx_rax_evqp_unsigned64-Divides :
    (m : Machine) (y : ℕ)
    → length m.weg ≡ 16
    → ax m < 2 ^ 64
    → dx m < 2 ^ 64
    → y < 2 ^ 64
    → Divides 64 m y (op_div_rdx_rax_evqp_unsigned64 m y)
unfolding op_div_rdx_rax_evqp_unsigned64
op_div_rdx_rax_evqp_unsigned64-Divides m y sized ax_fits dx_fits small =
    let words : Dubble = record { lo = ax m; hi = dx m } in
    let valid : IsDubble words = record { lo_fits = ax_fits; hi_fits = dx_fits } in
    let whole : value words ≡ wide 64 m = omega arith in
    let q = (dubble_div words y).0 in
    let r = (dubble_div words y).1 in
    chosen-Divides 64 m y (put64 2 r (put64 0 q.lo m)) (not (q.hi == 0))
      (λ ne big. elim (compared (dx m) y) [
        | inl less ↦
            absurd (some_upper q.hi big (dubble_div_lem words y valid small less).no_overflow)
        | inr le ↦ (le-div_iff_mul-le (positive y ne)).1 (omega (arith, le))
      ])
      (λ ne fits. elim (compared (dx m) y) [
        | inl less ↦
            let exact = dubble_div_lem words y valid small less in
            let room : wide 64 m / y < 2 ^ 64 =
              div_room (wide 64 m) (2 ^ 64) y (positive y ne) (omega (arith, less)) in
            let rest : wide 64 m % y < y = mod-lt (wide 64 m) (positive y ne) in
            let quotient : q.lo ≡ wide 64 m / y = exact.quotient ∙ ap (λ t. t / y) whole in
            let remainder : r ≡ wide 64 m % y = exact.remainder ∙ ap (λ t. t % y) whole in
            (
              ap (λ t. t % 2 ^ 64) (ax-put64 m q.lo r sized) ∙ omega (arith, quotient, room),
              ap (λ t. t % 2 ^ 64) (dx-put64 m q.lo r sized) ∙ omega (arith, remainder, rest),
            )
        | inr le ↦ absurd (dubble_div-overflow words y valid small le (no_upper q.hi fits))
      ])
