-- ===== src/Dubble/Reduce.antt =====
-- The second loop of `DubbleDiv` in native/blink/blink/divmul.c keeps the dividend as a sum.
use native.Mathlib.Nat.{one-le-pow, mul-le-mul, le_refl, pow-suc, mul_assoc, mod-eq_of_lt}
use atua_computer.Base.{
  leb, ℕ, zero, suc, ◌+◌, ◌-◌, ◌*◌, ◌%◌, ◌^◌, ◌<◌, ◌≤◌, ◌≡◌, sym, ap, ◌∙◌, subst, arith,
  if◌then◌else◌, ◌==◌, Bool-cases, inl, inr, ◌⊎◌,
}
use atua_computer.Dubble.{Dubble, reduce, subtract, dubble_shl, dubble_shr}
use atua_computer.Dubble.Laws.{
  value, IsDubble, IsDubble-shl, IsDubble-shr, shr-small, dubble_shl-value, dubble_shr-value,
}

-- The two ways a trial subtraction ends.
pub record Taken (a d : Dubble) (s : Dubble × ℕ) : Type 0 where
  pub no_borrow : s.1 ≡ 0
  pub enough : value d ≤ value a
  pub left : value s.0 ≡ value a - value d
  pub fits : IsDubble s.0

pub subtract-cases :
    (a d : Dubble)
    → IsDubble a
    → IsDubble d
    → d.hi < 2 ^ 63
    → Taken a d (subtract a d) ⊎ ((subtract a d).1 ≡ 1) × (value a < value d)
unfolding subtract
subtract-cases a d ha hd small = elim (Bool-cases (leb (value d) (value a))) [
  | inl le ↦ inl (record {
    no_borrow = ground arith;
    enough = ground arith;
    left = ground arith;
    fits = record { lo_fits = omega arith; hi_fits = omega arith };
  })
  | inr gt ↦ inr (ground arith, ground arith)
]

-- The second loop, from a quotient `q` and a rest `a`.
pub record Reduced (b n : ℕ) (q a : Dubble) (r : Dubble × Dubble) : Type 0 where
  pub quotient_valid : IsDubble r.0
  pub rest_valid : IsDubble r.1
  pub sum : value r.0 * b + value r.1 ≡ value q * 2 ^ n * b + value a
  pub small : value r.1 < b
  pub bounded : value r.0 < (value q + 1) * 2 ^ n

pub power_room : (q n : ℕ) → (q * 2 + 2) * 2 ^ n ≡ (q + 1) * 2 ^ suc n
power_room q n = rw (pow-suc 2 n) (grind arith)

pub room_for : (q n : ℕ) → (q + 1) * 2 ^ suc n ≤ 2 ^ 128 → q * 2 + 2 ≤ 2 ^ 128
room_for q n h =
    let grow : (q * 2 + 2) * 1 ≤ (q * 2 + 2) * 2 ^ n =
      mul-le-mul {n₁ = q * 2 + 2} {n₂ = q * 2 + 2} (le_refl _) (one-le-pow n 2 (omega arith)) in
    omega (arith, power_room q n, grow)

doubled_divisor : (b n : ℕ) → b * 2 ^ suc n ≡ b * 2 ^ n * 2
doubled_divisor b n = rw (pow-suc 2 n) (sym (mul_assoc b (2 ^ n) 2))

odd_sum : (q n b : ℕ) → (q * 2 + 1) * 2 ^ n * b ≡ q * 2 ^ suc n * b + b * 2 ^ n
odd_sum q n b = rw (pow-suc 2 n) (grind arith)

even_sum : (q n b : ℕ) → q * 2 * 2 ^ n * b ≡ q * 2 ^ suc n * b
even_sum q n b = rw (pow-suc 2 n) (grind arith)

-- The quotient after its shift, and after the digit that a subtraction adds.
module _ (q : Dubble) (hq : IsDubble q) (room : value q * 2 + 2 ≤ 2 ^ 128) where
  value-shifted : value (dubble_shl q) ≡ value q * 2
  value-shifted = dubble_shl-value q hq ∙ mod-eq_of_lt (omega arith)

  abbrev pub counted : Dubble
  counted = record { lo = ((dubble_shl q).lo + 1) % 2 ^ 64; hi = (dubble_shl q).hi }

  low_even : ((dubble_shl q).lo + 1) % 2 ^ 64 ≡ (dubble_shl q).lo + 1
  unfolding dubble_shl
  low_even = omega arith

  pub value-counted : value counted ≡ value q * 2 + 1
  value-counted = omega (arith, low_even, value-shifted)

  pub IsDubble-counted : IsDubble counted
  IsDubble-counted = record { lo_fits = omega arith; hi_fits = (IsDubble-shl q hq).hi_fits }

pub reduce_lem :
    (b : ℕ) (n : ℕ) (d q a : Dubble)
    → IsDubble d
    → IsDubble q
    → IsDubble a
    → value d ≡ b * 2 ^ n
    → value a < value d
    → (value q + 1) * 2 ^ n ≤ 2 ^ 128
    → Reduced b n q a (reduce n d q a)
unfolding reduce
reduce_lem b zero d q a hd hq ha e lt room = record {
  quotient_valid = hq;
  rest_valid = ha;
  sum = omega arith;
  small = omega arith;
  bounded = omega arith;
}
reduce_lem b (suc n) d q a hd hq ha e lt room =
    elim (subtract-cases a d1 ha (IsDubble-shr d hd) (shr-small d hd)) [
      | inl t ↦
          subst (λ c. Reduced b (suc n) q a (go c)) (sym t.no_borrow)
            (taken t (
              reduce_lem b n d1 (counted q hq space) s.0 (IsDubble-shr d hd)
                (IsDubble-counted q hq space) t.fits halved (omega (arith, t.left, twice))
                (subst (λ v. (v + 1) * 2 ^ n ≤ 2 ^ 128) (sym (value-counted q hq space))
                  (omega (arith, power_room (value q) n)))))
      | inr f ↦
          subst (λ c. Reduced b (suc n) q a (go c)) (sym f.0)
            (skipped (
              reduce_lem b n d1 q1 a (IsDubble-shr d hd) (IsDubble-shl q hq) ha halved f.1 (
                subst (λ v. (v + 1) * 2 ^ n ≤ 2 ^ 128) (sym (value-shifted q hq space))
                  (omega (arith, less, power_room (value q) n)))))
    ]
  where
    space : value q * 2 + 2 ≤ 2 ^ 128
    space = room_for (value q) n room

    d1 : Dubble
    d1 = dubble_shr d

    q1 : Dubble
    q1 = dubble_shl q

    s : Dubble × ℕ
    s = subtract a d1

    go : ℕ → Dubble × Dubble
    go c =
        reduce n d1 (if c == 0 then record { lo = (q1.lo + 1) % 2 ^ 64; hi = q1.hi } else q1)
          (if c == 0 then s.0 else a)

    halved : value d1 ≡ b * 2 ^ n
    halved = omega (arith, dubble_shr-value d hd, e, doubled_divisor b n)

    twice : value d ≡ value d1 * 2
    twice = omega (arith, halved, e, doubled_divisor b n)

    less : (value q * 2 + 1) * 2 ^ n ≤ (value q * 2 + 2) * 2 ^ n
    less = mul-le-mul {n₁ = value q * 2 + 1} {n₂ = value q * 2 + 2} (omega arith) (le_refl (2 ^ n))

    taken :
        Taken a d1 s
        → Reduced b n (counted q hq space) s.0 (reduce n d1 (counted q hq space) s.0)
        → Reduced b (suc n) q a (go 0)
    taken t r = record {
      quotient_valid = r.quotient_valid;
      rest_valid = r.rest_valid;
      sum = omega (
        arith,
        r.sum,
        ap (λ v. v * 2 ^ n * b) (value-counted q hq space),
        odd_sum (value q) n b,
        t.left,
        t.enough,
        halved,
      );
      small = r.small;
      bounded = omega (
        arith,
        r.bounded,
        ap (λ v. (v + 1) * 2 ^ n) (value-counted q hq space),
        power_room (value q) n,
      );
    }

    skipped : Reduced b n q1 a (reduce n d1 q1 a) → Reduced b (suc n) q a (go 1)
    skipped r = record {
      quotient_valid = r.quotient_valid;
      rest_valid = r.rest_valid;
      sum = omega (
        arith,
        r.sum,
        ap (λ v. v * 2 ^ n * b) (value-shifted q hq space),
        even_sum (value q) n b,
      );
      small = r.small;
      bounded = omega (
        arith,
        r.bounded,
        ap (λ v. (v + 1) * 2 ^ n) (value-shifted q hq space),
        less,
        power_room (value q) n,
      );
    }
