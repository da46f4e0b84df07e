-- ===== src/Dubble/Overflow.antt =====
-- `DubbleDiv` of native/blink/blink/divmul.c when the quotient does not fit a word.
use native.Mathlib.Nat.{
  mul-le-mul, mul_assoc, mul_comm, mul-lt-mul_of_pos_right, mod-add-div', add-mul-mod_self_right,
  mod-eq_of_lt, pow-le-pow_right, one-le-pow, mod-lt, mod-le, add-mul, pow-suc,
}
use atua_computer.Base.{
  ℕ, zero, suc, ◌+◌, ◌-◌, ◌*◌, ◌/◌, ◌%◌, ◌^◌, ◌≤◌, ◌<◌, ◌≡◌, ◌≢◌, ◌⊎◌, inl, inr, refl, sym, ◌∙◌, ap,
  subst, arith, ◌==◌, Bool, Bool-cases, if◌then◌else◌,
}
use atua_computer.Dubble.{
  Dubble, dubble_div, raise, reduce, dubble_shl, dubble_shr, dubble_lte, subtract,
}
use atua_computer.Dubble.Laws.{
  value, IsDubble, IsDubble-shl, IsDubble-shr, shr-small, dubble_shl-value, dubble_shr-value,
}
use atua_computer.Bits.Powers.{two_pow_add}
use atua_computer.Dubble.Raise.{not_lte}
use atua_computer.Dubble.Reduce.{
  reduce_lem, subtract-cases, room_for, power_room, counted, value-counted, IsDubble-counted,
}

-- What the first loop gives when bits may be lost: it stops past the dividend or at its bound.
pub record Wrapped (k : ℕ) (d a : Dubble) (r : Dubble × ℕ) : Type 0 where
  pub valid : IsDubble r.0
  pub shifted : value r.0 ≡ value d * 2 ^ r.1 % 2 ^ 128
  pub ends : (value a < value r.0) ⊎ (r.1 ≡ k)
  pub few : r.1 ≤ k

unshifted : (d : Dubble) → IsDubble d → value d ≡ value d * 2 ^ 0 % 2 ^ 128
unshifted d hd = omega (arith, hd.lo_fits, hd.hi_fits)

regroup : (r c p m : ℕ) → r * p + c * p * m ≡ (r + c * m) * p
regroup r c p m = grind arith

shifted_again : (v n : ℕ) → v * 2 % 2 ^ 128 * 2 ^ n % 2 ^ 128 ≡ v * 2 ^ suc n % 2 ^ 128
shifted_again v n =
    let whole : v * 2 % 2 ^ 128 + v * 2 / 2 ^ 128 * 2 ^ 128 ≡ v * 2 = omega arith in
    sym (add-mul-mod_self_right (v * 2 % 2 ^ 128 * 2 ^ n) (v * 2 / 2 ^ 128 * 2 ^ n) (2 ^ 128))
    ∙ ap (λ t. t % 2 ^ 128)
        (regroup (v * 2 % 2 ^ 128) (v * 2 / 2 ^ 128) (2 ^ n) (2 ^ 128)
          ∙ ap (λ t. t * 2 ^ n) whole
          ∙ mul_assoc v 2 (2 ^ n)
          ∙ ap (λ t. v * t) (rw (pow-suc 2 n) (mul_comm 2 (2 ^ n))))

Wrapped-more :
    (k : ℕ) (d a : Dubble) (r : Dubble × ℕ)
    → IsDubble d
    → Wrapped k (dubble_shl d) a r
    → Wrapped (suc k) d a (r.0, suc r.1)
Wrapped-more k d a r hd h = record {
  valid = h.valid;
  shifted =
      h.shifted
      ∙ ap (λ t. t * 2 ^ r.1 % 2 ^ 128) (dubble_shl-value d hd)
      ∙ shifted_again (value d) r.1;
  ends = elim h.ends [ inl past ↦ inl past | inr full ↦ inr (ap suc full) ];
  few = omega (arith, h.few);
}

pub raise_wraps : (k : ℕ) (d a : Dubble) → IsDubble d → IsDubble a → Wrapped k d a (raise k d a)
unfolding raise
raise_wraps zero d a hd ha = record {
  valid = hd;
  shifted = unshifted d hd;
  ends = inr refl;
  few = omega arith;
}
raise_wraps (suc k) d a hd ha =
    let rest = raise k (dubble_shl d) a in
    let choose : Bool → Dubble × ℕ = λ c. if c then (rest.0, suc rest.1) else (d, 0) in
    elim (Bool-cases (dubble_lte d a)) [
      | inl more ↦
          subst (Wrapped (suc k) d a) (ap choose (sym more))
            (Wrapped-more k d a rest hd (raise_wraps k (dubble_shl d) a (IsDubble-shl d hd) ha))
      | inr done ↦ subst (Wrapped (suc k) d a) (ap choose (sym done)) (record {
        valid = hd;
        shifted = unshifted d hd;
        ends = inl (not_lte d a hd ha done);
        few = omega arith;
      })
    ]

-- A divisor whose bits are all lost is taken away each time.
reduce-ones :
    (n : ℕ) (d q a : Dubble)
    → IsDubble d
    → IsDubble q
    → IsDubble a
    → value d ≡ 0
    → (value q + 1) * 2 ^ n ≤ 2 ^ 128
    → (value (reduce n d q a).0 + 1 ≡ (value q + 1) * 2 ^ n) × IsDubble (reduce n d q a).0
unfolding reduce
reduce-ones zero d q a hd hq ha e room = (omega arith, hq)
reduce-ones (suc n) d q a hd hq ha e room =
    elim (subtract-cases a (dubble_shr d) ha (IsDubble-shr d hd) (shr-small d hd)) [
      | inl t ↦
          let rest =
            reduce-ones n (dubble_shr d) (counted q hq space) (subtract a (dubble_shr d)).0
              (IsDubble-shr d hd) (IsDubble-counted q hq space) t.fits halved
              (subst (λ v. (v + 1) * 2 ^ n ≤ 2 ^ 128) (sym (value-counted q hq space))
                (omega (arith, power_room (value q) n))) in
          subst (λ c. (value (go c).0 + 1 ≡ (value q + 1) * 2 ^ suc n) × IsDubble (go c).0)
            (sym t.no_borrow)
            (
              rest.0
                  ∙ ap (λ v. (v + 1) * 2 ^ n) (value-counted q hq space)
                  ∙ omega (arith, power_room (value q) n),
              rest.1,
            )
      | inr f ↦ absurd (omega (arith, f.1, halved))
    ]
  where
    space : value q * 2 + 2 ≤ 2 ^ 128
    space = room_for (value q) n room

    halved : value (dubble_shr d) ≡ 0
    halved = omega (arith, dubble_shr-value d hd, e)

    go : ℕ → Dubble × Dubble
    go c =
        reduce n (dubble_shr d)
          (if c == 0
            then record { lo = ((dubble_shl q).lo + 1) % 2 ^ 64; hi = (dubble_shl q).hi }
            else dubble_shl q)
          (if c == 0 then (subtract a (dubble_shr d)).0 else a)

-- Of a word that is shifted by `n`, only the low bits are left.
kept : ℕ → ℕ → ℕ
kept b n = b % 2 ^ (128 - n)

reassoc : (r c p m : ℕ) → r * p + c * (m * p) ≡ (r + c * m) * p
reassoc r c p m = grind arith

kept_lem : (b n : ℕ) → n ≤ 128 → b * 2 ^ n % 2 ^ 128 ≡ kept b n * 2 ^ n
unfolding kept
kept_lem b n few =
    let m = 128 - n in
    let parts : 2 ^ m * 2 ^ n ≡ 2 ^ 128 =
      sym (two_pow_add m n) ∙ ap (λ t. 2 ^ t) (let e : m + n ≡ 128 = omega arith in e) in
    let low : b % 2 ^ m * 2 ^ n < 2 ^ m * 2 ^ n =
      mul-lt-mul_of_pos_right (mod-lt b (one-le-pow m 2 (omega arith)))
        (one-le-pow n 2 (omega arith)) in
    let whole : b % 2 ^ m * 2 ^ n + b / 2 ^ m * (2 ^ m * 2 ^ n) ≡ b * 2 ^ n =
      reassoc (b % 2 ^ m) (b / 2 ^ m) (2 ^ n) (2 ^ m)
      ∙ ap (λ t. t * 2 ^ n) (mod-add-div' b (2 ^ m)) in
    subst (λ t. b * 2 ^ n % t ≡ b % 2 ^ m * 2 ^ n) parts
      (ap (λ t. t % (2 ^ m * 2 ^ n)) (sym whole)
        ∙ add-mul-mod_self_right (b % 2 ^ m * 2 ^ n) (b / 2 ^ m) (2 ^ m * 2 ^ n)
        ∙ mod-eq_of_lt low)

-- Dividing 128 bits by a word that is no greater than the upper half, 0 included, `DubbleDiv` gives
-- a quotient of more than one word, also where its first loop loses bits of the divisor.
pub dubble_div-overflow :
    (a : Dubble) (b : ℕ) → IsDubble a → b < 2 ^ 64 → b ≤ a.hi → (dubble_div a b).0.hi ≢ 0
unfolding dubble_div kept
dubble_div-overflow a b ha hb small zero_hi = elim up.ends [
  | inl past ↦
      let down =
        reduce_lem (kept b shifts) shifts up_d none_yet a up.valid zeros ha
          (up.shifted
            ∙ ap (λ t. t * 2 ^ shifts % 2 ^ 128) (let e : b + 0 * 2 ^ 64 ≡ b = omega arith in e)
            ∙ kept_lem b shifts up.few)
          past (omega (arith, power)) in
      let k = kept b shifts in
      let few_times : (value (dubble_div a b).0 + 1) * k ≤ 2 ^ 64 * b =
        mul-le-mul {m₁ = k} {m₂ = b} (omega (arith, down.quotient_valid.lo_fits))
          (mod-le b (2 ^ (128 - shifts))) in
      omega (arith, few_times, down.sum, down.small, add-mul (value (dubble_div a b).0) 1 k)
  | inr full ↦
      let lost : value up_d ≡ 0 =
        up.shifted ∙ ap (λ t. (b + 0 * 2 ^ 64) * 2 ^ t % 2 ^ 128) full ∙ omega arith in
      let down = reduce-ones shifts up_d none_yet a up.valid zeros ha lost (omega (arith, power)) in
      omega (arith, down.0, down.1.lo_fits, ap (λ t. 2 ^ t) full)
]
  where
    start : Dubble
    start = record { lo = b; hi = 0 }

    none_yet : Dubble
    none_yet = record { lo = 0; hi = 0 }

    zeros : IsDubble none_yet
    zeros = record { lo_fits = omega arith; hi_fits = omega arith }

    up : Wrapped 128 start a (raise 128 start a)
    up = raise_wraps 128 start a (record { lo_fits = hb; hi_fits = omega arith }) ha

    up_d : Dubble
    up_d = (raise 128 start a).0

    shifts : ℕ
    shifts = (raise 128 start a).1

    power : 2 ^ shifts ≤ 2 ^ 128
    power = pow-le-pow_right {n = 2} (omega arith) {i = shifts} {j = 128} up.few
