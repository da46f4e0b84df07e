-- ===== src/Dubble/Raise.antt =====
-- The first loop of `DubbleDiv` in native/blink/blink/divmul.c stops past the dividend, before its
-- bound.
use native.Mathlib.Nat.{mul-le-mul, le_refl, pow-suc, pow-le-pow_right, mul_assoc, mod-eq_of_lt}
use native.Mathlib.Decide.{ℕ_discrete}
use atua_computer.Base.{
  ℕ, zero, suc, ◌+◌, ◌*◌, ◌%◌, ◌^◌, ◌<◌, ◌≤◌, ◌≡◌, sym, ap, ◌∙◌, subst, arith, if◌then◌else◌,
  Bool-cases, inl, inr, false, Bool,
}
use atua_computer.Dubble.{Dubble, raise, dubble_shl, dubble_lte}
use atua_computer.Dubble.Laws.{value, IsDubble, IsDubble-shl, dubble_shl-value, dubble_lte_lem}

pub not_lte : (d a : Dubble) → IsDubble d → IsDubble a → dubble_lte d a ≡ false → value a < value d
unfolding dubble_lte
not_lte d a hd ha done = ground arith

module _ (b : ℕ) (hb : b < 2 ^ 64) (a : Dubble) (ha : IsDubble a)
    (below : value a < b * 2 ^ 64) where
  -- What the first loop gives after `n` shifts have been made before it.
  pub record Raised (n : ℕ) (r : Dubble × ℕ) : Type 0 where
    pub valid : IsDubble r.0
    pub shifted : value r.0 ≡ b * 2 ^ (n + r.1)
    pub past : value a < value r.0
    pub few : n + r.1 ≤ 64

  doubled : (n : ℕ) → n < 64 → b * 2 ^ n * 2 % 2 ^ 128 ≡ b * 2 ^ suc n
  doubled n h =
      let power = pow-suc 2 n in
      let bound : b * 2 ^ suc n ≤ b * 2 ^ 64 =
        mul-le-mul {n₁ = b} {n₂ = b} (le_refl b)
          (pow-le-pow_right {n = 2} (omega arith) {i = suc n} {j = 64} h) in
      let e : b * 2 ^ n * 2 ≡ b * 2 ^ suc n = mul_assoc b (2 ^ n) 2 ∙ ap (λ t. b * t) (sym power) in
      ap (λ t. t % 2 ^ 128) e ∙ mod-eq_of_lt (omega arith)

  fewer : (n : ℕ) → n ≤ 64 → b * 2 ^ n ≤ value a → n < 64
  fewer n le fits = elim (ℕ_discrete n 64) [
    | yes e ↦ absurd (omega (arith, ap (λ t. b * 2 ^ t) e))
    | no ne ↦ omega arith
  ]

  Raised-stop :
      (n : ℕ) (d : Dubble)
      → IsDubble d
      → value d ≡ b * 2 ^ n
      → n ≤ 64
      → value a < value d
      → Raised n (d, 0)
  Raised-stop n d hd e le past = record {
    valid = hd;
    shifted = e ∙ ap (λ t. b * 2 ^ t) (let z : n ≡ n + 0 = omega arith in z);
    past = past;
    few = omega arith;
  }

  Raised-more : (n : ℕ) (r : Dubble × ℕ) → Raised (suc n) r → Raised n (r.0, suc r.1)
  Raised-more n r h = record {
    valid = h.valid;
    shifted =
        h.shifted ∙ ap (λ t. b * 2 ^ t) (let z : suc n + r.1 ≡ n + suc r.1 = omega arith in z);
    past = h.past;
    few = omega (arith, h.few);
  }

  pub raise_lem :
      (k n : ℕ) (d : Dubble)
      → IsDubble d
      → value d ≡ b * 2 ^ n
      → n ≤ 64
      → 64 ≤ n + k
      → Raised n (raise k d a)
  unfolding raise
  raise_lem zero n d hd e le enough =
      let full : n ≡ 64 = omega arith in
      Raised-stop n d hd e le (omega (arith, e, ap (λ t. b * 2 ^ t) full))
  raise_lem (suc k) n d hd e le enough =
      let rest = raise k (dubble_shl d) a in
      let choose : Bool → Dubble × ℕ = λ c. if c then (rest.0, suc rest.1) else (d, 0) in
      elim (Bool-cases (dubble_lte d a)) [
        | inl more ↦
            let small = fewer n le (omega (arith, e, (dubble_lte_lem d a hd ha).0 more)) in
            let next = dubble_shl-value d hd ∙ ap (λ t. t * 2 % 2 ^ 128) e ∙ doubled n small in
            subst (Raised n) (ap choose (sym more)) (
              Raised-more n rest
                (raise_lem k (suc n) (dubble_shl d) (IsDubble-shl d hd) next small (omega arith)))
        | inr done ↦
            subst (Raised n) (ap choose (sym done))
              (Raised-stop n d hd e le (not_lte d a hd ha done))
      ]
