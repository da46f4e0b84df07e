-- ===== src/Sse/Value.antt =====
-- The number that a vector of bytes spells, and what cutting and joining vectors does to it.
use native.Mathlib.Nat.{
  mul-le-mul_right, add-zero, add-suc, pow-suc, add-mul-mod_self_right, mod-eq_of_lt,
  pow-le-pow_right, div-eq_of_lt, zero-div, div-div-eq-div-mul, mul_comm,
}
use native.Mathlib.Decide.{ℕ_discrete}
use atua_computer.Base.{
  if◌then◌else◌, ltb, inl, inr, ◌⊎◌, length-take, take-append-drop, subst, ℕ, zero, suc, ◌+◌, ◌-◌,
  ◌*◌, ◌/◌, ◌%◌, ◌^◌, ◌<◌, ◌≤◌, ◌≡◌, refl, sym, ap, ◌∙◌, min, List, [], ◌∷◌, ◌++◌, length, take,
  drop, replicate, arith,
}
use atua_computer.Sse.Laws.{AllBelow}

-- The number with these bytes, the low one first.
abbrev pub value : List ℕ → ℕ
value [] = 0
value (b ∷ x) = b + value x * 256

pub value-drop : (k : ℕ) (x : List ℕ) → AllBelow 256 x → value (drop k x) ≡ value x / 256 ^ k
value-drop zero x h = omega arith
value-drop (suc k) [] h = sym (zero-div (256 ^ suc k))
value-drop (suc k) (b ∷ x) h =
    let p = h.0 in
    let head : (b + value x * 256) / 256 ≡ value x = omega arith in
    value-drop k x h.1
    ∙ ap (λ t. t / 256 ^ k) (sym head)
    ∙ div-div-eq-div-mul (b + value x * 256) 256 (256 ^ k)
    ∙ ap (λ t. (b + value x * 256) / t) (mul_comm 256 (256 ^ k) ∙ sym (pow-suc 256 k))

pub value-lt : (x : List ℕ) → AllBelow 256 x → value x < 256 ^ length x
value-lt [] h = omega arith
value-lt (b ∷ x) h = let p = h.0 in omega (arith, value-lt x h.1, pow-suc 256 (length x))

pub value-append : (x y : List ℕ) → value (x ++ y) ≡ value x + value y * 256 ^ length x
value-append [] y = omega arith
value-append (b ∷ x) y =
    omega (arith, value-append x y, ap (λ (t : ℕ). value y * t) (pow-suc 256 (length x)))

pub AllBelow-drop : (k : ℕ) (x : List ℕ) → AllBelow 256 x → AllBelow 256 (drop k x)
AllBelow-drop zero x h = h
AllBelow-drop (suc k) [] h = tt
AllBelow-drop (suc k) (b ∷ x) h = AllBelow-drop k x h.1

pub AllBelow-take : (k : ℕ) (x : List ℕ) → AllBelow 256 x → AllBelow 256 (take k x)
AllBelow-take zero x h = tt
AllBelow-take (suc k) [] h = tt
AllBelow-take (suc k) (b ∷ x) h = (h.0, AllBelow-take k x h.1)

pub AllBelow-append : (x y : List ℕ) → AllBelow 256 x → AllBelow 256 y → AllBelow 256 (x ++ y)
AllBelow-append [] y h i = i
AllBelow-append (b ∷ x) y h i = (h.0, AllBelow-append x y h.1 i)

pub AllBelow-replicate : (n : ℕ) → AllBelow 256 (replicate n 0)
unfolding replicate
AllBelow-replicate zero = tt
AllBelow-replicate (suc n) = (omega arith, AllBelow-replicate n)

pub value-replicate : (n : ℕ) → value (replicate n 0) ≡ 0
unfolding replicate
value-replicate zero = refl
value-replicate (suc n) = omega (arith, value-replicate n)

pub value-take :
    (n : ℕ) (x : List ℕ) → AllBelow 256 x → n ≤ length x → value (take n x) ≡ value x % 256 ^ n
value-take n x h le =
    let parts = value-append (take n x) (drop n x) in
    let whole = ap value (take-append-drop n x) in
    let long = length-take n x le in
    let cut = add-mul-mod_self_right (value (take n x)) (value (drop n x)) (256 ^ n) in
    let small = value-lt (take n x) (AllBelow-take n x h) in
    sym (mod-eq_of_lt (subst (λ t. value (take n x) < 256 ^ t) long small))
    ∙ sym cut
    ∙ ap (λ t. t % 256 ^ n)
        (ap (λ t. value (take n x) + value (drop n x) * 256 ^ t) (sym long) ∙ sym parts ∙ whole)

pub pow_past : (n k : ℕ) → n ≤ k → 256 ^ n ≤ 256 ^ k
pow_past n k h = pow-le-pow_right (omega arith) h

pub pow_sum : (n d : ℕ) → 256 ^ (n + d) ≡ 256 ^ d * 256 ^ n
pow_sum n zero = ap (λ t. 256 ^ t) (add-zero n) ∙ omega arith
pow_sum n (suc d) = omega (
  arith,
  ap (λ t. 256 ^ t) (add-suc n d),
  pow_sum n d,
  pow-suc 256 (n + d),
  ap (λ (t : ℕ). t * 256 ^ n) (pow-suc 256 d),
)

pub two_words : (n a b : ℕ) → a < 256 ^ n → b < 256 ^ n → a * 256 ^ n + b < 256 ^ (2 * n)
two_words n a b ha hb =
    let square : 256 ^ (2 * n) ≡ 256 ^ n * 256 ^ n =
      ap (λ t. 256 ^ t) (let e : 2 * n ≡ n + n = omega arith in e) ∙ pow_sum n n in
    let step : suc a * 256 ^ n ≤ 256 ^ n * 256 ^ n = mul-le-mul_right (256 ^ n) ha in
    omega (arith, square, step)

pub le_or_lt : (k n : ℕ) → (k ≤ n) ⊎ (n < k)
le_or_lt k n = elim (ℕ_discrete (k - n) 0) [ yes e ↦ inl (omega arith) | no ne ↦ inr (omega arith) ]

pub limit_min : (n k : ℕ) → (if ltb n k then n else k) ≡ min n k
limit_min n k = ground arith

-- A number of `n` bytes has no byte past the last.
pub quotient_min : (n k v : ℕ) → v < 256 ^ n → v / 256 ^ min n k ≡ v / 256 ^ k
quotient_min n k v small = elim (le_or_lt k n) [
  | inl le ↦ ap (λ t. v / 256 ^ t) (omega arith)
  | inr past ↦
      ap (λ t. v / 256 ^ t) (let e : min n k ≡ n = omega arith in e)
      ∙ div-eq_of_lt small
      ∙ sym (div-eq_of_lt (omega (arith, pow_past n k (omega arith))))
]
