-- ===== src/Sse/Bytes.antt =====
-- Kernels of native/blink/blink/sse.c that move bytes, as arithmetic on the number that a vector
-- spells.
use atua_computer.Sse.Value.{
  AllBelow-drop, quotient_min, value-take, AllBelow-take, two_words, value-drop, AllBelow-append,
  le_or_lt, value-replicate, AllBelow-replicate, limit_min, pow_sum, value-append, value-lt, value,
}
use native.Mathlib.Nat.{mul-mod_left, mul_assoc, add-mul, add-mul-mod_self_right, mod-eq_of_lt}
use atua_computer.Base.{
  inl, inr, length-append, length-replicate, length-drop, length-take, take-append-drop, subst, ℕ,
  ◌+◌, ◌-◌, ◌*◌, ◌/◌, ◌%◌, ◌^◌, ◌<◌, ◌≤◌, ◌≡◌, sym, ap, ap₂, ◌∙◌, min, List, ◌++◌, length, take,
  drop, replicate, arith,
}
use atua_computer.Sse.Laws.{AllBelow}
use atua_computer.Sse.Kernels.Moves.{palignr, psrldq, pslldq}

-- For a vector of `n` bytes, `Psrldq` divides the number that it spells by a power of 256; a count
-- past the end gives 0.
pub psrldq-value :
    (n : ℕ) (x : List ℕ) (k : ℕ)
    → length x ≡ n
    → AllBelow 256 x
    → value (psrldq n x k) ≡ value x / 256 ^ k
unfolding psrldq
psrldq-value n x k e h =
    let small : value x < 256 ^ n = subst (λ t. value x < 256 ^ t) e (value-lt x h) in
    ap (λ c. value (drop c x ++ replicate c 0)) (limit_min n k)
    ∙ value-append (drop (min n k) x) (replicate (min n k) 0)
    ∙ ap (λ t. value (drop (min n k) x) + t * 256 ^ length (drop (min n k) x))
        (value-replicate (min n k))
    ∙ omega (arith, value-drop (min n k) x h, quotient_min n k (value x) small)

-- The two vectors in a row, followed by zeros, as `Palignr` lays them out.
abbrev row : ℕ → List ℕ → List ℕ → List ℕ
row n x y = y ++ (x ++ replicate n 0)

-- For vectors of `n` bytes, `Palignr` takes the number spelled by `x` above `y`, divides it by a
-- power of 256 and keeps `n` bytes, whatever the count.
pub palignr-value :
    (n : ℕ) (x y : List ℕ) (k : ℕ)
    → length x ≡ n
    → length y ≡ n
    → AllBelow 256 x
    → AllBelow 256 y
    → value (palignr n x y k) ≡ (value x * 256 ^ n + value y) / 256 ^ k % 256 ^ n
unfolding palignr
palignr-value n x y k ex ey hx hy =
    let zeros = AllBelow-replicate n in
    let whole =
      AllBelow-append y (x ++ replicate n 0) hy (AllBelow-append x (replicate n 0) hx zeros) in
    let m = min k (2 * n) in
    let rest : n ≤ length (drop m (row n x y)) = omega (
      arith,
      length-drop m (row n x y),
      length-append y (x ++ replicate n 0),
      length-append x (replicate n 0),
      length-replicate {A = ℕ} n 0,
      ex,
      ey,
    ) in
    let sum : value (row n x y) ≡ value x * 256 ^ n + value y =
      value-append y (x ++ replicate n 0)
      ∙ ap₂ (λ s t. value y + s * 256 ^ t)
          (value-append x (replicate n 0)
            ∙ ap (λ t. value x + t * 256 ^ length x) (value-replicate n))
          ey
      ∙ omega arith in
    let low : value y < 256 ^ n = subst (λ t. value y < 256 ^ t) ey (value-lt y hy) in
    let high : value x < 256 ^ n = subst (λ t. value x < 256 ^ t) ex (value-lt x hx) in
    let fits : value x * 256 ^ n + value y < 256 ^ (2 * n) =
      two_words n (value x) (value y) high low in
    value-take n (drop m (row n x y)) (AllBelow-drop m (row n x y) whole) rest
    ∙ ap (λ t. t % 256 ^ n)
        (value-drop m (row n x y) whole
          ∙ ap₂ (λ s c. s / 256 ^ c) sum (let e : min k (2 * n) ≡ min (2 * n) k = omega arith in e)
          ∙ quotient_min (2 * n) k (value x * 256 ^ n + value y) fits)

module _ (n : ℕ) (x : List ℕ) (e : length x ≡ n) (h : AllBelow 256 x) where
  -- What a left shift by `c` bytes leaves, and the part of it that comes from `x`.
  abbrev moved : ℕ → List ℕ
  moved c = replicate c 0 ++ take (n - c) x

  value-moved : (c : ℕ) → value (moved c) ≡ value (take (n - c) x) * 256 ^ c
  value-moved c =
      value-append (replicate c 0) (take (n - c) x)
      ∙ ap₂ (λ s t. s + value (take (n - c) x) * 256 ^ t) (value-replicate c) (length-replicate c 0)
      ∙ omega arith

  moved-fits : (c : ℕ) → c ≤ n → value (moved c) < 256 ^ n
  moved-fits c le =
      let long : length (moved c) ≡ n = omega (
        arith,
        length-append (replicate c 0) (take (n - c) x),
        length-replicate {A = ℕ} c 0,
        length-take (n - c) x (omega arith),
      ) in
      subst (λ t. value (moved c) < 256 ^ t) long
        (value-lt (moved c) (
          AllBelow-append (replicate c 0) (take (n - c) x) (AllBelow-replicate c)
            (AllBelow-take (n - c) x h)))

  moved-inside : (k : ℕ) → k ≤ n → value (moved k) ≡ value x * 256 ^ k % 256 ^ n
  moved-inside k le =
      let lo = value (take (n - k) x) in
      let hi = value (drop (n - k) x) in
      let whole : value x ≡ lo + hi * 256 ^ (n - k) =
        ap value (sym (take-append-drop (n - k) x))
        ∙ value-append (take (n - k) x) (drop (n - k) x)
        ∙ ap (λ t. lo + hi * 256 ^ t) (length-take (n - k) x (omega arith)) in
      let power : 256 ^ n ≡ 256 ^ (n - k) * 256 ^ k =
        ap (λ t. 256 ^ t) (let s : n ≡ k + (n - k) = omega arith in s) ∙ pow_sum k (n - k) in
      let scaled : value x * 256 ^ k ≡ value (moved k) + hi * 256 ^ n =
        ap (λ t. t * 256 ^ k) whole
        ∙ add-mul lo (hi * 256 ^ (n - k)) (256 ^ k)
        ∙ ap₂ (λ s t. s + t) (sym (value-moved k))
            (mul_assoc hi (256 ^ (n - k)) (256 ^ k) ∙ ap (λ t. hi * t) (sym power)) in
      sym (mod-eq_of_lt (moved-fits k le))
      ∙ sym (add-mul-mod_self_right (value (moved k)) hi (256 ^ n))
      ∙ ap (λ t. t % 256 ^ n) (sym scaled)

  moved-past : (k : ℕ) → n < k → value (moved n) ≡ value x * 256 ^ k % 256 ^ n
  moved-past k past =
      let none_left : n - n ≡ 0 = omega arith in
      let power : 256 ^ k ≡ 256 ^ (k - n) * 256 ^ n =
        ap (λ t. 256 ^ t) (let s : k ≡ n + (k - n) = omega arith in s) ∙ pow_sum n (k - n) in
      value-moved n
      ∙ ap (λ t. value (take t x) * 256 ^ n) none_left
      ∙ omega arith
      ∙ sym (mul-mod_left (value x * 256 ^ (k - n)) (256 ^ n))
      ∙ ap (λ t. t % 256 ^ n)
          (mul_assoc (value x) (256 ^ (k - n)) (256 ^ n) ∙ ap (λ t. value x * t) (sym power))

  -- For a vector of `n` bytes, `Pslldq` multiplies the number that it spells by a power of 256 and
  -- keeps `n` bytes; a count past the end gives 0.
  pub pslldq-value : (k : ℕ) → value (pslldq n x k) ≡ value x * 256 ^ k % 256 ^ n
  unfolding pslldq
  pslldq-value k = ap (λ c. value (moved c)) (limit_min n k) ∙ elim (le_or_lt k n) [
    | inl le ↦
        ap (λ c. value (moved c)) (let s : min n k ≡ k = omega arith in s) ∙ moved-inside k le
    | inr past ↦
        ap (λ c. value (moved c)) (let s : min n k ≡ n = omega arith in s) ∙ moved-past k past
  ]
