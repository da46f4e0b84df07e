-- ===== src/Sse/Aliased.antt =====
-- `SsePsrlwv` of native/blink/blink/sse.c when both operands are the same register.
use atua_computer.Base.{
  ℕ, zero, suc, ◌/◌, ◌^◌, ◌≤◌, ◌≡◌, refl, ap, ap₂, ◌∙◌, true, false, List, [], ◌∷◌, ◌++◌, length,
  take, drop, replicate, arith, w16, ltb, Bool-cases, inl, inr,
}
use atua_computer.Sse.Lanes.{store, map}
use atua_computer.Sse.Laws.{AllBelow, load-store}
use atua_computer.Sse.Kernels.{shift_right, mmx_psrlwv, mmx_psrlw, count_of}
use atua_computer.Sse.Halves.{sse_psrlwv, sse_psrlw}

count_of_cleared : (x : List ℕ) → count_of (replicate 8 0 ++ x) ≡ 0
unfolding replicate
count_of_cleared x = refl

cleared_past : (x : List ℕ) (k : ℕ) → 16 ≤ k → shift_right w16 x k ≡ replicate 8 0
unfolding shift_right
cleared_past x k h = elim (Bool-cases (ltb k 16)) [
  | inl e ↦ absurd (ground arith)
  | inr e ↦ rw e refl
]

map_same : (f : ℕ → ℕ) → ((v : ℕ) → f v ≡ v) → (vs : List ℕ) → map f vs ≡ vs
map_same f h [] = refl
map_same f h (v ∷ vs) = ap₂ (λ a b. a ∷ b) (h v) (map_same f h vs)

kept_by_zero :
    (ws : List ℕ) → AllBelow (2 ^ 16) ws → shift_right w16 (store w16 ws) 0 ≡ store w16 ws
unfolding shift_right
kept_by_zero ws h =
    ap (λ t. store w16 (map (λ v. v / 2 ^ 0) t)) (load-store w16 ws h)
    ∙ ap (store w16) (map_same (λ v. v / 2 ^ 0) (λ v. omega arith) ws)

take-append : (n : ℕ) (x y : List ℕ) → length x ≡ n → take n (x ++ y) ≡ x
take-append zero [] y e = refl
take-append zero (a ∷ x) y e = absurd (omega arith)
take-append (suc n) [] y e = absurd (omega arith)
take-append (suc n) (a ∷ x) y e = ap (λ t. a ∷ t) (take-append n x y (omega arith))

drop-append : (n : ℕ) (x y : List ℕ) → length x ≡ n → drop n (x ++ y) ≡ y
drop-append zero [] y e = refl
drop-append zero (a ∷ x) y e = absurd (omega arith)
drop-append (suc n) [] y e = absurd (omega arith)
drop-append (suc n) (a ∷ x) y e = drop-append n x y (omega arith)

-- When the shift of words by a count takes the count from the very register that it shifts, and the
-- count passes the lanes, the lower half is cleared but the upper half keeps its words, since the
-- second half reads a count that the first has overwritten with 0.
pub sse_psrlwv-aliased :
    (low : List ℕ) (ws : List ℕ)
    → length low ≡ 8
    → AllBelow (2 ^ 16) ws
    → 16 ≤ count_of (low ++ store w16 ws)
    → sse_psrlwv true (low ++ store w16 ws) (low ++ store w16 ws) ≡ replicate 8 0 ++ store w16 ws
unfolding sse_psrlwv mmx_psrlwv
sse_psrlwv-aliased low ws e h past =
    let x = low ++ store w16 ws in
    let rest = drop-append 8 low (store w16 ws) e in
    let first : shift_right w16 (take 8 x) (count_of x) ≡ replicate 8 0 =
      cleared_past (take 8 x) (count_of x) past in
    ap₂ (λ s t. s ++ shift_right w16 t (count_of (s ++ t))) first rest
    ∙ ap (λ k. replicate 8 0 ++ shift_right w16 (store w16 ws) k) (count_of_cleared (store w16 ws))
    ∙ ap (λ t. replicate 8 0 ++ t) (kept_by_zero ws h)

-- From another register, the shift by a count in a vector is the shift by that count on both halves.
pub sse_psrlwv-sse_psrlw : (x y : List ℕ) → sse_psrlwv false x y ≡ sse_psrlw x (count_of y)
unfolding sse_psrlwv sse_psrlw mmx_psrlwv mmx_psrlw
sse_psrlwv-sse_psrlw x y = refl
