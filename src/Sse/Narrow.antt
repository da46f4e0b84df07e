-- ===== src/Sse/Narrow.antt =====
-- Widening by unpacking and narrowing by packing, in native/blink/blink/sse.c.
use atua_computer.Base.{
  ℕ, zero, suc, ◌+◌, ◌-◌, ◌*◌, ◌^◌, ◌≤◌, ◌≡◌, refl, sym, ap, ap₂, ◌∙◌, min, List, [], ◌∷◌, ◌++◌,
  length, take, drop, replicate, arith, w8, w16, cast, signed, length-take, length-drop,
  take-append-drop, if◌then◌else◌,
}
use atua_computer.Sse.Lanes.{map, negative, joined}
use atua_computer.Sse.Laws.{AllBelow}
use atua_computer.Sse.Value.{AllBelow-take, AllBelow-drop}
use atua_computer.Sse.Kernels.Moves.{packuswb, punpcklbw, punpckhbw, interleave}

narrow : List ℕ → List ℕ
unfolding signed
narrow = map (λ v. if negative (signed w16 v) then 0 else min 255 v)

widened :
    (x : List ℕ)
    → joined (2 ^ 8) (interleave x (replicate (length x) 0)) ≡ map (λ b. b + 0 * 2 ^ 8) x
unfolding replicate
widened [] = refl
widened (b ∷ x) = ap (λ t. (b + 0 * 2 ^ 8) ∷ t) (widened x)

kept :
    (x : List ℕ)
    → AllBelow 256 x
    → map (λ v. if negative (signed w16 v) then 0 else min 255 v) (map (λ b. b + 0 * 2 ^ 8) x) ≡ x
unfolding signed
kept [] h = refl
kept (b ∷ x) h = let p = h.0 in ap₂ (λ s t. s ∷ t) (ground arith) (kept x h.1)

unpacked :
    (x : List ℕ)
    → AllBelow 256 x
    → narrow (joined (2 ^ 8) (interleave x (replicate (length x) 0))) ≡ x
unfolding narrow
unpacked x h = ap narrow (widened x) ∙ kept x h

stored : (x : List ℕ) → AllBelow 256 x → map (cast w8) x ≡ x
stored [] h = refl
stored (b ∷ x) h = let p = h.0 in ap₂ (λ s t. s ∷ t) (omega arith) (stored x h.1)

take-replicate : (k n : ℕ) → k ≤ n → take {A = ℕ} k (replicate n 0) ≡ replicate k 0
unfolding replicate
take-replicate zero n h = refl
take-replicate (suc k) zero h = absurd (omega arith)
take-replicate (suc k) (suc n) h = ap (λ t. 0 ∷ t) (take-replicate k n (omega arith))

zeros_for : (m n : ℕ) → m ≡ n → replicate {A = ℕ} m 0 ≡ replicate n 0
zeros_for m n e = ap (λ t. replicate t 0) e

drop-replicate : (k n : ℕ) → drop {A = ℕ} k (replicate n 0) ≡ replicate (n - k) 0
unfolding replicate
drop-replicate zero n = zeros_for n (n - 0) (omega arith)
drop-replicate (suc k) zero = zeros_for 0 (0 - suc k) (omega arith)
drop-replicate (suc k) (suc n) =
    drop-replicate k n ∙ zeros_for (n - k) (suc n - suc k) (omega arith)

half_left : (h n m : ℕ) → n ≡ h + h → m ≡ n - h → n - h ≡ m
half_left h n m p q = omega arith

-- `Packuswb` undoes the widening of a vector of bytes with zeros: the lower half by `Punpcklbw`,
-- the upper half by `Punpckhbw`.
pub packuswb-punpcklbw :
    (half : ℕ) (x : List ℕ)
    → length x ≡ half + half
    → AllBelow 256 x
    → packuswb
        (punpcklbw half x (replicate (half + half) 0))
        (punpckhbw half x (replicate (half + half) 0))
      ≡ x
unfolding packuswb punpcklbw punpckhbw narrow
packuswb-punpcklbw half x e h =
    let low = take half x in
    let high = drop half x in
    let zeros_low : take {A = ℕ} half (replicate (half + half) 0) ≡ replicate (length low) 0 =
      take-replicate half (half + half) (omega arith)
      ∙ zeros_for half (length low) (sym (length-take half x (omega arith))) in
    let zeros_high : drop {A = ℕ} half (replicate (half + half) 0) ≡ replicate (length high) 0 =
      drop-replicate half (half + half)
      ∙ zeros_for (half + half - half) (length high) (
          half_left half (half + half) (length high) (omega arith)
            (length-drop half x ∙ ap (λ t. t - half) e)) in
    ap₂
      (λ s t.
        map (cast w8) (
          narrow (joined (2 ^ 8) (interleave low s))
          ++ narrow (joined (2 ^ 8) (interleave high t))))
      zeros_low zeros_high
    ∙ ap₂ (λ s t. map (cast w8) (s ++ t)) (unpacked low (AllBelow-take half x h))
        (unpacked high (AllBelow-drop half x h))
    ∙ ap (map (cast w8)) (take-append-drop half x)
    ∙ stored x h
