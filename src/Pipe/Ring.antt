-- ===== src/Pipe/Ring.antt =====
-- Positions on the ring of native/blink/blink/pipe_internal.c, and the bytes between two of them.
use atua_computer.Base.{
  get_or-set_ne, ℕ, zero, suc, ◌+◌, ◌-◌, ◌≤◌, ◌<◌, ◌≡◌, refl, sym, ap, ap₂, ◌∙◌, subst, ◌≢◌, ◌⊎◌,
  inl, inr, List, [], ◌∷◌, ◌++◌, arith, leb, if◌then◌else◌, length, get_or, set,
}
use native.Mathlib.Nat.{mod-lt, mod-eq_of_lt, mod_self}
use atua_computer.Pipe.{next_pos}
use native.Mathlib.Decide.{ℕ_discrete}

-- The steps from one position forward to another.
unfoldable pub distance : ℕ → ℕ → ℕ → ℕ
distance capacity i j = if leb i j then j - i else j + capacity - i

pub next_pos-lt : (c i : ℕ) → i < c → next_pos c i < c
unfolding next_pos
next_pos-lt c i h = mod-lt (i + 1) (omega arith)

next_pos-cases :
    (c i : ℕ) → i < c → (next_pos c i ≡ i + 1) × (i + 1 < c) ⊎ (next_pos c i ≡ 0) × (i + 1 ≡ c)
unfolding next_pos
next_pos-cases c i h = elim (ℕ_discrete (i + 1) c) [
  | yes e ↦ inr (rw e (mod_self c), e)
  | no ne ↦ inl (mod-eq_of_lt (omega arith), omega arith)
]

pub distance-next_pos :
    (c i j : ℕ) → i < c → j < c → i ≢ j → distance c i j ≡ suc (distance c (next_pos c i) j)
unfolding distance
distance-next_pos c i j hi hj ne = elim (next_pos-cases c i hi) [
  | inl e ↦ rw e.0 (ground arith)
  | inr e ↦ rw e.0 (ground arith)
]

pub distance-to-next_pos :
    (c i j : ℕ)
    → i < c
    → j < c
    → next_pos c j ≢ i
    → distance c i (next_pos c j) ≡ suc (distance c i j)
unfolding distance
distance-to-next_pos c i j hi hj ne = elim (next_pos-cases c j hj) [
  | inl e ↦ (let ne' : j + 1 ≢ i = (λ x. ne (e.0 ∙ x)) in rw e.0 (ground arith))
  | inr e ↦ (let ne' : 0 ≢ i = (λ x. ne (e.0 ∙ x)) in rw e.0 (ground arith))
]

pub distance-full : (c i j : ℕ) → i < c → j < c → next_pos c j ≡ i → distance c i j ≡ c - 1
unfolding distance
distance-full c i j hi hj e = elim (next_pos-cases c j hj) [
  | inl f ↦ (let g : i ≡ j + 1 = sym e ∙ f.0 in ground arith)
  | inr f ↦ (let g : i ≡ 0 = sym e ∙ f.0 in ground arith)
]

pub distance-lt : (c i j : ℕ) → i < c → j < c → distance c i j < c
unfolding distance
distance-lt c i j hi hj = ground arith

pub distance-same : (c i : ℕ) → distance c i i ≡ 0
unfolding distance
distance-same c i = ground arith

distance-zero : (c i j : ℕ) → i < c → j < c → distance c i j ≡ 0 → i ≡ j
unfolding distance
distance-zero c i j hi hj e = ground arith

-- `n` bytes from position `i` on.
unfoldable pub segment : List ℕ → ℕ → ℕ → ℕ → List ℕ
segment buffer c i zero = []
segment buffer c i (suc n) = get_or buffer i 0 ∷ segment buffer c (next_pos c i) n

pub length-segment : (buffer : List ℕ) (c i n : ℕ) → length (segment buffer c i n) ≡ n
unfolding segment
length-segment buffer c i zero = refl
length-segment buffer c i (suc n) = ap suc (length-segment buffer c (next_pos c i) n)

pub segment-set :
    (buffer : List ℕ) (c i j v n : ℕ)
    → i < c
    → j < c
    → n ≤ distance c i j
    → segment (set buffer j v) c i n ≡ segment buffer c i n
unfolding segment
segment-set buffer c i j v zero hi hj h = refl
segment-set buffer c i j v (suc n) hi hj h =
    let apart : j ≢ i =
      (λ e. absurd (omega (arith, subst (λ t. distance c t j ≡ 0) e (distance-same c j)))) in
    let step = distance-next_pos c i j hi hj (λ e. apart (sym e)) in
    ap₂ (λ a b. a ∷ b) (get_or-set_ne buffer j i v 0 apart)
      (segment-set buffer c (next_pos c i) j v n (next_pos-lt c i hi) hj (omega arith))

pub segment-suc :
    (buffer : List ℕ) (c i j n : ℕ)
    → i < c
    → j < c
    → distance c i j ≡ n
    → segment buffer c i (suc n) ≡ segment buffer c i n ++ (get_or buffer j 0 ∷ [])
unfolding segment
segment-suc buffer c i j zero hi hj e = rw (distance-zero c i j hi hj e) refl
segment-suc buffer c i j (suc n) hi hj e =
    let apart : i ≢ j = (λ same.
      absurd (omega (arith, subst (λ t. distance c t j ≡ 0) (sym same) (distance-same c j)))) in
    ap (λ t. get_or buffer i 0 ∷ t)
      (segment-suc buffer c (next_pos c i) j n (next_pos-lt c i hi) hj
        (omega (arith, distance-next_pos c i j hi hj apart)))
