-- ===== src/Sse/Laws.antt =====
-- Laws of the lanes of native/blink/blink/sse.c: what is stored is read back, lane by lane.
use native.Mathlib.Nat.{mod-lt}
use atua_computer.Base.{
  ℕ, ◌+◌, ◌*◌, ◌/◌, ◌%◌, ◌^◌, ◌<◌, ◌≡◌, refl, sym, ap, ap₂, ◌∙◌, List, [], ◌∷◌, arith, Width, w8,
  w16, w32, w64, size, cast,
}
use atua_computer.Alu.Arith.Carries.{cast-lt}
use atua_computer.Sse.Lanes.{load, store, split, joined, map, zip_with, each}

-- Every lane fits.
abbrev pub AllBelow : ℕ → List ℕ → Type 0
AllBelow n [] = Unit
AllBelow n (v ∷ vs) = (v < n) × AllBelow n vs

joined-split :
    (base : ℕ) (vs : List ℕ)
    → joined base (split base vs) ≡ map (λ v. v % base + v / base % base * base) vs
joined-split base [] = refl
joined-split base (v ∷ vs) =
    ap (λ t. (v % base + v / base % base * base) ∷ t) (joined-split base vs)

map-fits :
    (n : ℕ) (f : ℕ → ℕ)
    → ((v : ℕ) → v < n → f v ≡ v)
    → (vs : List ℕ) → AllBelow n vs
    → map f vs ≡ vs
map-fits n f h [] all = refl
map-fits n f h (v ∷ vs) all = ap₂ (λ a b. a ∷ b) (h v all.0) (map-fits n f h vs all.1)

halves16 : (vs : List ℕ) → AllBelow (2 ^ 16) vs → joined (2 ^ 8) (split (2 ^ 8) vs) ≡ vs
halves16 vs all = joined-split (2 ^ 8) vs ∙ map-fits (2 ^ 16) _ (λ v h. omega arith) vs all

halves32 : (vs : List ℕ) → AllBelow (2 ^ 32) vs → joined (2 ^ 16) (split (2 ^ 16) vs) ≡ vs
halves32 vs all = joined-split (2 ^ 16) vs ∙ map-fits (2 ^ 32) _ (λ v h. omega arith) vs all

halves64 : (vs : List ℕ) → AllBelow (2 ^ 64) vs → joined (2 ^ 32) (split (2 ^ 32) vs) ≡ vs
halves64 vs all = joined-split (2 ^ 32) vs ∙ map-fits (2 ^ 64) _ (λ v h. omega arith) vs all

split-below : (base : ℕ) → 0 < base → (vs : List ℕ) → AllBelow base (split base vs)
split-below base h [] = tt
split-below base h (v ∷ vs) = (mod-lt v h, (mod-lt (v / base) h, split-below base h vs))

pub load-store : (w : Width) (vs : List ℕ) → AllBelow (size w) vs → load w (store w vs) ≡ vs
load-store w8 vs all = map-fits (2 ^ 8) _ (λ v h. omega arith) vs all
load-store w16 vs all = halves16 vs all
load-store w32 vs all =
    ap (joined (2 ^ 16)) (halves16 (split (2 ^ 16) vs) (split-below (2 ^ 16) (omega arith) vs))
    ∙ halves32 vs all
load-store w64 vs all =
    let low = split (2 ^ 32) vs in
    ap (λ t. joined (2 ^ 32) (joined (2 ^ 16) t))
      (halves16 (split (2 ^ 16) low) (split-below (2 ^ 16) (omega arith) low))
    ∙ ap (joined (2 ^ 32)) (halves32 low (split-below (2 ^ 32) (omega arith) vs))
    ∙ halves64 vs all

-- Storing cuts to the lane by itself.
split_cut :
    (base : ℕ) (f : ℕ → ℕ)
    → ((v : ℕ) → f v % base ≡ v % base)
    → ((v : ℕ) → f v / base % base ≡ v / base % base)
    → (vs : List ℕ) → split base (map f vs) ≡ split base vs
split_cut base f lo hi [] = refl
split_cut base f lo hi (v ∷ vs) =
    ap₂ (λ a b. a ∷ b) (lo v) (ap₂ (λ a b. a ∷ b) (hi v) (split_cut base f lo hi vs))

pub store_cut : (w : Width) (vs : List ℕ) → store w (map (cast w) vs) ≡ store w vs
store_cut w8 [] = refl
store_cut w8 (v ∷ vs) = ap₂ (λ a b. a ∷ b) (omega arith) (store_cut w8 vs)
store_cut w16 vs = split_cut (2 ^ 8) (cast w16) (λ v. omega arith) (λ v. omega arith) vs
store_cut w32 vs =
    ap (split (2 ^ 8)) (split_cut (2 ^ 16) (cast w32) (λ v. omega arith) (λ v. omega arith) vs)
store_cut w64 vs =
    ap (λ t. split (2 ^ 8) (split (2 ^ 16) t))
      (split_cut (2 ^ 32) (cast w64) (λ v. omega arith) (λ v. omega arith) vs)

pub map-below : (w : Width) (vs : List ℕ) → AllBelow (size w) (map (cast w) vs)
map-below w [] = tt
map-below w (v ∷ vs) = (cast-lt w v, map-below w vs)

-- Reading back what an operation stored: its results, each cut to the lane.
pub load-each :
    (w : Width) (f : ℕ → ℕ → ℕ) (vs ws : List ℕ)
    → AllBelow (size w) vs
    → AllBelow (size w) ws
    → load w (each w f (store w vs) (store w ws)) ≡ map (cast w) (zip_with f vs ws)
load-each w f vs ws hv hw =
    ap (λ t. load w (store w t)) (ap₂ (zip_with f) (load-store w vs hv) (load-store w ws hw))
    ∙ ap (load w) (sym (store_cut w (zip_with f vs ws)))
    ∙ load-store w (map (cast w) (zip_with f vs ws)) (map-below w (zip_with f vs ws))
