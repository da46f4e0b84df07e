-- ===== src/Sse/Shifts.antt =====
-- Shifts of lanes in native/blink/blink/sse.c: the tests of the count make every count right.
use atua_computer.Base.{
  ℤ, ℕ, ◌+◌, ◌-◌, ◌*◌, ◌/◌, ◌%◌, ◌^◌, ◌<◌, ◌≤◌, ◌≡◌, refl, sym, ap, ap₂, ◌∙◌, true, false, List, [],
  ◌∷◌, length, replicate, arith, Width, w8, w16, w32, w64, size, cast, bits, sign_bit, signed,
  floor_shift, if◌then◌else◌, ltb, Bool-cases, inl, inr, pos, negsuc,
}
use atua_computer.Bits.Powers.{two_pow_add}
use atua_computer.Alu.Arith.Carries.{cast-lt}
use native.Mathlib.Nat.{
  mod-eq_of_lt, div-le_self, mul-mod_left, mul_assoc, div-eq_of_lt, pow-le-pow_right,
}
use atua_computer.Sse.Lanes.{load, store, map, to_word, each_one}
use atua_computer.Sse.Laws.{AllBelow, load-store, store_cut, map-below}
use atua_computer.Sse.Kernels.{shift_right, shift_left, shift_arithmetic}

map_cong :
    (n : ℕ) (f g : ℕ → ℕ)
    → ((v : ℕ) → v < n → f v ≡ g v)
    → (vs : List ℕ) → AllBelow n vs
    → map f vs ≡ map g vs
map_cong n f g h [] all = refl
map_cong n f g h (v ∷ vs) all = ap₂ (λ a b. a ∷ b) (h v all.0) (map_cong n f g h vs all.1)

map_twice : (f g : ℕ → ℕ) (vs : List ℕ) → map f (map g vs) ≡ map (λ v. f (g v)) vs
map_twice f g [] = refl
map_twice f g (v ∷ vs) = ap (λ t. f (g v) ∷ t) (map_twice f g vs)

load-each_one :
    (w : Width) (f : ℕ → ℕ) (vs : List ℕ)
    → AllBelow (size w) vs
    → load w (each_one w f (store w vs)) ≡ map (λ v. cast w (f v)) vs
load-each_one w f vs all =
    ap (λ t. load w (store w (map f t))) (load-store w vs all)
    ∙ ap (load w) (sym (store_cut w (map f vs)))
    ∙ load-store w (map (cast w) (map f vs)) (map-below w (map f vs))
    ∙ map_twice (cast w) f vs

map_zero : (vs : List ℕ) → replicate (length vs) 0 ≡ map (λ v. 0) vs
unfolding replicate
map_zero [] = refl
map_zero (v ∷ vs) = ap (λ t. 0 ∷ t) (map_zero vs)

cleared_lanes : (w : Width) → load w (replicate 8 0) ≡ replicate (64 / bits w) 0
unfolding replicate
cleared_lanes w8 = refl
cleared_lanes w16 = refl
cleared_lanes w32 = refl
cleared_lanes w64 = refl

lane_count : (w : Width) (n : ℕ) → n * bits w ≡ 64 → 64 / bits w ≡ n
lane_count w8 n e = omega arith
lane_count w16 n e = omega arith
lane_count w32 n e = omega arith
lane_count w64 n e = omega arith

-- Eight cleared bytes are lanes of 0.
cleared :
    (w : Width) (vs : List ℕ) → length vs * bits w ≡ 64 → load w (replicate 8 0) ≡ map (λ v. 0) vs
cleared w vs e =
    cleared_lanes w ∙ ap (λ n. replicate n 0) (lane_count w (length vs) e) ∙ map_zero vs

past_end : (n k v : ℕ) → n ≤ k → v < 2 ^ n → v / 2 ^ k ≡ 0
past_end n k v past small =
    div-eq_of_lt (omega (arith, pow-le-pow_right {n = 2} (omega arith) {i = n} {j = k} past))

fits_right : (w : Width) (k v : ℕ) → v < size w → cast w (v / 2 ^ k) ≡ v / 2 ^ k
fits_right w k v h = mod-eq_of_lt (omega (arith, div-le_self v (2 ^ k)))

past_left : (n k v : ℕ) → n ≤ k → 0 ≡ v * 2 ^ k % 2 ^ n
past_left n k v past =
    let power : 2 ^ k ≡ 2 ^ (k - n) * 2 ^ n =
      ap (λ t. 2 ^ t) (let s : k ≡ k - n + n = omega arith in s) ∙ two_pow_add (k - n) n in
    sym (mul-mod_left (v * 2 ^ (k - n)) (2 ^ n))
    ∙ ap (λ t. t % 2 ^ n) (mul_assoc v (2 ^ (k - n)) (2 ^ n) ∙ ap (λ t. v * t) (sym power))

last : (w : Width) → sign_bit w ≤ bits w - 1
last w8 = omega arith
last w16 = omega arith
last w32 = omega arith
last w64 = omega arith

complement_fits :
    (w : Width) (v : ℕ) → 2 ^ sign_bit w ≤ v → v < size w → size w - 1 - v < 2 ^ sign_bit w
complement_fits w8 v p q = omega arith
complement_fits w16 v p q = omega arith
complement_fits w32 v p q = omega arith
complement_fits w64 v p q = omega arith

word_id : (w : Width) (v : ℤ) → cast w (to_word w v) ≡ to_word w v
word_id w (pos n) = mod-eq_of_lt (cast-lt w n)
word_id w (negsuc n) = mod-eq_of_lt (omega (arith, cast-lt w n))

leb_past : (k n : ℕ) → ltb k n ≡ false → n ≤ k
leb_past k n e = ground arith

ltb_lt : (n k : ℕ) → ltb n k ≡ true → n < k
ltb_lt n k e = ground arith

-- From the width of a lane on, a shifted signed lane is 0 or -1 by its sign.
floor_past :
    (w : Width) (k v : ℕ)
    → sign_bit w ≤ k
    → v < size w
    → floor_shift (signed w v) k ≡ (if ltb v (2 ^ sign_bit w) then pos 0 else negsuc 0)
unfolding signed
floor_past w k v past small = elim (Bool-cases (ltb v (2 ^ sign_bit w))) [
  | inl low ↦ rw low (ap pos (past_end (sign_bit w) k v past (ltb_lt v (2 ^ sign_bit w) low)))
  | inr high ↦ rw high (
      ap negsuc (
        past_end (sign_bit w) k (size w - 1 - v) past
          (complement_fits w v (leb_past v (2 ^ sign_bit w) high) small)))
]

limited :
    (w : Width) (k v : ℕ)
    → v < size w
    → cast w (to_word w (floor_shift (signed w v) (if ltb (bits w - 1) k then bits w - 1 else k)))
      ≡ to_word w (floor_shift (signed w v) k)
limited w k v small = elim (Bool-cases (ltb (bits w - 1) k)) [
  | inl past ↦ rw past (
      word_id w _
      ∙ ap (to_word w) (
          floor_past w (bits w - 1) v (last w) small
          ∙ sym (floor_past w k v (omega (arith, last w, ltb_lt _ _ past)) small)))
  | inr inside ↦ rw inside (word_id w (floor_shift (signed w v) k))
]

-- For eight bytes in lanes of any size, the right shifts divide every lane by a power of two,
-- whatever the count.
pub shift_right_lem :
    (w : Width) (vs : List ℕ) (k : ℕ)
    → length vs * bits w ≡ 64
    → AllBelow (size w) vs
    → load w (shift_right w (store w vs) k) ≡ map (λ v. v / 2 ^ k) vs
unfolding shift_right
shift_right_lem w vs k e all = elim (Bool-cases (ltb k (bits w))) [
  | inl inside ↦ rw inside (
      load-each_one w (λ v. v / 2 ^ k) vs all
      ∙ map_cong (size w) (λ v. cast w (v / 2 ^ k)) (λ v. v / 2 ^ k) (λ v h. fits_right w k v h) vs
          all)
  | inr past ↦ rw past (
      cleared w vs e
      ∙ map_cong (size w) (λ v. 0) (λ v. v / 2 ^ k)
          (λ v h. sym (past_end (bits w) k v (leb_past k (bits w) past) h)) vs all)
]

-- For eight bytes in lanes of any size, the left shifts multiply every lane by a power of two and
-- cut it to the lane, whatever the count.
pub shift_left_lem :
    (w : Width) (vs : List ℕ) (k : ℕ)
    → length vs * bits w ≡ 64
    → AllBelow (size w) vs
    → load w (shift_left w (store w vs) k) ≡ map (λ v. v * 2 ^ k % size w) vs
unfolding shift_left
shift_left_lem w vs k e all = elim (Bool-cases (ltb k (bits w))) [
  | inl inside ↦ rw inside (load-each_one w (λ v. v * 2 ^ k) vs all)
  | inr past ↦ rw past (
      cleared w vs e
      ∙ map_cong (size w) (λ v. 0) (λ v. v * 2 ^ k % size w)
          (λ v h. past_left (bits w) k v (leb_past k (bits w) past)) vs all)
]

-- For lanes of any size, the arithmetic right shifts divide every signed lane by a power of two and
-- round down, whatever the count.
pub shift_arithmetic_lem :
    (w : Width) (vs : List ℕ) (k : ℕ)
    → AllBelow (size w) vs
    → load w (shift_arithmetic w (store w vs) k)
      ≡ map (λ v. to_word w (floor_shift (signed w v) k)) vs
unfolding shift_arithmetic
shift_arithmetic_lem w vs k all =
    load-each_one w
      (λ v. to_word w (floor_shift (signed w v) (if ltb (bits w - 1) k then bits w - 1 else k))) vs
      all
    ∙ map_cong (size w) _ _ (limited w k) vs all
