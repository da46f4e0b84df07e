-- ===== src/Sse/Lanes.antt =====
-- A vector is the list of its bytes. `Get16`, `Get32` and `Get64` read its lanes with the low byte
-- first, `Put16`, `Put32` and `Put64` write them. The loops of native/blink/blink/mmx.c and sse.c
-- write a lane only from what they read at the same place, so each is one pass over the lanes.
use atua_computer.Base.{
  ℕ, ◌+◌, ◌-◌, ◌*◌, ◌/◌, ◌%◌, ◌^◌, min, Bool, true, false, List, [], ◌∷◌, ltb, ℤ, pos, negsuc,
  pos_part, neg_part, Width, w8, w16, w32, w64, size, sign_bit, cast,
}

abbrev pub map : (ℕ → ℕ) → List ℕ → List ℕ
map f [] = []
map f (x ∷ xs) = f x ∷ map f xs

abbrev pub zip_with : (ℕ → ℕ → ℕ) → List ℕ → List ℕ → List ℕ
zip_with f [] ys = []
zip_with f (x ∷ xs) [] = []
zip_with f (x ∷ xs) (y ∷ ys) = f x y ∷ zip_with f xs ys

-- Two digits of a base make one of its square, the low one first.
abbrev pub pairs : (ℕ → ℕ → ℕ) → List ℕ → List ℕ
pairs f [] = []
pairs f (x ∷ []) = []
pairs f (x ∷ y ∷ rest) = f x y ∷ pairs f rest

abbrev pub joined : ℕ → List ℕ → List ℕ
joined base = pairs (λ lo hi. lo + hi * base)

abbrev pub split : ℕ → List ℕ → List ℕ
split base [] = []
split base (v ∷ vs) = v % base ∷ v / base % base ∷ split base vs

abbrev pub load : Width → List ℕ → List ℕ
load w8 x = x
load w16 x = joined (2 ^ 8) x
load w32 x = joined (2 ^ 16) (joined (2 ^ 8) x)
load w64 x = joined (2 ^ 32) (joined (2 ^ 16) (joined (2 ^ 8) x))

abbrev pub store : Width → List ℕ → List ℕ
store w8 vs = map (cast w8) vs
store w16 vs = split (2 ^ 8) vs
store w32 vs = split (2 ^ 8) (split (2 ^ 16) vs)
store w64 vs = split (2 ^ 8) (split (2 ^ 16) (split (2 ^ 32) vs))

-- `for (i...) Put(x + i, f(Get(x + i), Get(y + i)))`
abbrev pub each : Width → (ℕ → ℕ → ℕ) → List ℕ → List ℕ → List ℕ
each w f x y = store w (zip_with f (load w x) (load w y))

-- `for (i...) Put(x + i, f(Get(x + i)))`
abbrev pub each_one : Width → (ℕ → ℕ) → List ℕ → List ℕ
each_one w f x = store w (map f (load w x))

-- A signed result cut to a lane.
abbrev pub to_word : Width → ℤ → ℕ
to_word w (pos n) = n % size w
to_word w (negsuc n) = size w - 1 - n % size w

-- `MAX(-128, MIN(127, v))` and its like: the nearest number that fits a signed lane.
abbrev pub clamp : Width → ℤ → ℤ
clamp w (pos n) = pos (min n (2 ^ sign_bit w - 1))
clamp w (negsuc n) = negsuc (min n (2 ^ sign_bit w - 1))

abbrev pub negative : ℤ → Bool
negative (pos n) = false
negative (negsuc n) = true

-- `a < b` on signed integers.
unfoldable pub ltz : ℤ → ℤ → Bool
ltz a b = ltb (pos_part a + neg_part b) (pos_part b + neg_part a)

-- `-(a > b)` in a lane: all ones or zero.
abbrev pub mask : Width → Bool → ℕ
mask w true = size w - 1
mask w false = 0
