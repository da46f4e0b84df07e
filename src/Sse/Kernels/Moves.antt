-- ===== src/Sse/Kernels/Moves.antt =====
-- native/blink/blink/sse.c: kernels that move bytes, narrow lanes, or combine neighbours.
use atua_computer.Base.{
  ℕ, ◌+◌, ◌-◌, ◌*◌, ◌%◌, min, List, [], ◌∷◌, ◌++◌, ltb, ◌==◌, if◌then◌else◌, get_or, take, drop,
  ◌>>>◌, ℤ, signed, ◌+ℤ◌, w8, w16, w32, w64, size, pos, replicate, ◌&&&◌, ◌*ℤ◌,
}
use atua_computer.Sse.Lanes.{each, map, pairs, load, store, to_word, clamp, negative}

-- Vectors of `n` bytes, eight or sixteen: the text of the two kernels is one.
unfoldable pub pslldq : ℕ → List ℕ → ℕ → List ℕ
pslldq n x k = let c = if ltb n k then n else k in replicate c 0 ++ take (n - c) x

unfoldable pub psrldq : ℕ → List ℕ → ℕ → List ℕ
psrldq n x k = let c = if ltb n k then n else k in drop c x ++ replicate c 0

unfoldable pub palignr : ℕ → List ℕ → List ℕ → ℕ → List ℕ
palignr n x y k = take n (drop (min k (2 * n)) (y ++ (x ++ replicate n 0)))

unfoldable pub pshufb : ℕ → List ℕ → List ℕ → List ℕ
pshufb n x y = map (λ b. if (b &&& 128) == 0 then get_or x (b &&& (n - 1)) 0 else 0) y

-- 16-bit lanes narrowed to bytes, those of `x` first.
unfoldable pub packuswb : List ℕ → List ℕ → List ℕ
unfolding signed
packuswb x y =
    let narrow = map (λ v. if negative (signed w16 v) then 0 else min 255 v) in
    store w8 (narrow (load w16 x) ++ narrow (load w16 y))

unfoldable pub packsswb : List ℕ → List ℕ → List ℕ
unfolding signed
packsswb x y =
    let narrow = map (λ v. to_word w8 (clamp w8 (signed w16 v))) in
    store w8 (narrow (load w16 x) ++ narrow (load w16 y))

unfoldable pub packssdw : List ℕ → List ℕ → List ℕ
unfolding signed
packssdw x y =
    let narrow = map (λ v. to_word w16 (clamp w16 (signed w32 v))) in
    store w16 (narrow (load w32 x) ++ narrow (load w32 y))

unfoldable pub phaddw : List ℕ → List ℕ → List ℕ
phaddw x y = let f = pairs (λ a b. a + b) in store w16 (f (load w16 x) ++ f (load w16 y))

unfoldable pub phsubw : List ℕ → List ℕ → List ℕ
phsubw x y = let f = pairs (λ a b. a + size w16 - b) in store w16 (f (load w16 x) ++ f (load w16 y))

unfoldable pub phaddd : List ℕ → List ℕ → List ℕ
phaddd x y = let f = pairs (λ a b. a + b) in store w32 (f (load w32 x) ++ f (load w32 y))

unfoldable pub phsubd : List ℕ → List ℕ → List ℕ
phsubd x y = let f = pairs (λ a b. a + size w32 - b) in store w32 (f (load w32 x) ++ f (load w32 y))

-- Sums of neighbouring products, of signed words.
unfoldable pub pmaddwd : List ℕ → List ℕ → List ℕ
unfolding signed ◌*ℤ◌ ◌+ℤ◌
pmaddwd x y =
    let product : ℕ → ℕ → ℤ = λ a b. signed w16 (a % size w16) *ℤ signed w16 (b % size w16) in
    each w32 (λ a b. to_word w32 (product a b +ℤ product (a >>> 16) (b >>> 16))) x y

-- Unsigned bytes of `x` with signed bytes of `y`, clamped.
unfoldable pub pmaddubsw : List ℕ → List ℕ → List ℕ
unfolding signed ◌*ℤ◌ ◌+ℤ◌
pmaddubsw x y =
    let product : ℕ → ℕ → ℤ = λ a b. pos (a % size w8) *ℤ signed w8 (b % size w8) in
    each w16 (λ a b. to_word w16 (clamp w16 (product a b +ℤ product (a >>> 8) (b >>> 8)))) x y

-- `ABS(x[i] - y[i])`, summed.
abbrev pub differences : List ℕ → List ℕ → ℕ
differences [] ys = 0
differences (x ∷ xs) [] = 0
differences (x ∷ xs) (y ∷ ys) = (x - y) + (y - x) + differences xs ys

-- The kernel on eight bytes sums each four apart, the one on sixteen each eight.
unfoldable pub mmx_psadbw : List ℕ → List ℕ → List ℕ
mmx_psadbw x y =
    store w32 (differences (take 4 x) (take 4 y) ∷ differences (drop 4 x) (drop 4 y) ∷ [])

unfoldable pub sse_psadbw : List ℕ → List ℕ → List ℕ
sse_psadbw x y =
    store w64 (differences (take 8 x) (take 8 y) ∷ differences (drop 8 x) (drop 8 y) ∷ [])

abbrev pub interleave : List ℕ → List ℕ → List ℕ
interleave [] ys = []
interleave (x ∷ xs) [] = []
interleave (x ∷ xs) (y ∷ ys) = x ∷ y ∷ interleave xs ys

-- The byte assignments of the kernels read a byte before they overwrite it, also when `y` is `x`.
unfoldable pub punpcklbw : ℕ → List ℕ → List ℕ → List ℕ
punpcklbw half x y = interleave (take half x) (take half y)

unfoldable pub punpckhbw : ℕ → List ℕ → List ℕ → List ℕ
punpckhbw half x y = interleave (drop half x) (drop half y)

unfoldable pub mmx_punpcklwd : List ℕ → List ℕ → List ℕ
mmx_punpcklwd x y = take 2 x ++ take 2 y ++ take 2 (drop 2 x) ++ take 2 (drop 2 y)

unfoldable pub mmx_punpckhwd : List ℕ → List ℕ → List ℕ
mmx_punpckhwd x y = take 2 (drop 4 x) ++ take 2 (drop 4 y) ++ drop 6 x ++ drop 6 y

unfoldable pub mmx_punpckldq : List ℕ → List ℕ → List ℕ
mmx_punpckldq x y = take 4 x ++ take 4 y

unfoldable pub mmx_punpckhdq : List ℕ → List ℕ → List ℕ
mmx_punpckhdq x y = drop 4 x ++ drop 4 y
