-- ===== src/Bitscan.antt =====
-- native/blink/blink/popcount.c and native/blink/blink/bitscan.c, for compilers without built-in functions.
pub mod Reverse
pub mod Forward
pub mod Uses
pub mod Prefix
use atua_computer.Base.{
  get_or-set_ne, both, get_or-set_self, length-set, holds_below, holds_below_lem, to_u, bit, Width,
  w8, w16, w32, w64, size, cast, not32, ℤ, pos, negsuc, replicate, length-append, append-nil,
  append_assoc, if_true, if_false, ℕ, zero, suc, ◌+◌, ◌-◌, ◌*◌, ◌/◌, ◌%◌, ◌^◌, ◌≤◌, ◌<◌, ◌≡◌, ◌≢◌,
  ◌↔◌, ◌⊎◌, inl, inr, refl, sym, ◌∙◌, ap, ap₂, subst, arith, bit_and, bit_or, bit_xor, ◌&&&◌, ◌|||◌,
  ◌^^^◌, ◌>>>◌, ◌<<<◌, not64, ◌==◌, ltb, leb, true, false, Bool, not, ◌&&◌, ◌||◌, Option, none,
  some, some-injective, none-ne-some, List, [], ◌∷◌, ◌++◌, length, get_or, set, take, drop,
  if_equal, if_unequal, ==_iff, Bool-cases, if◌then◌else◌, min, max,
}

abbrev pub k_debruijn : List ℕ
k_debruijn =
    0 ∷ 47 ∷ 1 ∷ 56 ∷ 48 ∷ 27 ∷ 2 ∷ 60 ∷ 57 ∷ 49 ∷ 41 ∷ 37 ∷ 28 ∷ 16 ∷ 3 ∷ 61 ∷ 54 ∷ 58 ∷ 35 ∷ 52
    ∷ 50 ∷ 42 ∷ 21 ∷ 44 ∷ 38 ∷ 32 ∷ 29 ∷ 23 ∷ 17 ∷ 11 ∷ 4 ∷ 62 ∷ 46 ∷ 55 ∷ 26 ∷ 59 ∷ 40 ∷ 36 ∷ 15
    ∷ 53 ∷ 34 ∷ 51 ∷ 20 ∷ 43 ∷ 31 ∷ 22 ∷ 10 ∷ 45 ∷ 25 ∷ 39 ∷ 14 ∷ 33 ∷ 19 ∷ 30 ∷ 9 ∷ 24 ∷ 13 ∷ 18
    ∷ 8 ∷ 12 ∷ 7 ∷ 6 ∷ 5 ∷ 63 ∷ []

abbrev pub smear : ℕ → ℕ
smear x =
    let x1 = x ||| (x >>> 1) in
    let x2 = x1 ||| (x1 >>> 2) in
    let x4 = x2 ||| (x2 >>> 4) in
    let x8 = x4 ||| (x4 >>> 8) in let x16 = x8 ||| (x8 >>> 16) in x16 ||| (x16 >>> 32)

unfoldable pub bsr : ℕ → ℕ
bsr x = get_or k_debruijn ((smear x * 0x03f7_9d71_b4cb_0a89 % 2 ^ 64) >>> 58) 0

-- The position of a single bit, by a binary search.
unfoldable pub single_bit : ℕ → ℕ
single_bit x =
    let l = (x ||| (x >>> 32)) % 2 ^ 32 in
    let r1 = to_u (not (x >>> 32 == 0)) <<< 1 in
    let r2 = (r1 + to_u (not (l &&& 0xffff_0000 == 0))) <<< 1 in
    let r3 = (r2 + to_u (not (l &&& 0xff00_ff00 == 0))) <<< 1 in
    let r4 = (r3 + to_u (not (l &&& 0xf0f0_f0f0 == 0))) <<< 1 in
    let r5 = (r4 + to_u (not (l &&& 0xcccc_cccc == 0))) <<< 1 in
    r5 + to_u (not (l &&& 0xaaaa_aaaa == 0))

unfoldable pub bsf : ℕ → ℕ
unfolding single_bit
bsf x = single_bit (x &&& ((2 ^ 64 - x) % 2 ^ 64))

-- Leading bytes of an instruction that was decoded before: `a` and `b` are the first eight bytes at
-- each place as words, for instructions of at most seven bytes.
unfoldable pub is_opcode_equal : ℕ → ℕ → ℕ → Bool
unfolding bsf
is_opcode_equal n a b = let w = a ^^^ b in if n == 0 then false else (w == 0 || leb n (bsf w >>> 3))

unfoldable pub roundup_two_pow : ℕ → ℕ
unfolding bsr
roundup_two_pow x = if ltb 1 x then (2 <<< bsr (x - 1)) % 2 ^ 64 else to_u (not (x == 0))
