-- ===== src/Tests/Sse.antt =====
-- Vectors of native/blink/blink/mmx.c and sse.c at concrete bytes.
use atua_computer.Base.{
  ◌<◌, ◌-◌, ◌≤◌, ℕ, ◌+◌, ◌*◌, ◌/◌, ◌%◌, ◌^◌, ◌≡◌, refl, List, [], ◌∷◌, ◌++◌, arith, true, replicate,
  w16, signed, floor_shift,
}
use atua_computer.Sse.Lanes.{load, store, map, to_word}
use atua_computer.Sse.Laws.{AllBelow}
use atua_computer.Sse.Mmx.{mmx_pmulhw}
use atua_computer.Sse.Kernels.{shift_arithmetic, mmx_paddsb, count_of}
use atua_computer.Sse.Kernels.Moves.{palignr, packuswb, punpcklbw, punpckhbw, pmaddwd}
use atua_computer.Sse.Value.{value}
use atua_computer.Sse.Halves.{sse_psrlwv}
use atua_computer.Sse.Bytes.{palignr-value}
use atua_computer.Sse.Narrow.{packuswb-punpcklbw}
use atua_computer.Sse.Shifts.{shift_arithmetic_lem}
use atua_computer.Sse.Aliased.{sse_psrlwv-aliased}

abbrev bytes : List ℕ
bytes = 1 ∷ 2 ∷ 3 ∷ 4 ∷ 250 ∷ 251 ∷ 252 ∷ 253 ∷ []

abbrev others : List ℕ
others = 5 ∷ 1 ∷ 200 ∷ 4 ∷ 9 ∷ 255 ∷ 0 ∷ 100 ∷ []

abbrev words : List ℕ
words = 16 ∷ 0 ∷ 0x8001 ∷ 7 ∷ []

abbrev other_words : List ℕ
other_words = 0xffff ∷ 1 ∷ 2 ∷ 9 ∷ []

byte : (v : ℕ) → (v - 255 ≡ 0) → v < 256
byte v e = omega arith

bytes-AllBelow : AllBelow 256 bytes
bytes-AllBelow = (
  byte 1 refl,
  (
    byte 2 refl,
    (
      byte 3 refl,
      (byte 4 refl, (byte 250 refl, (byte 251 refl, (byte 252 refl, (byte 253 refl, tt))))),
    ),
  ),
)

others-AllBelow : AllBelow 256 others
others-AllBelow = (
  byte 5 refl,
  (
    byte 1 refl,
    (
      byte 200 refl,
      (byte 4 refl, (byte 9 refl, (byte 255 refl, (byte 0 refl, (byte 100 refl, tt))))),
    ),
  ),
)

word : (v : ℕ) → (v - 0xffff ≡ 0) → v < 2 ^ 16
word v e = omega arith

words-AllBelow : AllBelow (2 ^ 16) words
words-AllBelow = (word 16 refl, (word 0 refl, (word 0x8001 refl, (word 7 refl, tt))))

other_words-AllBelow : AllBelow (2 ^ 16) other_words
other_words-AllBelow = (word 0xffff refl, (word 1 refl, (word 2 refl, (word 9 refl, tt))))

double : (v : ℕ) → (v - 0xffff ≡ 0) → v < 2 ^ 32
double v e = omega arith

saturating : mmx_paddsb (100 ∷ 200 ∷ []) (100 ∷ 130 ∷ []) ≡ 127 ∷ 128 ∷ []
unfolding mmx_paddsb
saturating = refl

products : mmx_pmulhw (0 ∷ 128 ∷ []) (0 ∷ 64 ∷ []) ≡ 0 ∷ 224 ∷ []
unfolding mmx_pmulhw
products = refl

madd : pmaddwd (255 ∷ 255 ∷ 2 ∷ 0 ∷ []) (3 ∷ 0 ∷ 4 ∷ 0 ∷ []) ≡ 5 ∷ 0 ∷ 0 ∷ 0 ∷ []
unfolding pmaddwd
madd = refl

palignr-value_example :
    value (palignr 8 bytes others 5) ≡ (value bytes * 256 ^ 8 + value others) / 256 ^ 5 % 256 ^ 8
palignr-value_example = palignr-value 8 bytes others 5 refl refl bytes-AllBelow others-AllBelow

packuswb-punpcklbw_example :
    packuswb (punpcklbw 4 bytes (replicate 8 0)) (punpckhbw 4 bytes (replicate 8 0)) ≡ bytes
packuswb-punpcklbw_example = packuswb-punpcklbw 4 bytes refl bytes-AllBelow

shift_arithmetic_lem_example :
    load w16 (shift_arithmetic w16 (store w16 words) 40)
    ≡ map (λ v. to_word w16 (floor_shift (signed w16 v) 40)) words
shift_arithmetic_lem_example = shift_arithmetic_lem w16 words 40 words-AllBelow

count_past : 16 ≤ count_of ((16 ∷ 0 ∷ 0 ∷ 0 ∷ 0 ∷ 0 ∷ 0 ∷ 0 ∷ []) ++ store w16 words)
count_past = omega arith

sse_psrlwv-aliased_example :
    sse_psrlwv true
      ((16 ∷ 0 ∷ 0 ∷ 0 ∷ 0 ∷ 0 ∷ 0 ∷ 0 ∷ []) ++ store w16 words)
      ((16 ∷ 0 ∷ 0 ∷ 0 ∷ 0 ∷ 0 ∷ 0 ∷ 0 ∷ []) ++ store w16 words)
    ≡ replicate 8 0 ++ store w16 words
sse_psrlwv-aliased_example =
    sse_psrlwv-aliased (16 ∷ 0 ∷ 0 ∷ 0 ∷ 0 ∷ 0 ∷ 0 ∷ 0 ∷ []) words refl words-AllBelow count_past
