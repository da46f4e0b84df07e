-- ===== src/Sse/Mmx.antt =====
-- native/blink/blink/mmx.c: sums, averages, comparisons and products of bytes and 16-bit words.
use atua_computer.Base.{
  ℕ, ◌+◌, ◌-◌, min, max, List, ◌++◌, ◌==◌, if◌then◌else◌, ◌>>>◌, ℤ, signed, ◌+ℤ◌, ◌-ℤ◌, floor_shift,
  Width, w8, w16, size, ◌*ℤ◌,
}
use atua_computer.Sse.Lanes.{each, pairs, load, store, to_word, clamp, negative, ltz, mask}

-- `ABS((i8)y)`: the distance from 0, which for -128 is 128.
unfoldable pub magnitude : Width → ℕ → ℕ
unfolding signed
magnitude w v = if negative (signed w v) then size w - v else v

unfoldable pub mmx_psubb : List ℕ → List ℕ → List ℕ
mmx_psubb = each w8 (λ a b. a + size w8 - b)

unfoldable pub mmx_paddb : List ℕ → List ℕ → List ℕ
mmx_paddb = each w8 (λ a b. a + b)

unfoldable pub mmx_pavgb : List ℕ → List ℕ → List ℕ
mmx_pavgb = each w8 (λ a b. (a + b + 1) >>> 1)

unfoldable pub mmx_pabsb : List ℕ → List ℕ → List ℕ
unfolding magnitude
mmx_pabsb = each w8 (λ a b. magnitude w8 b)

unfoldable pub mmx_pminub : List ℕ → List ℕ → List ℕ
mmx_pminub = each w8 (λ a b. min a b)

unfoldable pub mmx_pmaxub : List ℕ → List ℕ → List ℕ
mmx_pmaxub = each w8 (λ a b. max a b)

unfoldable pub mmx_pcmpeqb : List ℕ → List ℕ → List ℕ
mmx_pcmpeqb = each w8 (λ a b. mask w8 (a == b))

unfoldable pub mmx_pcmpgtb : List ℕ → List ℕ → List ℕ
unfolding signed ltz
mmx_pcmpgtb = each w8 (λ a b. mask w8 (ltz (signed w8 b) (signed w8 a)))

unfoldable pub mmx_psubw : List ℕ → List ℕ → List ℕ
mmx_psubw = each w16 (λ a b. a + size w16 - b)

unfoldable pub mmx_paddw : List ℕ → List ℕ → List ℕ
mmx_paddw = each w16 (λ a b. a + b)

unfoldable pub mmx_paddsw : List ℕ → List ℕ → List ℕ
unfolding signed ◌+ℤ◌
mmx_paddsw = each w16 (λ a b. to_word w16 (clamp w16 (signed w16 a +ℤ signed w16 b)))

unfoldable pub mmx_psubsw : List ℕ → List ℕ → List ℕ
unfolding signed ◌-ℤ◌
mmx_psubsw = each w16 (λ a b. to_word w16 (clamp w16 (signed w16 a -ℤ signed w16 b)))

unfoldable pub mmx_paddusw : List ℕ → List ℕ → List ℕ
mmx_paddusw = each w16 (λ a b. min 65535 (a + b))

unfoldable pub mmx_pcmpgtw : List ℕ → List ℕ → List ℕ
unfolding signed ltz
mmx_pcmpgtw = each w16 (λ a b. mask w16 (ltz (signed w16 b) (signed w16 a)))

unfoldable pub mmx_pcmpeqw : List ℕ → List ℕ → List ℕ
mmx_pcmpeqw = each w16 (λ a b. mask w16 (a == b))

unfoldable pub mmx_pavgw : List ℕ → List ℕ → List ℕ
mmx_pavgw = each w16 (λ a b. (a + b + 1) >>> 1)

unfoldable pub mmx_pmulhw : List ℕ → List ℕ → List ℕ
unfolding signed ◌*ℤ◌
mmx_pmulhw = each w16 (λ a b. to_word w16 (floor_shift (signed w16 a *ℤ signed w16 b) 16))

unfoldable pub mmx_pmullw : List ℕ → List ℕ → List ℕ
unfolding signed ◌*ℤ◌
mmx_pmullw = each w16 (λ a b. to_word w16 (signed w16 a *ℤ signed w16 b))

unfoldable pub addition : ℤ → ℤ → ℤ
unfolding ◌+ℤ◌
addition x y = x +ℤ y

unfoldable pub subtraction : ℤ → ℤ → ℤ
unfolding ◌-ℤ◌
subtraction x y = x -ℤ y

unfoldable pub clamp16 : ℤ → ℤ
clamp16 x = clamp w16 x

-- Neighbouring words of `x` and then of `y`.
unfoldable pub phsw : List ℕ → List ℕ → (ℤ → ℤ → ℤ) → List ℕ
unfolding signed clamp16
phsw x y op =
    let f : ℕ → ℕ → ℕ = λ a b. to_word w16 (clamp16 (op (signed w16 a) (signed w16 b))) in
    store w16 (pairs f (load w16 x) ++ pairs f (load w16 y))

unfoldable pub mmx_phaddsw : List ℕ → List ℕ → List ℕ
unfolding phsw addition
mmx_phaddsw x y = phsw x y addition

unfoldable pub mmx_phsubsw : List ℕ → List ℕ → List ℕ
unfolding phsw subtraction
mmx_phsubsw x y = phsw x y subtraction
