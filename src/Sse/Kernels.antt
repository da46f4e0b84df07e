-- ===== src/Sse/Kernels.antt =====
-- native/blink/blink/sse.c: the kernels on eight bytes, and those on sixteen that are written out.
-- A count `k` is an `unsigned`, or a `u64` read from a vector.
pub mod Moves
use atua_computer.Base.{
  ℕ, zero, suc, ◌+◌, ◌-◌, ◌*◌, ◌/◌, ◌%◌, ◌^◌, min, max, Bool, true, false, List, [], ◌∷◌, ◌++◌, ltb,
  leb, ◌==◌, if◌then◌else◌, length, get_or, set, take, drop, ◌>>>◌, ◌<<<◌, ℤ, signed, ◌+ℤ◌, ◌-ℤ◌,
  floor_shift, Width, w8, w16, w32, w64, size, pos, bits, sign_bit, replicate, ◌*ℤ◌,
}
use atua_computer.Sse.Lanes.{
  each, each_one, map, pairs, load, store, to_word, clamp, negative, ltz, mask,
}
use atua_computer.Sse.Mmx.{magnitude}

unfoldable pub mmx_paddusb : List ℕ → List ℕ → List ℕ
mmx_paddusb = each w8 (λ a b. min 255 (a + b))

-- `MAX(0, x[i] - y[i])` is the subtraction that stops at 0.
unfoldable pub mmx_psubusb : List ℕ → List ℕ → List ℕ
mmx_psubusb = each w8 (λ a b. min 255 (a - b))

unfoldable pub mmx_psubsb : List ℕ → List ℕ → List ℕ
unfolding signed ◌-ℤ◌
mmx_psubsb = each w8 (λ a b. to_word w8 (clamp w8 (signed w8 a -ℤ signed w8 b)))

unfoldable pub mmx_paddsb : List ℕ → List ℕ → List ℕ
unfolding signed ◌+ℤ◌
mmx_paddsb = each w8 (λ a b. to_word w8 (clamp w8 (signed w8 a +ℤ signed w8 b)))

unfoldable pub mmx_pmulhrsw : List ℕ → List ℕ → List ℕ
unfolding signed ◌+ℤ◌ ◌*ℤ◌
mmx_pmulhrsw =
    each w16
      (λ a b. to_word w16 (floor_shift (floor_shift (signed w16 a *ℤ signed w16 b) 14 +ℤ pos 1) 1))

-- `if (k > 15) k = 15;` and then `>>` on signed lanes.
unfoldable pub shift_arithmetic : Width → List ℕ → ℕ → List ℕ
unfolding signed
shift_arithmetic w x k =
    let n = if ltb (bits w - 1) k then bits w - 1 else k in
    each_one w (λ v. to_word w (floor_shift (signed w v) n)) x

unfoldable pub mmx_psraw : List ℕ → ℕ → List ℕ
unfolding shift_arithmetic
mmx_psraw x k = shift_arithmetic w16 x k

unfoldable pub mmx_psrad : List ℕ → ℕ → List ℕ
unfolding shift_arithmetic
mmx_psrad x k = shift_arithmetic w32 x k

-- A count that passes the lane clears the eight bytes.
unfoldable pub shift_right : Width → List ℕ → ℕ → List ℕ
shift_right w x k = if ltb k (bits w) then each_one w (λ v. v >>> k) x else replicate 8 0

unfoldable pub shift_left : Width → List ℕ → ℕ → List ℕ
shift_left w x k = if ltb k (bits w) then each_one w (λ v. v <<< k) x else replicate 8 0

unfoldable pub mmx_psrlw : List ℕ → ℕ → List ℕ
unfolding shift_right
mmx_psrlw x k = shift_right w16 x k

unfoldable pub mmx_psllw : List ℕ → ℕ → List ℕ
unfolding shift_left
mmx_psllw x k = shift_left w16 x k

unfoldable pub mmx_psrld : List ℕ → ℕ → List ℕ
unfolding shift_right
mmx_psrld x k = shift_right w32 x k

unfoldable pub mmx_pslld : List ℕ → ℕ → List ℕ
unfolding shift_left
mmx_pslld x k = shift_left w32 x k

unfoldable pub mmx_psrlq : List ℕ → ℕ → List ℕ
unfolding shift_right
mmx_psrlq x k = shift_right w64 x k

unfoldable pub mmx_psllq : List ℕ → ℕ → List ℕ
unfolding shift_left
mmx_psllq x k = shift_left w64 x k

-- The count that the variants with a vector read: `Get64(y)`.
abbrev pub count_of : List ℕ → ℕ
count_of y = get_or (load w64 y) 0 0

unfoldable pub mmx_psrawv : List ℕ → List ℕ → List ℕ
unfolding shift_arithmetic
mmx_psrawv x y = shift_arithmetic w16 x (count_of y)

unfoldable pub mmx_psradv : List ℕ → List ℕ → List ℕ
unfolding shift_arithmetic
mmx_psradv x y = shift_arithmetic w32 x (count_of y)

unfoldable pub mmx_psrlwv : List ℕ → List ℕ → List ℕ
unfolding shift_right
mmx_psrlwv x y = shift_right w16 x (count_of y)

unfoldable pub mmx_psllwv : List ℕ → List ℕ → List ℕ
unfolding shift_left
mmx_psllwv x y = shift_left w16 x (count_of y)

unfoldable pub mmx_psrldv : List ℕ → List ℕ → List ℕ
unfolding shift_right
mmx_psrldv x y = shift_right w32 x (count_of y)

unfoldable pub mmx_pslldv : List ℕ → List ℕ → List ℕ
unfolding shift_left
mmx_pslldv x y = shift_left w32 x (count_of y)

unfoldable pub mmx_psrlqv : List ℕ → List ℕ → List ℕ
unfolding shift_right
mmx_psrlqv x y = shift_right w64 x (count_of y)

unfoldable pub mmx_psllqv : List ℕ → List ℕ → List ℕ
unfolding shift_left
mmx_psllqv x y = shift_left w64 x (count_of y)

unfoldable pub mmx_psubd : List ℕ → List ℕ → List ℕ
mmx_psubd = each w32 (λ a b. a + size w32 - b)

unfoldable pub mmx_paddd : List ℕ → List ℕ → List ℕ
mmx_paddd = each w32 (λ a b. a + b)

unfoldable pub mmx_paddq : List ℕ → List ℕ → List ℕ
mmx_paddq = each w64 (λ a b. a + b)

unfoldable pub mmx_psubq : List ℕ → List ℕ → List ℕ
mmx_psubq = each w64 (λ a b. a + size w64 - b)

unfoldable pub mmx_psubusw : List ℕ → List ℕ → List ℕ
mmx_psubusw = each w16 (λ a b. min 65535 (a - b))

unfoldable pub mmx_pminsw : List ℕ → List ℕ → List ℕ
unfolding signed ltz
mmx_pminsw = each w16 (λ a b. if ltz (signed w16 a) (signed w16 b) then a else b)

unfoldable pub mmx_pmaxsw : List ℕ → List ℕ → List ℕ
unfolding signed ltz
mmx_pmaxsw = each w16 (λ a b. if ltz (signed w16 a) (signed w16 b) then b else a)

unfoldable pub mmx_pcmpgtd : List ℕ → List ℕ → List ℕ
unfolding signed ltz
mmx_pcmpgtd = each w32 (λ a b. mask w32 (ltz (signed w32 b) (signed w32 a)))

unfoldable pub mmx_pcmpeqd : List ℕ → List ℕ → List ℕ
mmx_pcmpeqd = each w32 (λ a b. mask w32 (a == b))

unfoldable pub mmx_pmulhuw : List ℕ → List ℕ → List ℕ
mmx_pmulhuw = each w16 (λ a b. (a * b) >>> 16)

unfoldable pub mmx_pmulld : List ℕ → List ℕ → List ℕ
mmx_pmulld = each w32 (λ a b. a * b)

-- The low 32 bits of each 64, multiplied in full.
unfoldable pub mmx_pmuludq : List ℕ → List ℕ → List ℕ
mmx_pmuludq = each w64 (λ a b. a % size w32 * (b % size w32))

-- A lane of `x` is cleared where `y` is 0 and negated where `y` is negative.
unfoldable pub sign_lane : Width → ℕ → ℕ → ℕ
unfolding signed
sign_lane w a b = if b == 0 then 0 else (if negative (signed w b) then size w - a else a)

unfoldable pub mmx_psignb : List ℕ → List ℕ → List ℕ
unfolding sign_lane
mmx_psignb = each w8 (sign_lane w8)

unfoldable pub mmx_psignw : List ℕ → List ℕ → List ℕ
unfolding sign_lane
mmx_psignw = each w16 (sign_lane w16)

unfoldable pub mmx_psignd : List ℕ → List ℕ → List ℕ
unfolding sign_lane
mmx_psignd = each w32 (sign_lane w32)

unfoldable pub mmx_pabsw : List ℕ → List ℕ → List ℕ
unfolding magnitude
mmx_pabsw = each w16 (λ a b. magnitude w16 b)

unfoldable pub mmx_pabsd : List ℕ → List ℕ → List ℕ
unfolding magnitude
mmx_pabsd = each w32 (λ a b. magnitude w32 b)
