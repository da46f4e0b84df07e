-- ===== src/Dubble.antt =====
-- native/blink/blink/divmul.c: 128-bit integers as two words, for hosts without __int128.
pub mod Laws
pub mod Raise
pub mod Reduce
pub mod Division
pub mod Signed
pub mod Overflow
use atua_computer.Base.{
  ℕ, zero, suc, ◌+◌, ◌-◌, ◌*◌, ◌/◌, ◌%◌, ◌^◌, Bool, true, false, ltb, leb, ◌==◌, if◌then◌else◌,
  to_u, ◌&&&◌, ◌|||◌, ◌^^^◌, ◌<<<◌, ◌>>>◌,
}

pub record Dubble : Type 0 where
  pub lo : ℕ
  pub hi : ℕ

-- `x.lo - 1 > x.lo` holds for 0 alone, when the subtraction wraps.
unfoldable pub dubble_neg : Dubble → Dubble
dubble_neg x =
    let borrow = to_u (ltb x.lo ((x.lo + 2 ^ 64 - 1) % 2 ^ 64)) in
    record { lo = (2 ^ 64 - x.lo) % 2 ^ 64; hi = 2 ^ 64 - 1 - (x.hi + 2 ^ 64 - borrow) % 2 ^ 64 }

unfoldable pub dubble_shl : Dubble → Dubble
dubble_shl x = record { lo = (x.lo <<< 1) % 2 ^ 64; hi = ((x.hi <<< 1) % 2 ^ 64) ||| (x.lo >>> 63) }

unfoldable pub dubble_shr : Dubble → Dubble
dubble_shr x = record { lo = (x.lo >>> 1) ||| ((x.hi <<< 63) % 2 ^ 64); hi = x.hi >>> 1 }

unfoldable pub dubble_lte : Dubble → Dubble → Bool
dubble_lte a b = if a.hi == b.hi then leb a.lo b.lo else leb a.hi b.hi

-- Schoolbook multiplication of 32-bit halves; every sum and product is cut to 64 bits.
unfoldable pub dubble_mul : ℕ → ℕ → Dubble
dubble_mul a b =
    let x0 = (a &&& 0xffff_ffff) * (b &&& 0xffff_ffff) % 2 ^ 64 in
    let t0 = x0 >>> 32 in
    let x1 = x0 &&& 0xffff_ffff in
    let t1 = (t0 + (a >>> 32) * (b &&& 0xffff_ffff)) % 2 ^ 64 in
    let x2 = (x1 + ((t1 &&& 0xffff_ffff) <<< 32)) % 2 ^ 64 in
    let y0 = t1 >>> 32 in
    let t2 = x2 >>> 32 in
    let x3 = x2 &&& 0xffff_ffff in
    let t3 = (t2 + (b >>> 32) * (a &&& 0xffff_ffff)) % 2 ^ 64 in
    let x4 = (x3 + ((t3 &&& 0xffff_ffff) <<< 32)) % 2 ^ 64 in
    let y1 = (y0 + (t3 >>> 32)) % 2 ^ 64 in
    let y2 = (y1 + (a >>> 32) * (b >>> 32)) % 2 ^ 64 in record { lo = x4; hi = y2 }

-- The operands are bit patterns of signed words; `-a` negates one.
unfoldable pub dubble_imul : ℕ → ℕ → Dubble
unfolding dubble_mul dubble_neg
dubble_imul a b =
    let s = a >>> 63 in
    let t = b >>> 63 in
    let p =
      dubble_mul (if s == 0 then a else (2 ^ 64 - a) % 2 ^ 64)
        (if t == 0 then b else (2 ^ 64 - b) % 2 ^ 64) in
    if (s ^^^ t) == 0 then p else dubble_neg p

-- `a -= d` on the words, with the borrow that is left, as the loop below writes it.
unfoldable pub subtract : Dubble → Dubble → Dubble × ℕ
subtract a d =
    let lo = (a.lo + 2 ^ 64 - d.lo) % 2 ^ 64 in
    let c = to_u (ltb a.lo lo) in
    let hi = (a.hi + 2 ^ 64 - (d.hi + c) % 2 ^ 64) % 2 ^ 64 in
    (record { lo = lo; hi = hi }, to_u (ltb a.hi hi))

-- The first loop of `DubbleDiv`, with what is left of its bound of 128: the divisor shifted past
-- `a`, and the number of shifts.
unfoldable pub raise : ℕ → Dubble → Dubble → Dubble × ℕ
unfolding dubble_shl dubble_lte
raise zero d a = (d, 0)
raise (suc k) d a =
    let rest = raise k (dubble_shl d) a in if dubble_lte d a then (rest.0, suc rest.1) else (d, 0)

-- The second loop: the quotient and what is left of `a`.
unfoldable pub reduce : ℕ → Dubble → Dubble → Dubble → Dubble × Dubble
unfolding dubble_shl dubble_shr subtract
reduce zero d q a = (q, a)
reduce (suc n) d q a =
    let d1 = dubble_shr d in
    let q1 = dubble_shl q in
    let s = subtract a d1 in
    reduce n d1 (if s.1 == 0 then record { lo = (q1.lo + 1) % 2 ^ 64; hi = q1.hi } else q1)
      (if s.1 == 0 then s.0 else a)

-- The quotient, and the remainder that goes to `*r`.
unfoldable pub dubble_div : Dubble → ℕ → Dubble × ℕ
unfolding raise reduce
dubble_div a b =
    let up = raise 128 (record { lo = b; hi = 0 }) a in
    let down = reduce up.1 up.0 (record { lo = 0; hi = 0 }) a in (down.0, down.1.lo)
