-- ===== src/Alu/Rotate.antt =====
-- native/blink/blink/alu.c: rotations, alone and through the carry, and the double shifts.
pub mod Plain
use atua_computer.Base.{
  ℕ, ◌+◌, ◌-◌, ◌%◌, ◌&&&◌, ◌|||◌, ◌^^^◌, ◌<<<◌, ◌>>>◌, Width, w8, w16, w32, w64, bits, sign_bit,
  cast, truth, ◌==◌, if◌then◌else◌,
}
use atua_computer.Machine.{Machine, Outcome}
use atua_computer.Flags.{flags_cf}
use atua_computer.Alu.Status.{rotate_flags}
use atua_computer.Alu.Shift.{count_mask}

-- The small sizes test five bits of the count and rotate by its remainder; at 32 and 64 bits the
-- two masks are one.
unfoldable pub rol_at : Width → Machine → ℕ → ℕ → Outcome
rol_at w m x64 y =
    let x = cast w x64 in
    let r = y &&& (bits w - 1) in
    let z = if r == 0 then x else cast w ((x <<< r) ||| (x >>> (bits w - r))) in
    let o = rotate_flags m z (z &&& 1) (((z >>> sign_bit w) ^^^ z) &&& 1) in
    if (y &&& count_mask w) == 0 then (m, x) else o

unfoldable pub ror_at : Width → Machine → ℕ → ℕ → Outcome
ror_at w m x64 y =
    let x = cast w x64 in
    let r = y &&& (bits w - 1) in
    let z = if r == 0 then x else cast w ((x >>> r) ||| (x <<< (bits w - r))) in
    let of = ((z >>> sign_bit w) ^^^ (z >>> (sign_bit w - 1))) &&& 1 in
    let o = rotate_flags m z (z >>> sign_bit w) of in
    if (y &&& count_mask w) == 0 then (m, x) else o

-- The last two arguments of the source, the mask of the operand and its width `k`, are those of `w`.
-- What leaves 64 bits is lost in the mask.
unfoldable pub rcr : Width → Machine → ℕ → ℕ → Outcome
rcr w m x64 y =
    let k = bits w in
    let x = cast w x64 in
    let cf = truth (m.flags &&& (1 <<< flags_cf)) in
    let ct = (x >>> (y - 1)) &&& 1 in
    let z =
      if y == 1
      then cast w ((x >>> 1) ||| (cf <<< (k - 1)))
      else cast w ((x >>> y) ||| (cf <<< (k - y)) ||| (x <<< (k + 1 - y))) in
    let of = (((z <<< 1) ^^^ z) >>> (k - 1)) &&& 1 in
    if y == 0 then (m, x) else rotate_flags m z ct of

unfoldable pub rcl : Width → Machine → ℕ → ℕ → Outcome
rcl w m x64 y =
    let k = bits w in
    let x = cast w x64 in
    let cf = truth (m.flags &&& (1 <<< flags_cf)) in
    let ct = (x >>> (k - y)) &&& 1 in
    let z =
      if y == 1
      then cast w ((x <<< 1) ||| cf)
      else cast w ((x <<< y) ||| (cf <<< (y - 1)) ||| (x >>> (k + 1 - y))) in
    if y == 0 then (m, x) else rotate_flags m z ct (ct ^^^ ((z >>> (k - 1)) &&& 1))

-- `((unsigned)y & 31) % 9` and its like.
abbrev pub carry_count : Width → ℕ → ℕ
carry_count w8 y = (y &&& 31) % 9
carry_count w16 y = (y &&& 31) % 17
carry_count w32 y = y &&& 31
carry_count w64 y = y &&& 63

unfoldable pub rcr_at : Width → Machine → ℕ → ℕ → Outcome
unfolding rcr
rcr_at w m x y = rcr w m x (carry_count w y)

unfoldable pub rcl_at : Width → Machine → ℕ → ℕ → Outcome
unfolding rcl
rcl_at w m x y = rcl w m x (carry_count w y)
