-- ===== src/Alu/Shift.antt =====
-- native/blink/blink/alu.c: shifts, by a count of which the processor reads five or six bits.
pub mod Laws
pub mod Left
pub mod Signed
pub mod Specs
use atua_computer.Base.{
  ℕ, ◌+◌, ◌-◌, ◌%◌, ◌^◌, ◌&&&◌, ◌^^^◌, ◌<<<◌, ◌>>>◌, Width, w8, w16, w32, w64, sign_bit, size, cast,
  ltb, ◌==◌, if◌then◌else◌,
}
use atua_computer.Machine.{Machine, Outcome}
use atua_computer.Alu.Status.{alu_flags_at}

-- `y &= 31`, and `y &= 63` for the widest operands.
abbrev pub count_mask : Width → ℕ
count_mask w8 = 31
count_mask w16 = 31
count_mask w32 = 31
count_mask w64 = 63

-- The type that the source computes in: `u32`, and `u64` for the widest operands.
abbrev pub carrier : Width → Width
carrier w8 = w32
carrier w16 = w32
carrier w32 = w32
carrier w64 = w64

unfoldable pub shr_at : Width → Machine → ℕ → ℕ → Outcome
shr_at w m x64 y64 =
    let x = cast w x64 in
    let y = y64 &&& count_mask w in
    let cf = (x >>> (y - 1)) &&& 1 in
    let z = x >>> y in
    let of = (cast (carrier w) (z <<< 1) ^^^ z) >>> sign_bit w in
    if y == 0 then (m, x) else alu_flags_at w m z 0 of cf

-- Which bit of the operand `Shl` moves out last.
unfoldable pub shl_index : Width → ℕ → ℕ
shl_index w8 y = ((8 + 2 ^ 64 - y) % 2 ^ 64) &&& 31
shl_index w16 y = ((16 + 2 ^ 64 - y) % 2 ^ 64) &&& 31
shl_index w32 y = 32 - y
shl_index w64 y = 64 - y

unfoldable pub shl_at : Width → Machine → ℕ → ℕ → Outcome
unfolding shl_index
shl_at w m x64 y64 =
    let x = cast w x64 in
    let y = y64 &&& count_mask w in
    let cf = (x >>> shl_index w y) &&& 1 in
    let z = cast w (cast (carrier w) (x <<< y)) in
    let of = (z >>> sign_bit w) ^^^ cf in if y == 0 then (m, x) else alu_flags_at w m z 0 of cf

-- `(i32)(i8)x`, and so on: the bit pattern of the operand extended by its sign.
unfoldable pub sign_extend : Width → ℕ → ℕ
sign_extend w x = if ltb x (2 ^ sign_bit w) then x else x + (size (carrier w) - size w)

-- `>>` on a signed number, as bit patterns.
unfoldable pub shift_signed : Width → ℕ → ℕ → ℕ
shift_signed c v k =
    if ltb v (2 ^ sign_bit c) then v >>> k else size c - 1 - ((size c - 1 - v) >>> k)

unfoldable pub sar_at : Width → Machine → ℕ → ℕ → Outcome
unfolding sign_extend shift_signed
sar_at w m x64 y64 =
    let x = cast w x64 in
    let y = y64 &&& count_mask w in
    let v = sign_extend w x in
    let cf = shift_signed (carrier w) v (y - 1) &&& 1 in
    let z = cast w (shift_signed (carrier w) v y) in
    if y == 0 then (m, x) else alu_flags_at w m z 0 0 cf
