-- ===== src/Alu/Arith.antt =====
-- native/blink/blink/alu.c: addition, subtraction, negation and the logical operations. The source
-- has one copy of each for every operand size, all with the same text; `add_at w` is that text.
pub mod Carries
pub mod Described
pub mod Logic
pub mod Unary
pub mod Negation
pub mod Sums
pub mod Borrows
pub mod Differences
use atua_computer.Base.{ℕ, ◌+◌, ◌^◌, ◌-◌, ◌&&&◌, ◌|||◌, ◌^^^◌, ◌<<<◌, ◌>>>◌}
use atua_computer.Base.{truth, to_u, ltb, ◌==◌, ◌||◌, Width, sign_bit, size, cast}
use atua_computer.Machine.{Machine, Outcome}
use atua_computer.Flags.{flags_cf}
use atua_computer.Alu.Status.{alu_flags_at, bump_flags}

unfoldable pub xor_at : Width → Machine → ℕ → ℕ → Outcome
xor_at w m x y = alu_flags_at w m (x ^^^ y) 0 0 0

unfoldable pub or_at : Width → Machine → ℕ → ℕ → Outcome
or_at w m x y = alu_flags_at w m (x ||| y) 0 0 0

unfoldable pub and_at : Width → Machine → ℕ → ℕ → Outcome
and_at w m x y = alu_flags_at w m (x &&& y) 0 0 0

unfoldable pub sub_at : Width → Machine → ℕ → ℕ → Outcome
sub_at w m x64 y64 =
    let x = cast w x64 in
    let y = cast w y64 in
    let z = cast w (x + size w - y) in
    let cf = to_u (ltb x z) in
    let af = to_u (ltb (x &&& 15) (z &&& 15)) in
    let of = truth (((x ^^^ y) &&& (z ^^^ x)) >>> sign_bit w) in alu_flags_at w m z af of cf

unfoldable pub add_at : Width → Machine → ℕ → ℕ → Outcome
add_at w m x64 y64 =
    let x = cast w x64 in
    let y = cast w y64 in
    let z = cast w (x + y) in
    let cf = to_u (ltb z y) in
    let af = to_u (ltb (z &&& 15) (y &&& 15)) in
    let of = truth (((z ^^^ x) &&& (z ^^^ y)) >>> sign_bit w) in alu_flags_at w m z af of cf

unfoldable pub adc_at : Width → Machine → ℕ → ℕ → Outcome
adc_at w m x64 y64 =
    let x = cast w x64 in
    let y = cast w y64 in
    let t = cast w (x + truth (m.flags &&& (1 <<< flags_cf))) in
    let z = cast w (t + y) in
    let cf = to_u (ltb t x || ltb z y) in
    let of = truth (((z ^^^ x) &&& (z ^^^ y)) >>> sign_bit w) in
    let af = to_u (ltb (t &&& 15) (x &&& 15) || ltb (z &&& 15) (y &&& 15)) in
    alu_flags_at w m z af of cf

unfoldable pub sbb_at : Width → Machine → ℕ → ℕ → Outcome
sbb_at w m x64 y64 =
    let x = cast w x64 in
    let y = cast w y64 in
    let t = cast w (x + size w - truth (m.flags &&& (1 <<< flags_cf))) in
    let z = cast w (t + size w - y) in
    let cf = to_u (ltb x t || ltb t z) in
    let of = truth (((z ^^^ x) &&& (x ^^^ y)) >>> sign_bit w) in
    let af = to_u (ltb (x &&& 15) (t &&& 15) || ltb (t &&& 15) (z &&& 15)) in
    alu_flags_at w m z af of cf

-- The second argument of the one-operand functions is not read, but for `Inc`.
unfoldable pub neg_at : Width → Machine → ℕ → ℕ → Outcome
neg_at w m x64 y =
    let x = cast w x64 in
    let cf = truth x in
    let af = cf in
    let of = to_u (x == 2 ^ sign_bit w) in alu_flags_at w m (cast w (size w - 1 - x + 1)) af of cf

unfoldable pub dec_at : Width → Machine → ℕ → ℕ → Outcome
dec_at w m x64 y =
    let x = cast w x64 in
    let z = cast w (x + size w - 1) in
    let sf = z >>> sign_bit w in
    let af = to_u (ltb (x &&& 15) (z &&& 15)) in
    let of = ((z ^^^ x) &&& (x ^^^ 1)) >>> sign_bit w in bump_flags m z af of sf

unfoldable pub inc_at : Width → Machine → ℕ → ℕ → Outcome
inc_at w m x64 y =
    let x = cast w x64 in
    let z = cast w (x + 1) in
    let sf = z >>> sign_bit w in
    let af = to_u (ltb (z &&& 15) (y &&& 15)) in
    let of = ((z ^^^ x) &&& (z ^^^ 1)) >>> sign_bit w in bump_flags m z af of sf

-- uop.c: `~x` cut to the operand size; no flag changes.
unfoldable pub not_at : Width → Machine → ℕ → ℕ → Outcome
not_at w m x y = (m, cast w (0xffff_ffff_ffff_ffff - x))
