-- ===== src/Alu/Table.antt =====
-- native/blink/blink/alu.c, alu.h: the functions that `kAlu` holds, one for each operation and
-- operand size, and the table itself.
pub mod Laws
use atua_computer.Base.{ℕ, Width, w8, w16, w32, w64}
use atua_computer.Machine.{Machine, Outcome}
use atua_computer.Alu.Arith.{
  xor_at, or_at, and_at, sub_at, add_at, adc_at, sbb_at, neg_at, dec_at, inc_at, not_at,
}

-- `aluop_f`
abbrev pub AluFunction : Type 0
AluFunction = Machine → ℕ → ℕ → Outcome

unfoldable pub xor8 : AluFunction
unfolding xor_at
xor8 = xor_at w8

unfoldable pub xor16 : AluFunction
unfolding xor_at
xor16 = xor_at w16

unfoldable pub xor32 : AluFunction
unfolding xor_at
xor32 = xor_at w32

unfoldable pub xor64 : AluFunction
unfolding xor_at
xor64 = xor_at w64

unfoldable pub or8 : AluFunction
unfolding or_at
or8 = or_at w8

unfoldable pub or16 : AluFunction
unfolding or_at
or16 = or_at w16

unfoldable pub or32 : AluFunction
unfolding or_at
or32 = or_at w32

unfoldable pub or64 : AluFunction
unfolding or_at
or64 = or_at w64

unfoldable pub and8 : AluFunction
unfolding and_at
and8 = and_at w8

unfoldable pub and16 : AluFunction
unfolding and_at
and16 = and_at w16

unfoldable pub and32 : AluFunction
unfolding and_at
and32 = and_at w32

unfoldable pub and64 : AluFunction
unfolding and_at
and64 = and_at w64

unfoldable pub sub8 : AluFunction
unfolding sub_at
sub8 = sub_at w8

unfoldable pub sub16 : AluFunction
unfolding sub_at
sub16 = sub_at w16

unfoldable pub sub32 : AluFunction
unfolding sub_at
sub32 = sub_at w32

unfoldable pub sub64 : AluFunction
unfolding sub_at
sub64 = sub_at w64

unfoldable pub add8 : AluFunction
unfolding add_at
add8 = add_at w8

unfoldable pub add16 : AluFunction
unfolding add_at
add16 = add_at w16

unfoldable pub add32 : AluFunction
unfolding add_at
add32 = add_at w32

unfoldable pub add64 : AluFunction
unfolding add_at
add64 = add_at w64

unfoldable pub adc8 : AluFunction
unfolding adc_at
adc8 = adc_at w8

unfoldable pub adc16 : AluFunction
unfolding adc_at
adc16 = adc_at w16

unfoldable pub adc32 : AluFunction
unfolding adc_at
adc32 = adc_at w32

unfoldable pub adc64 : AluFunction
unfolding adc_at
adc64 = adc_at w64

unfoldable pub sbb8 : AluFunction
unfolding sbb_at
sbb8 = sbb_at w8

unfoldable pub sbb16 : AluFunction
unfolding sbb_at
sbb16 = sbb_at w16

unfoldable pub sbb32 : AluFunction
unfolding sbb_at
sbb32 = sbb_at w32

unfoldable pub sbb64 : AluFunction
unfolding sbb_at
sbb64 = sbb_at w64

unfoldable pub neg8 : AluFunction
unfolding neg_at
neg8 = neg_at w8

unfoldable pub neg16 : AluFunction
unfolding neg_at
neg16 = neg_at w16

unfoldable pub neg32 : AluFunction
unfolding neg_at
neg32 = neg_at w32

unfoldable pub neg64 : AluFunction
unfolding neg_at
neg64 = neg_at w64

unfoldable pub dec8 : AluFunction
unfolding dec_at
dec8 = dec_at w8

unfoldable pub dec16 : AluFunction
unfolding dec_at
dec16 = dec_at w16

unfoldable pub dec32 : AluFunction
unfolding dec_at
dec32 = dec_at w32

unfoldable pub dec64 : AluFunction
unfolding dec_at
dec64 = dec_at w64

unfoldable pub inc8 : AluFunction
unfolding inc_at
inc8 = inc_at w8

unfoldable pub inc16 : AluFunction
unfolding inc_at
inc16 = inc_at w16

unfoldable pub inc32 : AluFunction
unfolding inc_at
inc32 = inc_at w32

unfoldable pub inc64 : AluFunction
unfolding inc_at
inc64 = inc_at w64

unfoldable pub not8 : AluFunction
unfolding not_at
not8 = not_at w8

unfoldable pub not16 : AluFunction
unfolding not_at
not16 = not_at w16

unfoldable pub not32 : AluFunction
unfolding not_at
not32 = not_at w32

unfoldable pub not64 : AluFunction
unfolding not_at
not64 = not_at w64

-- `ALU_ADD` to `ALU_DEC`, the rows.
pub data AluOp : Type 0 where
  add or adc sbb and sub xor cmp not neg inc dec : AluOp

unfoldable pub k_alu : AluOp → Width → AluFunction
unfolding xor8 xor16 xor32 xor64 or8 or16 or32 or64 and8 and16 and32 and64 sub8 sub16 sub32 sub64
    add8 add16 add32 add64 adc8 adc16 adc32 adc64 sbb8 sbb16 sbb32 sbb64 neg8 neg16 neg32 neg64 dec8
    dec16 dec32 dec64 inc8 inc16 inc32 inc64 not8 not16 not32 not64
k_alu add w8 = add8
k_alu add w16 = add16
k_alu add w32 = add32
k_alu add w64 = add64
k_alu or w8 = or8
k_alu or w16 = or16
k_alu or w32 = or32
k_alu or w64 = or64
k_alu adc w8 = adc8
k_alu adc w16 = adc16
k_alu adc w32 = adc32
k_alu adc w64 = adc64
k_alu sbb w8 = sbb8
k_alu sbb w16 = sbb16
k_alu sbb w32 = sbb32
k_alu sbb w64 = sbb64
k_alu and w8 = and8
k_alu and w16 = and16
k_alu and w32 = and32
k_alu and w64 = and64
k_alu sub w8 = sub8
k_alu sub w16 = sub16
k_alu sub w32 = sub32
k_alu sub w64 = sub64
k_alu xor w8 = xor8
k_alu xor w16 = xor16
k_alu xor w32 = xor32
k_alu xor w64 = xor64
k_alu cmp w8 = sub8
k_alu cmp w16 = sub16
k_alu cmp w32 = sub32
k_alu cmp w64 = sub64
k_alu not w8 = not8
k_alu not w16 = not16
k_alu not w32 = not32
k_alu not w64 = not64
k_alu neg w8 = neg8
k_alu neg w16 = neg16
k_alu neg w32 = neg32
k_alu neg w64 = neg64
k_alu inc w8 = inc8
k_alu inc w16 = inc16
k_alu inc w32 = inc32
k_alu inc w64 = inc64
k_alu dec w8 = dec8
k_alu dec w16 = dec16
k_alu dec w32 = dec32
k_alu dec w64 = dec64
