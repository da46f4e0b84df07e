-- ===== src/Tests/Divmul.antt =====
-- Products and quotients of a machine after reset: native/blink/blink/divmul.c.
use atua_computer.Base.{signed, ◌*ℤ◌, bit, ◌-◌, ◌^◌, ◌≡◌, refl, arith, none, set}
use atua_computer.Divmul.{
  op_div_rdx_rax_evqp_unsigned32, op_div_rdx_rax_evqp_unsigned64, op_mul_rdx_rax_evqp_unsigned64,
  op_mul_rdx_rax_evqp_signed64,
}
use atua_computer.Divmul.Division.{
  Divides, wide, op_div_rdx_rax_evqp_unsigned32-Divides, op_div_rdx_rax_evqp_unsigned64-Divides,
}
use atua_computer.Divmul.Product.{
  Multiplies, op_mul_rdx_rax_evqp_unsigned64-Multiplies, op_mul_rdx_rax_evqp_signed64-product,
}
use atua_computer.Tests.Data.{idle, registers}

op_div_rdx_rax_evqp_unsigned32-Divides_example :
    Divides 32 idle 7 (op_div_rdx_rax_evqp_unsigned32 idle 7)
op_div_rdx_rax_evqp_unsigned32-Divides_example =
    op_div_rdx_rax_evqp_unsigned32-Divides idle 7 refl (omega arith)

op_div_rdx_rax_evqp_unsigned64-Divides_example :
    Divides 64 idle 7 (op_div_rdx_rax_evqp_unsigned64 idle 7)
op_div_rdx_rax_evqp_unsigned64-Divides_example =
    op_div_rdx_rax_evqp_unsigned64-Divides idle 7 refl (omega arith) (omega arith) (omega arith)

op_mul_rdx_rax_evqp_unsigned64-Multiplies_example :
    Multiplies 64 idle 0xffff_ffff_ffff_ffff
      (op_mul_rdx_rax_evqp_unsigned64 idle 0xffff_ffff_ffff_ffff)
op_mul_rdx_rax_evqp_unsigned64-Multiplies_example =
    op_mul_rdx_rax_evqp_unsigned64-Multiplies idle 0xffff_ffff_ffff_ffff refl (omega arith)
      (omega arith)

-- 0x0b05 * (-2) is a signed word.
op_mul_rdx_rax_evqp_signed64-product_example :
    let n = op_mul_rdx_rax_evqp_signed64 idle 0xffff_ffff_ffff_fffe in
    (wide 64 n ≡ 2 ^ 128 - 0x160a) × (bit 0 n.flags ≡ 0) × (bit 11 n.flags ≡ 0)
unfolding ◌*ℤ◌ signed
op_mul_rdx_rax_evqp_signed64-product_example =
    op_mul_rdx_rax_evqp_signed64-product idle 0xffff_ffff_ffff_fffe refl (omega arith) (omega arith)

-- The divisor loses bits in the first loop: 3 * 2 ^ 126 by 23.
overflowing :
    op_div_rdx_rax_evqp_unsigned64
      (record { flags = 0x202; weg = set (set registers 0 0) 2 0xc000_0000_0000_0000 })
      23
    ≡ none
unfolding op_div_rdx_rax_evqp_unsigned64
overflowing = refl
