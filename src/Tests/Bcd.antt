-- ===== src/Tests/Bcd.antt =====
-- Decimal arithmetic on a machine after reset: native/blink/blink/bcd.c.
use atua_computer.Base.{bit, w8, ◌<◌, ◌≡◌, ◌↔◌, refl, arith, some}
use atua_computer.Machine.{Machine, al, ah, put_al}
use atua_computer.Alu.Table.{k_alu, add, sub}
use atua_computer.Bcd.{op_daa, op_das, op_aam, op_aad}
use atua_computer.Bcd.Decimal.{op_daa-add}
use atua_computer.Bcd.Subtracting.{op_das-sub}
use atua_computer.Bcd.Digits.{op_aam-op_aad}
use atua_computer.Tests.Data.{idle}

-- 58 + 67 = 125.
op_daa-add_example :
    let (n, z) = k_alu add w8 idle 0x58 0x67 in
    (al (op_daa (put_al z n)) ≡ 0x25) × (bit 0 (op_daa (put_al z n)).flags ≡ 1)
op_daa-add_example = op_daa-add idle 58 67 refl (omega arith) (omega arith)

-- 23 - 48 = 75 - 100.
op_das-sub_example :
    let (n, z) = k_alu sub w8 idle 0x23 0x48 in
    (al (op_das (put_al z n)) ≡ 0x75) × ((bit 0 (op_das (put_al z n)).flags ≡ 1) ↔ (23 < 48))
op_das-sub_example = op_das-sub idle 23 48 refl (omega arith) (omega arith)

-- The 5 in AL is its own last digit by 10.
op_aam-op_aad_example :
    (n : Machine) × (op_aam idle 10 ≡ some n)
    × (ah n ≡ 0)
    × (al n ≡ 5)
    × (al (op_aad n 10) ≡ 5)
    × (ah (op_aad n 10) ≡ 0)
op_aam-op_aad_example = op_aam-op_aad idle 10 refl (omega arith) (omega arith)
