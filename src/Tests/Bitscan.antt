-- ===== src/Tests/Bitscan.antt =====
-- Bit scans of single words: native/blink/blink/bitscan.c.
use atua_computer.Base.{suc, ◌%◌, ◌^◌, ◌≤◌, ◌<◌, ◌≡◌, ◌↔◌, refl, arith, true}
use atua_computer.Bitscan.{bsr, bsf, is_opcode_equal, roundup_two_pow}
use atua_computer.Bitscan.Reverse.{bsr_lem}
use atua_computer.Bitscan.Uses.{IsRoundup, roundup_two_pow-IsRoundup}
use atua_computer.Bitscan.Prefix.{is_opcode_equal-prefix}

bsr_lem_example : (bsr 1000 < 64) × (2 ^ bsr 1000 ≤ 1000) × (1000 < 2 ^ suc (bsr 1000))
bsr_lem_example = bsr_lem 1000 (omega arith) (omega arith)

ends_of_1000 : (bsr 1000 ≡ 9) × (bsf 1000 ≡ 3)
unfolding bsr bsf
ends_of_1000 = (refl, refl)

roundup_two_pow-IsRoundup_example : IsRoundup 1000 (roundup_two_pow 1000)
roundup_two_pow-IsRoundup_example = roundup_two_pow-IsRoundup 1000 (omega arith) (omega arith)

-- `0f 05` before two different instructions.
is_opcode_equal-prefix_example :
    (is_opcode_equal 2 0x4889_e3c3_0f31_050f 0x90_050f ≡ true)
    ↔ (0x4889_e3c3_0f31_050f % 2 ^ 16 ≡ 0x90_050f % 2 ^ 16)
is_opcode_equal-prefix_example =
    is_opcode_equal-prefix 2 0x4889_e3c3_0f31_050f 0x90_050f (omega arith) (omega arith)
      (omega arith) (omega arith)
