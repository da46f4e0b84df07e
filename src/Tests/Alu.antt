-- ===== src/Tests/Alu.antt =====
-- The rows of `kAlu` at single words.
use atua_computer.Base.{◌≡◌, refl, w8, w16, w32, w64, cast, bit}
use atua_computer.Alu.Status.{alu_flags_at, alu_flags}
use atua_computer.Alu.Spec.{IsSum, IsDifference, AgreeBut}
use atua_computer.Alu.Compare.{Orders}
use atua_computer.Alu.Table
use atua_computer.Alu.Table.{k_alu}
use atua_computer.Alu.Table.Laws
use atua_computer.Tests.Data.{idle, carried}

k_alu-add_example :
    IsSum w8 idle
      (k_alu Table.add w8 idle 200 100).0
      (cast w8 200)
      (cast w8 100)
      0
      (k_alu Table.add w8 idle 200 100).1
k_alu-add_example = Laws.k_alu-add w8 idle 200 100

k_alu-adc_example :
    IsSum w16 carried
      (k_alu Table.adc w16 carried 0xffff 0).0
      (cast w16 0xffff)
      (cast w16 0)
      1
      (k_alu Table.adc w16 carried 0xffff 0).1
k_alu-adc_example = Laws.k_alu-adc w16 carried 0xffff 0

k_alu-sub_example :
    IsDifference w32 idle
      (k_alu Table.sub w32 idle 1 2).0
      (cast w32 1)
      (cast w32 2)
      0
      (k_alu Table.sub w32 idle 1 2).1
k_alu-sub_example = Laws.k_alu-sub w32 idle 1 2

k_alu-sbb_example :
    IsDifference w64 carried
      (k_alu Table.sbb w64 carried 5 5).0
      (cast w64 5)
      (cast w64 5)
      1
      (k_alu Table.sbb w64 carried 5 5).1
k_alu-sbb_example = Laws.k_alu-sbb w64 carried 5 5

k_alu-cmp_example : Orders w8 (k_alu Table.cmp w8 idle 0x80 1).0 (cast w8 0x80) (cast w8 1)
k_alu-cmp_example = Laws.k_alu-cmp w8 idle 0x80 1

k_alu-inc_example :
    AgreeBut (k_alu Table.inc w8 carried 0x0f 0) (k_alu Table.add w8 carried 0x0f 1)
    × (bit 0 (k_alu Table.inc w8 carried 0x0f 0).0.flags ≡ 1)
    × (bit 4 (k_alu Table.inc w8 carried 0x0f 0).0.flags ≡ 0)
k_alu-inc_example = Laws.k_alu-inc w8 carried 0x0f 0

k_alu-neg_example :
    AgreeBut (k_alu Table.neg w8 idle 0x10 0) (k_alu Table.sub w8 idle 0 0x10)
    × (bit 0 (k_alu Table.neg w8 idle 0x10 0).0.flags
        ≡ bit 0 (k_alu Table.sub w8 idle 0 0x10).0.flags)
    × (bit 0 (k_alu Table.neg w8 idle 0x10 0).0.flags ≡ 1)
    × (bit 4 (k_alu Table.neg w8 idle 0x10 0).0.flags ≡ 1)
k_alu-neg_example = Laws.k_alu-neg w8 idle 0x10 0

-- 0x7f + 1 overflows: OF, SF and AF are set, CF and ZF clear, and the interrupt flag stays.
add_run : k_alu Table.add w8 idle 0x7f 1 ≡ (record idle { flags = 0x8000_0a92 }, 0x80)
unfolding k_alu alu_flags_at alu_flags
add_run = refl
