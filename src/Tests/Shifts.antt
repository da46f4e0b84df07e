-- ===== src/Tests/Shifts.antt =====
-- The rows of `kBsu` at single words.
use atua_computer.Alu.Status.{rotate_flags}
use atua_computer.Base.{◌+◌, ◌/◌, ◌%◌, ◌^◌, ◌≡◌, refl, w8, w32, signed, floor_shift, odd, arith}
use atua_computer.Alu.Spec.{IsShifted}
use atua_computer.Alu.Shifts
use atua_computer.Alu.Shifts.{k_bsu}
use atua_computer.Alu.Shifts.Laws
use atua_computer.Tests.Data.{idle, carried}

k_bsu-shl_example :
    ((k_bsu Shifts.shl w8 idle 0x85 9).1 ≡ 0)
    × IsShifted w8 idle
        (k_bsu Shifts.shl w8 idle 0x85 9)
        0
        (((k_bsu Shifts.shl w8 idle 0x85 9).1 / 2 ^ 7 + 0) % 2)
k_bsu-shl_example = Laws.k_bsu-shl w8 idle 0x85 9 (λ e. absurd (omega arith))

k_bsu-sar_example :
    (signed w8 (k_bsu Shifts.sar w8 idle 0x85 1).1 ≡ floor_shift (signed w8 0x85) 1)
    × IsShifted w8 idle (k_bsu Shifts.sar w8 idle 0x85 1) (odd (floor_shift (signed w8 0x85) 0)) 0
k_bsu-sar_example = Laws.k_bsu-sar w8 idle 0x85 1 (λ e. absurd (omega arith))

k_bsu-ror-rol_example :
    (k_bsu Shifts.ror w32 carried (k_bsu Shifts.rol w32 idle 0xdead_beef 12).1 12).1 ≡ 0xdead_beef
k_bsu-ror-rol_example = Laws.k_bsu-ror-rol w32 idle carried 0xdead_beef 12

rol_run : (k_bsu Shifts.rol w8 idle 0x81 9).1 ≡ 3
unfolding k_bsu rotate_flags
rol_run = refl
