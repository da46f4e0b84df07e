-- ===== src/Tests/Dubble.antt =====
-- Runs of the 128-bit helpers of native/blink/blink/divmul.c.
use atua_computer.Base.{◌-◌, ◌^◌, ◌≡◌, refl}
use atua_computer.Dubble.{Dubble, dubble_imul, dubble_div}

abbrev dividend : Dubble
dividend = record { lo = 5; hi = 2 }

minus_six : dubble_imul 2 (2 ^ 64 - 3) ≡ record { lo = 2 ^ 64 - 6; hi = 2 ^ 64 - 1 }
unfolding dubble_imul
minus_six = refl

sevenths : (dubble_div dividend 7).1 ≡ 2
unfolding dubble_div
sevenths = refl
