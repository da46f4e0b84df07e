-- ===== src/Alu/Status.antt =====
-- native/blink/blink/alu.c: how an operation leaves its result in the flags.
pub mod Laws
pub mod Rotated
use atua_computer.Base.{ℕ, ◌+◌, ◌*◌, ◌/◌, ◌%◌, ◌^◌, ◌-◌, ◌&&&◌, ◌|||◌, ◌<<<◌, ◌>>>◌}
use atua_computer.Base.{not32, truth, falsity, Width, w8, w16, w32, w64, cast, sign_bit, size, bits}
use atua_computer.Machine.{Machine, Outcome}
use atua_computer.Flags.{flags_cf, flags_zf, flags_sf, flags_of, flags_af}

-- CF | ZF | SF | OF | AF | 0xFF000000, what an operation overwrites.
abbrev pub status_mask : ℕ
status_mask =
    (1 <<< flags_cf)
    ||| (1 <<< flags_zf)
    ||| (1 <<< flags_sf)
    ||| (1 <<< flags_of)
    ||| (1 <<< flags_af)
    ||| 0xff00_0000

unfoldable pub alu_flags : Machine → ℕ → ℕ → ℕ → ℕ → ℕ → Outcome
alu_flags m x af of cf sf =
    let kept = m.flags &&& not32 status_mask in
    let set =
      (sf <<< flags_sf)
      ||| (cf <<< flags_cf)
      ||| (falsity x <<< flags_zf)
      ||| (of <<< flags_of)
      ||| (af <<< flags_af)
      ||| ((x &&& 0xff) <<< 24) in
    (record m { flags = kept ||| set }, x)

-- `AluFlags8` to `AluFlags64`: the cast of the result is that of the parameter `z`.
unfoldable pub alu_flags_at : Width → Machine → ℕ → ℕ → ℕ → ℕ → Outcome
alu_flags_at w m z af of cf = alu_flags m (cast w z) af of cf (cast w z >>> sign_bit w)

-- Increments keep the carry.
unfoldable pub bump_flags : Machine → ℕ → ℕ → ℕ → ℕ → Outcome
bump_flags m x af of sf = alu_flags m x af of (truth (m.flags &&& (1 <<< flags_cf))) sf

unfoldable pub rotate_flags : Machine → ℕ → ℕ → ℕ → Outcome
rotate_flags m x cf of =
    let kept = m.flags &&& not32 ((1 <<< flags_cf) ||| (1 <<< flags_of)) in
    (record m { flags = kept ||| ((cf <<< flags_cf) ||| (of <<< flags_of)) }, x)
