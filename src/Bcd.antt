-- ===== src/Bcd.antt =====
-- native/blink/blink/bcd.c: decimal digits in AL and AX.
pub mod Decimal
pub mod Digits
pub mod Difference
pub mod Subtracting
use atua_computer.Base.{
  to_u, bit, Width, w8, w16, w32, w64, size, cast, not32, ℤ, pos, negsuc, replicate, length-append,
  append-nil, append_assoc, if_true, if_false, ℕ, zero, suc, ◌+◌, ◌-◌, ◌*◌, ◌/◌, ◌%◌, ◌^◌, ◌≤◌, ◌<◌,
  ◌≡◌, ◌≢◌, ◌↔◌, ◌⊎◌, inl, inr, refl, sym, ◌∙◌, ap, ap₂, subst, arith, bit_and, bit_or, bit_xor,
  ◌&&&◌, ◌|||◌, ◌^^^◌, ◌>>>◌, ◌<<<◌, not64, ◌==◌, ltb, leb, true, false, Bool, not, ◌&&◌, ◌||◌,
  Option, none, some, some-injective, none-ne-some, List, [], ◌∷◌, ◌++◌, length, get_or, set, take,
  drop, if_equal, if_unequal, ==_iff, Bool-cases, if◌then◌else◌, min, max, get_or-set_self,
  length-set, holds_below, holds_below_lem,
}
use atua_computer.Machine.{Machine, ax, al, ah, put_ax, put_al, put_ah}
use atua_computer.Flags.{
  get_flag, set_flag, set_lazy_parity_byte, flags_cf, flags_af, flags_zf, flags_sf,
}

abbrev pub has_flag : Machine → ℕ → Bool
has_flag m b = get_flag m.flags b == 1

abbrev pub put_flag : Machine → ℕ → Bool → Machine
put_flag m b v = record m { flags = set_flag m.flags b v }

unfoldable pub bcd_flags : Machine → Bool → Bool → Machine
unfolding set_flag set_lazy_parity_byte
bcd_flags m af cf =
    let carried = put_flag (put_flag m flags_cf cf) flags_af af in
    let signed = put_flag (put_flag carried flags_zf (al m == 0)) flags_sf (leb 128 (al m)) in
    record signed { flags = set_lazy_parity_byte signed.flags (al m) }

-- `(al & 0x0f) > 9 || GetFlag(m->flags, FLAGS_AF)`.
abbrev pub is_low_adjusted : Machine → Bool
is_low_adjusted m = ltb 9 (al m &&& 0x0f) || has_flag m flags_af

-- `al > 0x99 || GetFlag(m->flags, FLAGS_CF)`.
abbrev pub is_high_adjusted : Machine → Bool
is_high_adjusted m = ltb 0x99 (al m) || has_flag m flags_cf

unfoldable pub op_das : Machine → Machine
unfolding bcd_flags
op_das m =
    let low = is_low_adjusted m in
    let high = is_high_adjusted m in
    let cf = (low && (ltb (al m) 6 || has_flag m flags_cf)) || high in
    let once = if low then put_al (al m + 256 - 0x06) m else m in
    let twice = if high then put_al (al once + 256 - 0x60) once else once in bcd_flags twice low cf

unfoldable pub op_aaa : Machine → Machine
unfolding bcd_flags
op_aaa m =
    let low = is_low_adjusted m in
    let sum = if low then put_ax (ax m + 0x106) m else m in
    bcd_flags (put_al (al sum &&& 0x0f) sum) low low

unfoldable pub op_aas : Machine → Machine
unfolding bcd_flags
op_aas m =
    let low = is_low_adjusted m in
    let rest = if low then put_ax (ax m % 2 ^ 16 + 2 ^ 16 - 0x106) m else m in
    bcd_flags (put_al (al rest &&& 0x0f) rest) low low

-- `none` is the divide error.
unfoldable pub op_aam : Machine → ℕ → Option Machine
unfolding bcd_flags
op_aam m imm =
    let quotient = put_ah (al m / imm) m in
    if imm == 0 then none else some (bcd_flags (put_al (al quotient % imm) quotient) false false)

unfoldable pub op_aad : Machine → ℕ → Machine
unfolding bcd_flags
op_aad m imm = bcd_flags (put_ax ((ah m * imm + al m) &&& 255) m) false false

unfoldable pub op_daa : Machine → Machine
unfolding set_flag
op_daa m =
    let low = is_low_adjusted m in
    let once = if low then put_flag (put_al (al m + 6) m) flags_af true else m in
    if ltb 0x99 (al m) || has_flag once flags_cf
    then put_flag (put_al (al once + 0x60) once) flags_cf true
    else once
