-- ===== src/Bcd/Difference.antt =====
-- What `OpDas` of native/blink/blink/bcd.c does to AL and CF, as functions of AL, AF and CF.
use atua_computer.Base.{
  length-set, to_u, bit, ℕ, ◌+◌, ◌-◌, ◌%◌, ◌≡◌, refl, ◌∙◌, ap, ap₂, arith, ◌==◌, ltb, leb, true,
  false, Bool, ◌&&◌, ◌||◌, length, if◌then◌else◌,
}
use atua_computer.Machine.{Machine, al, put_al}
use atua_computer.Flags.{flags_af, flags_cf, flags_zf, flags_sf, set_flag}
use atua_computer.Flags.Parity.{set_lazy_parity_byte_sum}
use atua_computer.Flags.Setting.{set_flag-bit}
use atua_computer.Bcd.{op_das, bcd_flags}
use atua_computer.Bcd.Decimal.{al-put_al, has_flag-bit, is_low, is_high, is_low_adjusted-is_low}

bcd_flags-cf : (m : Machine) (af cf : Bool) → bit 0 (bcd_flags m af cf).flags ≡ to_u cf
unfolding bcd_flags
bcd_flags-cf m af cf =
    ap (bit 0) (set_lazy_parity_byte_sum signed (al m))
    ∙ omega arith
    ∙ set_flag-bit zeroed flags_sf 0 (leb 128 (al m)) (λ e. absurd (omega arith)) (omega arith)
        (omega arith)
    ∙ set_flag-bit aided flags_zf 0 (al m == 0) (λ e. absurd (omega arith)) (omega arith)
        (omega arith)
    ∙ set_flag-bit carried flags_af 0 af (λ e. absurd (omega arith)) (omega arith) (omega arith)
    ∙ set_flag-bit m.flags flags_cf 0 cf (λ e. absurd (omega arith)) (omega arith) (omega arith)
  where
    carried : ℕ
    carried = set_flag m.flags flags_cf cf

    aided : ℕ
    aided = set_flag carried flags_af af

    zeroed : ℕ
    zeroed = set_flag aided flags_zf (al m == 0)

    signed : ℕ
    signed = set_flag zeroed flags_sf (leb 128 (al m))

-- The adjustment on numbers.
abbrev pub lowered : Bool → Bool → ℕ → ℕ
lowered low high x =
    let once = if low then (x + 256 - 0x06) % 256 else x in
    if high then (once + 256 - 0x60) % 256 else once

abbrev pub borrows : Bool → Bool → ℕ → ℕ → Bool
borrows low high x cf = (low && (ltb x 6 || (cf == 1))) || high

module _ (m : Machine) (sized : length m.weg ≡ 16) where
  once : Bool → Machine
  once low = if low then put_al (al m + 256 - 0x06) m else m

  once-al : (low : Bool) → al (once low) ≡ (if low then (al m + 256 - 0x06) % 256 else al m)
  unfolding once
  once-al true = al-put_al m (al m + 256 - 0x06) sized
  once-al false = refl

  once-sized : (low : Bool) → length (once low).weg ≡ 16
  unfolding once put_al
  once-sized true = length-set m.weg 0 _ ∙ sized
  once-sized false = sized

  twice : Bool → Bool → Machine
  twice low high = if high then put_al (al (once low) + 256 - 0x60) (once low) else once low

  twice-al : (low high : Bool) → al (twice low high) ≡ lowered low high (al m)
  unfolding twice
  twice-al low true =
      al-put_al (once low) (al (once low) + 256 - 0x60) (once-sized low)
      ∙ ap (λ (t : ℕ). (t + 256 - 0x60) % 256) (once-al low)
  twice-al low false = once-al low

  abbrev pub low : Bool
  low = is_low (al m) (bit 4 m.flags)

  abbrev pub high : Bool
  high = is_high (al m) (bit 0 m.flags)

  op_das-twice : op_das m ≡ bcd_flags (twice low high) low (borrows low high (al m) (bit 0 m.flags))
  unfolding op_das twice once
  op_das-twice =
      ap₂
        (λ l c.
          bcd_flags (twice l (ltb 0x99 (al m) || c)) l
            ((l && (ltb (al m) 6 || c)) || (ltb 0x99 (al m) || c)))
        (is_low_adjusted-is_low m) (has_flag-bit m flags_cf (λ e. absurd (omega arith)))

  pub op_das-al : al (op_das m) ≡ lowered low high (al m)
  unfolding bcd_flags
  op_das-al = ap al op_das-twice ∙ twice-al low high

  pub op_das-cf : bit 0 (op_das m).flags ≡ to_u (borrows low high (al m) (bit 0 m.flags))
  op_das-cf =
      ap (λ t. bit 0 t.flags) op_das-twice
      ∙ bcd_flags-cf (twice low high) low (borrows low high (al m) (bit 0 m.flags))
