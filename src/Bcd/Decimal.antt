-- ===== src/Bcd/Decimal.antt =====
-- Sums of packed decimal digits: `Add8` of native/blink/blink/alu.c followed by `OpDaa` of bcd.c.
use atua_computer.Base.{
  get_or-set_self, length-set, holds_below, holds_below_lem, bit, w8, cast, ℕ, ◌+◌, ◌*◌, ◌/◌, ◌%◌,
  ◌<◌, ◌≡◌, ◌≢◌, refl, sym, ◌∙◌, ap, ap₂, arith, ◌==◌, ltb, true, false, Bool, ◌&&◌, ◌||◌, length,
  ==_iff, if◌then◌else◌, both,
}
use atua_computer.Machine.{Machine, al, ax, put_al}
use atua_computer.Flags.{flags_af, flags_cf}
use atua_computer.Flags.Setting.{set_flag-bit, get_flag-bit}
use atua_computer.Bits.{bit_and_mask}
use atua_computer.Bcd.{has_flag, put_flag, is_low_adjusted, op_daa}
use atua_computer.Alu.Table.{k_alu, add}
use atua_computer.Alu.Table.Laws.{k_alu-add}
use atua_computer.Alu.Spec.{IsSum}

-- Two decimal digits in a byte.
abbrev pub bcd : ℕ → ℕ
bcd a = a / 10 * 16 + a % 10

pub al-put_al : (m : Machine) (v : ℕ) → length m.weg ≡ 16 → al (put_al v m) ≡ v % 256
unfolding put_al
al-put_al m v sized =
    ap (λ (t : ℕ). t % 256) (get_or-set_self m.weg 0 (ax m / 256 * 256 + v % 256) 0 (omega arith))
    ∙ omega arith

pub has_flag-bit : (m : Machine) (b : ℕ) → b ≢ 2 → has_flag m b ≡ (bit b m.flags == 1)
has_flag-bit m b other = ap (λ t. t == 1) (get_flag-bit m.flags b other)

-- The adjustment on numbers: AL, AF and CF.
abbrev pub is_low : ℕ → ℕ → Bool
is_low x af = ltb 9 (x % 16) || (af == 1)

abbrev pub is_high : ℕ → ℕ → Bool
is_high x cf = ltb 0x99 x || (cf == 1)

abbrev adjusted : Bool → Bool → ℕ → ℕ
adjusted low high x =
    let once = if low then (x + 6) % 256 else x in if high then (once + 0x60) % 256 else once

pub is_low_adjusted-is_low : (m : Machine) → is_low_adjusted m ≡ is_low (al m) (bit 4 m.flags)
is_low_adjusted-is_low m =
    rw (has_flag-bit m flags_af (λ e. absurd (omega arith)), bit_and_mask 4 (al m)) refl

module _ (m : Machine) (sized : length m.weg ≡ 16) where
  once : Bool → Machine
  once low = if low then put_flag (put_al (al m + 6) m) flags_af true else m

  once-al : (low : Bool) → al (once low) ≡ (if low then (al m + 6) % 256 else al m)
  unfolding once
  once-al true = al-put_al m (al m + 6) sized
  once-al false = refl

  once-cf : (low : Bool) → bit 0 (once low).flags ≡ bit 0 m.flags
  unfolding once put_al
  once-cf true =
      set_flag-bit m.flags flags_af 0 true (λ e. absurd (omega arith)) (omega arith) (omega arith)
  once-cf false = refl

  once-sized : (low : Bool) → length (once low).weg ≡ 16
  unfolding once put_al
  once-sized true = length-set m.weg 0 _ ∙ sized
  once-sized false = sized

  twice : Bool → Bool → Machine
  twice low high =
      if high then put_flag (put_al (al (once low) + 0x60) (once low)) flags_cf true else once low

  twice-al : (low high : Bool) → al (twice low high) ≡ adjusted low high (al m)
  unfolding twice
  twice-al low true =
      al-put_al (once low) (al (once low) + 0x60) (once-sized low)
      ∙ ap (λ (t : ℕ). (t + 0x60) % 256) (once-al low)
  twice-al low false = once-al low

  twice-cf : (low high : Bool) → bit 0 (twice low high).flags ≡ (if high then 1 else bit 0 m.flags)
  unfolding twice put_al
  twice-cf low true =
      set_flag-bit (once low).flags flags_cf 0 true (λ e. absurd (omega arith)) (omega arith)
        (omega arith)
  twice-cf low false = once-cf low

  op_daa-twice : op_daa m ≡ twice (is_low (al m) (bit 4 m.flags)) (is_high (al m) (bit 0 m.flags))
  unfolding op_daa twice once
  op_daa-twice =
      let low = is_low_adjusted m in
      ap (λ t. twice low (ltb 0x99 (al m) || t))
        (has_flag-bit (once low) flags_cf (λ e. absurd (omega arith))
          ∙ ap (λ t. t == 1) (once-cf low))
      ∙ ap (λ t. twice t (is_high (al m) (bit 0 m.flags))) (is_low_adjusted-is_low m)

-- The adjustment of a sum of digits, at every pair of digit sums.
abbrev sum_test : ℕ → ℕ → Bool
sum_test s1 s0 =
    let t = s1 * 16 + s0 in
    let x = t % 256 in
    (adjusted (is_low x (s0 / 16)) (is_high x (t / 256)) x == bcd ((s1 * 10 + s0) % 100))
    && ((if is_high x (t / 256) then 1 else t / 256) == (s1 * 10 + s0) / 100)

sum_table : holds_below (λ i. sum_test (i / 19) (i % 19)) 361 ≡ true
unfolding holds_below
sum_table = refl

sum_test_lem : (s1 s0 : ℕ) → s1 < 19 → s0 < 19 → sum_test s1 s0 ≡ true
sum_test_lem s1 s0 small1 small0 =
    let above : (s1 * 19 + s0) / 19 ≡ s1 = omega arith in
    let below : (s1 * 19 + s0) % 19 ≡ s0 = omega arith in
    sym (ap₂ sum_test above below)
    ∙ holds_below_lem (λ i. sum_test (i / 19) (i % 19)) 361 sum_table (s1 * 19 + s0) (omega arith)

digits :
    (s1 s0 : ℕ)
    → s1 < 19
    → s0 < 19
    → (adjusted
          (is_low ((s1 * 16 + s0) % 256) (s0 / 16))
          (is_high ((s1 * 16 + s0) % 256) ((s1 * 16 + s0) / 256))
          ((s1 * 16 + s0) % 256)
        ≡ bcd ((s1 * 10 + s0) % 100))
      × ((if is_high ((s1 * 16 + s0) % 256) ((s1 * 16 + s0) / 256) then 1 else (s1 * 16 + s0) / 256)
          ≡ (s1 * 10 + s0) / 100)
digits s1 s0 small1 small0 =
    let (value, carry) = both _ _ (sum_test_lem s1 s0 small1 small0) in
    ((==_iff _ _).0 value, (==_iff _ _).0 carry)

-- The operands that the adjustment finds after an addition.
module _ (m : Machine) (a b : ℕ) (sized : length m.weg ≡ 16) (small_a : a < 100)
    (small_b : b < 100) where
  abbrev sum : Machine × ℕ
  sum = k_alu add w8 m (bcd a) (bcd b)

  abbrev s1 : ℕ
  s1 = a / 10 + b / 10

  abbrev s0 : ℕ
  s0 = a % 10 + b % 10

  abbrev held : Machine
  held = put_al sum.1 sum.0

  described : IsSum w8 m sum.0 (cast w8 (bcd a)) (cast w8 (bcd b)) 0 sum.1
  described = k_alu-add w8 m (bcd a) (bcd b)

  sum_sized : length sum.0.weg ≡ 16
  sum_sized = ap length described.described.registers ∙ sized

  held_sized : length held.weg ≡ 16
  unfolding put_al
  held_sized = length-set sum.0.weg 0 _ ∙ sum_sized

  held-al : al held ≡ (s1 * 16 + s0) % 256
  held-al = al-put_al sum.0 sum.1 sum_sized ∙ omega (arith, described.value)

  held_af : bit 4 held.flags ≡ s0 / 16
  unfolding put_al
  held_af = described.auxiliary ∙ omega arith

  held_cf : bit 0 held.flags ≡ (s1 * 16 + s0) / 256
  unfolding put_al
  held_cf = described.carry ∙ omega arith

  daa_al : al (op_daa held) ≡ bcd ((a + b) % 100)
  daa_al =
      ap al (op_daa-twice held held_sized)
      ∙ twice-al held held_sized (is_low (al held) (bit 4 held.flags))
          (is_high (al held) (bit 0 held.flags))
      ∙ rw (held-al, held_af, held_cf) ((digits s1 s0 (omega arith) (omega arith)).0 ∙ omega arith)

  daa_cf : bit 0 (op_daa held).flags ≡ (a + b) / 100
  daa_cf =
      ap (λ t. bit 0 t.flags) (op_daa-twice held held_sized)
      ∙ twice-cf held held_sized (is_low (al held) (bit 4 held.flags))
          (is_high (al held) (bit 0 held.flags))
      ∙ rw (held-al, held_cf) ((digits s1 s0 (omega arith) (omega arith)).1 ∙ omega arith)

-- Two numbers of two decimal digits are added by `Add8` and adjusted by `OpDaa`: AL holds the two
-- digits of the sum, and CF is its hundred.
pub op_daa-add :
    (m : Machine) (a b : ℕ)
    → length m.weg ≡ 16
    → a < 100
    → b < 100
    → let (n, z) = k_alu add w8 m (bcd a) (bcd b) in
      (al (op_daa (put_al z n)) ≡ bcd ((a + b) % 100))
      × (bit 0 (op_daa (put_al z n)).flags ≡ (a + b) / 100)
op_daa-add m a b sized small_a small_b =
    (daa_al m a b sized small_a small_b, daa_cf m a b sized small_a small_b)
