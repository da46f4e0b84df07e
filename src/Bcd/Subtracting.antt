-- ===== src/Bcd/Subtracting.antt =====
-- Differences of packed decimal digits: `Sub8` of native/blink/blink/alu.c followed by `OpDas` of
-- bcd.c.
use atua_computer.Base.{
  both, length-set, holds_below, holds_below_lem, to_u, bit, w8, cast, ℕ, ◌+◌, ◌-◌, ◌*◌, ◌/◌, ◌%◌,
  ◌<◌, ◌≡◌, ◌↔◌, refl, sym, ◌∙◌, ap, ap₂, arith, ◌==◌, ltb, true, Bool, ◌&&◌, length, ==_iff,
  if◌then◌else◌,
}
use atua_computer.Machine.{Machine, al, put_al}
use atua_computer.Bits.Place.{bit-lt}
use atua_computer.Bcd.{op_das}
use atua_computer.Bcd.Decimal.{bcd, al-put_al, is_low, is_high}
use atua_computer.Bcd.Difference.{lowered, borrows, op_das-al, op_das-cf}
use atua_computer.Alu.Table.{k_alu, sub}
use atua_computer.Alu.Table.Laws.{k_alu-sub}
use atua_computer.Alu.Spec.{IsDifference}

-- The byte, AF and CF after a subtraction of digits that differ by `s1` and `s0`, each less 9.
abbrev byte_of : ℕ → ℕ → ℕ
byte_of s1 s0 = (s1 * 16 + s0 + 256 - 153) % 256

abbrev af_of : ℕ → ℕ
af_of s0 = if ltb s0 9 then 1 else 0

abbrev cf_of : ℕ → ℕ → ℕ
cf_of s1 s0 = if ltb (s1 * 16 + s0) 153 then 1 else 0

abbrev low_of : ℕ → ℕ → Bool
low_of s1 s0 = is_low (byte_of s1 s0) (af_of s0)

abbrev high_of : ℕ → ℕ → Bool
high_of s1 s0 = is_high (byte_of s1 s0) (cf_of s1 s0)

abbrev difference_test : ℕ → ℕ → Bool
difference_test s1 s0 =
    (lowered (low_of s1 s0) (high_of s1 s0) (byte_of s1 s0) == bcd ((s1 * 10 + s0 + 1) % 100))
    && (to_u (borrows (low_of s1 s0) (high_of s1 s0) (byte_of s1 s0) (cf_of s1 s0))
        == (if ltb (s1 * 10 + s0) 99 then 1 else 0))

difference_table : holds_below (λ i. difference_test (i / 19) (i % 19)) 361 ≡ true
unfolding holds_below
difference_table = refl

difference_test_lem : (s1 s0 : ℕ) → s1 < 19 → s0 < 19 → difference_test s1 s0 ≡ true
difference_test_lem s1 s0 small1 small0 =
    let above : (s1 * 19 + s0) / 19 ≡ s1 = omega arith in
    let below : (s1 * 19 + s0) % 19 ≡ s0 = omega arith in
    sym (ap₂ difference_test above below)
    ∙ holds_below_lem (λ i. difference_test (i / 19) (i % 19)) 361 difference_table (s1 * 19 + s0)
        (omega arith)

module _ (m : Machine) (a b : ℕ) (sized : length m.weg ≡ 16) (small_a : a < 100)
    (small_b : b < 100) where
  abbrev rest : Machine × ℕ
  rest = k_alu sub w8 m (bcd a) (bcd b)

  abbrev s1 : ℕ
  s1 = a / 10 + 9 - b / 10

  abbrev s0 : ℕ
  s0 = a % 10 + 9 - b % 10

  abbrev held : Machine
  held = put_al rest.1 rest.0

  described : IsDifference w8 m rest.0 (cast w8 (bcd a)) (cast w8 (bcd b)) 0 rest.1
  described = k_alu-sub w8 m (bcd a) (bcd b)

  rest_sized : length rest.0.weg ≡ 16
  rest_sized = ap length described.described.registers ∙ sized

  held_sized : length held.weg ≡ 16
  unfolding put_al
  held_sized = length-set rest.0.weg 0 _ ∙ rest_sized

  held-al : al held ≡ byte_of s1 s0
  held-al = al-put_al rest.0 rest.1 rest_sized ∙ omega (arith, described.value)

  held_af : bit 4 held.flags ≡ af_of s0
  unfolding put_al
  held_af = ground (arith, described.auxiliary, bit-lt 4 rest.0.flags)

  held_cf : bit 0 held.flags ≡ cf_of s1 s0
  unfolding put_al
  held_cf = ground (arith, described.borrow, bit-lt 0 rest.0.flags)

  tested :
      (lowered (low_of s1 s0) (high_of s1 s0) (byte_of s1 s0) ≡ bcd ((s1 * 10 + s0 + 1) % 100))
      × (to_u (borrows (low_of s1 s0) (high_of s1 s0) (byte_of s1 s0) (cf_of s1 s0))
          ≡ (if ltb (s1 * 10 + s0) 99 then 1 else 0))
  tested =
      let (value, carry) = both _ _ (difference_test_lem s1 s0 (omega arith) (omega arith)) in
      ((==_iff _ _).0 value, (==_iff _ _).0 carry)

  das_al : al (op_das held) ≡ bcd ((a + 100 - b) % 100)
  das_al = op_das-al held held_sized ∙ rw (held-al, held_af, held_cf) (tested.0 ∙ omega arith)

  das_cf : bit 0 (op_das held).flags ≡ (if ltb (s1 * 10 + s0) 99 then 1 else 0)
  das_cf = op_das-cf held held_sized ∙ rw (held-al, held_af, held_cf) tested.1

-- Two numbers of two decimal digits are subtracted by `Sub8` and adjusted by `OpDas`: AL holds the
-- two digits of the difference modulo 100, and CF says whether the second number is greater.
pub op_das-sub :
    (m : Machine) (a b : ℕ)
    → length m.weg ≡ 16
    → a < 100
    → b < 100
    → let (n, z) = k_alu sub w8 m (bcd a) (bcd b) in
      (al (op_das (put_al z n)) ≡ bcd ((a + 100 - b) % 100))
      × ((bit 0 (op_das (put_al z n)).flags ≡ 1) ↔ (a < b))
op_das-sub m a b sized small_a small_b =
    (das_al m a b sized small_a small_b, ground (arith, das_cf m a b sized small_a small_b))
