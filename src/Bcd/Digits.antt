-- ===== src/Bcd/Digits.antt =====
-- `OpAam` and `OpAad` of native/blink/blink/bcd.c: a byte as two digits, and back.
use atua_computer.Base.{
  get_or-set_self, length-set, ℕ, ◌+◌, ◌*◌, ◌/◌, ◌%◌, ◌<◌, ◌≡◌, ◌∙◌, ap, ap₂, arith, ◌&&&◌, false,
  none, some, length, if_unequal,
}
use atua_computer.Machine.{Machine, al, ah, ax, put_al, put_ah, put_ax}
use atua_computer.Bits.{bit_and_mask}
use atua_computer.Bcd.{op_aam, op_aad, bcd_flags}
use native.Mathlib.Nat.{div-le_self, mod-lt, mod-add-div'}

ax-put_ah :
    (m : Machine) (v : ℕ)
    → length m.weg ≡ 16
    → ax (put_ah v m) ≡ ax m / 65536 * 65536 + v % 256 * 256 + al m
unfolding put_ah
ax-put_ah m v sized = get_or-set_self m.weg 0 _ 0 (omega arith)

ax-put_al : (m : Machine) (v : ℕ) → length m.weg ≡ 16 → ax (put_al v m) ≡ ax m / 256 * 256 + v % 256
unfolding put_al
ax-put_al m v sized = get_or-set_self m.weg 0 _ 0 (omega arith)

ax-put_ax :
    (m : Machine) (v : ℕ) → length m.weg ≡ 16 → ax (put_ax v m) ≡ ax m / 65536 * 65536 + v % 65536
unfolding put_ax
ax-put_ax m v sized = get_or-set_self m.weg 0 _ 0 (omega arith)

module _ (m : Machine) (imm : ℕ) (sized : length m.weg ≡ 16) (some_base : 0 < imm)
    (small : imm < 256) where
  abbrev q : ℕ
  q = al m / imm

  abbrev r : ℕ
  r = al m % imm

  abbrev quotient : Machine
  quotient = put_ah q m

  abbrev split : Machine
  split = put_al (al quotient % imm) quotient

  quotient_sized : length quotient.weg ≡ 16
  unfolding put_ah
  quotient_sized = length-set m.weg 0 _ ∙ sized

  split_sized : length split.weg ≡ 16
  unfolding put_al
  split_sized = length-set quotient.weg 0 _ ∙ quotient_sized

  q_small : q < 256
  q_small = omega (arith, div-le_self (al m) imm)

  r_small : r < 256
  r_small = omega (arith, mod-lt (al m) some_base)

  quotient_al : al quotient ≡ al m
  quotient_al = ap (λ (t : ℕ). t % 256) (ax-put_ah m q sized) ∙ omega arith

  split-ax : ax split ≡ ax m / 65536 * 65536 + q * 256 + r
  split-ax =
      ax-put_al quotient (al quotient % imm) quotient_sized
      ∙ ap₂ (λ (s t : ℕ). s / 256 * 256 + t % imm % 256) (ax-put_ah m q sized) quotient_al
      ∙ omega (arith, q_small, r_small)

  split-ah : ah split ≡ q
  split-ah = ap (λ (t : ℕ). t / 256 % 256) split-ax ∙ omega (arith, q_small, r_small)

  split-al : al split ≡ r
  split-al = ap (λ (t : ℕ). t % 256) split-ax ∙ omega (arith, q_small, r_small)

  whole : (ah split * imm + al split) &&& 255 ≡ al m
  whole =
      ap₂ (λ s t. (s * imm + t) &&& 255) split-ah split-al
      ∙ bit_and_mask 8 (q * imm + r)
      ∙ omega (arith, mod-add-div' (al m) imm)

  joined : ax (put_ax ((ah split * imm + al split) &&& 255) split) ≡ ax m / 65536 * 65536 + al m
  joined =
      ax-put_ax split ((ah split * imm + al split) &&& 255) split_sized
      ∙ ap₂ (λ (s t : ℕ). s / 65536 * 65536 + t % 65536) split-ax whole
      ∙ omega (arith, q_small, r_small)

  aam : Machine
  aam = bcd_flags split false false

  aam-some : op_aam m imm ≡ some aam
  unfolding op_aam aam
  aam-some = if_unequal imm 0 none (some (bcd_flags split false false)) (λ e. absurd (omega arith))

-- `OpAam` splits AL by a base other than 0 into AH and AL, `OpAad` with the same base gives AL
-- back and clears AH.
pub op_aam-op_aad :
    (m : Machine) (imm : ℕ)
    → length m.weg ≡ 16
    → 0 < imm
    → imm < 256
    → (n : Machine) × (op_aam m imm ≡ some n)
      × (ah n ≡ al m / imm)
      × (al n ≡ al m % imm)
      × (al (op_aad n imm) ≡ al m)
      × (ah (op_aad n imm) ≡ 0)
unfolding aam bcd_flags op_aad put_ax
op_aam-op_aad m imm sized some_base small = (
  aam m imm sized some_base small,
  aam-some m imm sized some_base small,
  split-ah m imm sized some_base small,
  split-al m imm sized some_base small,
  ap (λ (t : ℕ). t % 256) (joined m imm sized some_base small) ∙ omega arith,
  ap (λ (t : ℕ). t / 256 % 256) (joined m imm sized some_base small) ∙ omega arith,
)
