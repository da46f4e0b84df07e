-- ===== src/Alu/Shift/Left.antt =====
-- `Shl` at every operand size.
use atua_computer.Bits.Powers.{carried_in}
use atua_computer.Alu.Arith.Carries.{sign-lt, cast-lt}
use atua_computer.Bits.{xor_of_bits, bit_and_mask}
use atua_computer.Base.{
  sym, ℕ, suc, ◌+◌, ◌-◌, ◌*◌, ◌/◌, ◌%◌, ◌^◌, ◌<◌, ◌≤◌, ◌≡◌, ◌∙◌, arith, Width, w8, w16, w32, w64,
  size, sign_bit, bits, cast, bit, bit_and,
}
use native.Mathlib.Decide.{dec_le}
use atua_computer.Machine.{Machine}
use atua_computer.Bits.Place.{bit_below, bit_above}
use atua_computer.Alu.Shift.{shl_at, shl_index, count_mask, carrier}
use atua_computer.Alu.Shift.Laws.{suc-ne-zero}
use atua_computer.Alu.Arith.Described.{Leaves, at-Leaves}

cast-carrier : (w : Width) (v : ℕ) → cast w (cast (carrier w) v) ≡ cast w v
cast-carrier w8 v = omega arith
cast-carrier w16 v = omega arith
cast-carrier w32 v = omega arith
cast-carrier w64 v = omega arith

index_small :
    (w : Width) (k : ℕ) → k ≤ bits w → k ≤ count_mask w → 0 < k → shl_index w k ≡ bits w - k
unfolding shl_index
index_small w8 k h c p = omega (arith, bit_and_mask 5 ((8 + 2 ^ 64 - k) % 2 ^ 64))
index_small w16 k h c p = omega (arith, bit_and_mask 5 ((16 + 2 ^ 64 - k) % 2 ^ 64))
index_small w32 k h c p = omega arith
index_small w64 k h c p = omega arith

-- A count above the width moves out zeros only, and the index that the source takes then is past
-- the operand.
index_large : (w : Width) (k : ℕ) → bits w < k → k ≤ count_mask w → bits w ≤ shl_index w k
unfolding shl_index
index_large w8 k h c = omega (arith, bit_and_mask 5 ((8 + 2 ^ 64 - k) % 2 ^ 64))
index_large w16 k h c = omega (arith, bit_and_mask 5 ((16 + 2 ^ 64 - k) % 2 ^ 64))
index_large w32 k h c = absurd (omega arith)
index_large w64 k h c = absurd (omega arith)

shl_carry :
    (w : Width) (x k : ℕ)
    → x < size w
    → 0 < k
    → k ≤ count_mask w
    → bit_and (x / 2 ^ shl_index w k) 1 ≡ bit (bits w) (x * 2 ^ k)
shl_carry w x k h p c = bit_and_mask 1 (x / 2 ^ shl_index w k) ∙ elim (dec_le k (bits w)) [
  | yes le ↦ rw (index_small w k le c p) (sym (carried_in (bits w) k x le))
  | no gt ↦
      bit_above (bits w) (shl_index w k) x h (index_large w k (omega arith) c)
      ∙ sym (bit_below k (bits w) x (omega arith))
]

module _ (w : Width) (m : Machine) (x64 y64 j : ℕ) (e : bit_and y64 (count_mask w) ≡ suc j)
    (le : suc j ≤ count_mask w) where
  abbrev x : ℕ
  x = cast w x64

  abbrev z : ℕ
  z = cast w (x * 2 ^ suc j)

  pub shl-Leaves :
      Leaves w m
        (shl_at w m x64 y64)
        z
        0
        ((z / 2 ^ sign_bit w + bit (bits w) (x * 2 ^ suc j)) % 2)
        (bit (bits w) (x * 2 ^ suc j))
  unfolding shl_at
  shl-Leaves =
      rw
        (
          e,
          suc-ne-zero j,
          cast-carrier w (x * 2 ^ suc j),
          shl_carry w x (suc j) (cast-lt w x64) (omega arith) le,
          xor_of_bits (z / 2 ^ sign_bit w) (bit (bits w) (x * 2 ^ suc j))
              (sign-lt w z (cast-lt w _)) (omega arith),
        )
        (at-Leaves w m z 0 _ _ (cast-lt w (x * 2 ^ suc j)) (omega arith) (omega arith)
          (omega arith))
