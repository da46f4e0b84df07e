-- ===== src/Flags/Parity.antt =====
-- The lazy parity flag: the folding in `GetParity` counts the ones of a byte, and the byte kept in
-- the top of `flags` is the one that `SetLazyParityByte` stored.
use atua_computer.Base.{
  ℕ, zero, suc, ◌+◌, ◌*◌, ◌/◌, ◌%◌, ◌^◌, ◌<◌, ◌≡◌, refl, arith, ◌==◌, ==_iff, true, ap, ◌∙◌,
  holds_below, holds_below_lem, falsity, bit, bit_and,
}
use atua_computer.Bits.{mask_bit_and, bit_and-div, bit_or_comm, bit_or_fields}
use atua_computer.Flags.{flags_lp, get_parity, get_lazy_parity_bool, set_lazy_parity_byte}

-- The ones among the lowest `n` bits.
abbrev pub count_ones : ℕ → ℕ → ℕ
count_ones zero b = 0
count_ones (suc n) b = bit n b + count_ones n b

parity_table : holds_below (λ b. get_parity b == falsity (count_ones 8 b % 2)) 256 ≡ true
unfolding holds_below get_parity
parity_table = refl

pub get_parity_lem : (b : ℕ) → b < 256 → get_parity b ≡ falsity (count_ones 8 b % 2)
get_parity_lem b h =
    (==_iff _ _).0
      (holds_below_lem (λ b. get_parity b == falsity (count_ones 8 b % 2)) 256 parity_table b h)

-- The byte at the top of the flags.
abbrev pub parity_byte : ℕ → ℕ
parity_byte f = f / 2 ^ 24 % 256

parity_index : (f : ℕ) → f < 2 ^ 32 → bit_and 0xff00_0000 f / 2 ^ flags_lp ≡ parity_byte f
parity_index f h = omega (arith, bit_and-div 24 0xff00_0000 f, mask_bit_and 8 (f / 2 ^ 24))

pub get_lazy_parity_bool_lem :
    (f : ℕ) → f < 2 ^ 32 → get_lazy_parity_bool f ≡ falsity (count_ones 8 (parity_byte f) % 2)
unfolding get_lazy_parity_bool
get_lazy_parity_bool_lem f h =
    ap get_parity (parity_index f h) ∙ get_parity_lem (parity_byte f) (omega arith)

-- The stored byte can be read back, and the other bits stay.
pub set_lazy_parity_byte_sum : (f x : ℕ) → set_lazy_parity_byte f x ≡ x % 256 * 2 ^ 24 + f % 2 ^ 24
unfolding set_lazy_parity_byte
set_lazy_parity_byte_sum f x =
    rw (mask_bit_and 24 f, mask_bit_and 8 x, bit_or_comm (f % 2 ^ 24) (x % 256 * 2 ^ 24))
      (bit_or_fields 24 (x % 256) (f % 2 ^ 24) (omega arith))
