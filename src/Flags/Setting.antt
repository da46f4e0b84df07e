-- ===== src/Flags/Setting.antt =====
-- `SetFlag` and `GetFlag` of native/blink/blink/flags.h on single flags.
use atua_computer.Base.{
  to_u, bit, not32, ℕ, ◌*◌, ◌^◌, ◌<◌, ◌≡◌, ◌≢◌, ◌∙◌, ap, arith, ◌&&&◌, ◌|||◌, ◌>>>◌, ◌<<<◌, ◌==◌,
  true, false, Bool, not, if_unequal, if◌then◌else◌,
}
use atua_computer.Bits.{bit-bit_and, bit-bit_or, bit_and-one}
use atua_computer.Bits.Place.{bit_place, bit_complement, bit-lt}
use native.Mathlib.Nat.{pow-le-pow_right}
use atua_computer.Flags.{get_lazy_parity_bool, get_flag, set_flag, set_lazy_parity_byte, flags_pf}

-- The digits of the word that `SetFlag` puts together.
set_bit :
    (f b k v : ℕ)
    → v < 2
    → b < 32
    → k < 32
    → bit k ((f &&& not32 (1 <<< b)) ||| (v <<< b)) ≡ (if k == b then v else bit k f)
set_bit f b k v small fits in_word =
    let place : 1 * 2 ^ b < 2 ^ 32 =
      omega (arith, pow-le-pow_right {n = 2} (omega arith) {i = b} {j = 31} (omega arith)) in
    ground (
      arith,
      bit-bit_or k (f &&& not32 (1 <<< b)) (v <<< b),
      bit-bit_and k f (not32 (1 <<< b)),
      bit_complement 32 k (1 * 2 ^ b) in_word place,
      bit_place b k 1 (omega arith),
      bit_place b k v small,
      bit-lt k f,
    )

to_u-lt : (v : Bool) → to_u v < 2
to_u-lt true = omega arith
to_u-lt false = omega arith

-- A flag that is set is read back, and the others stay.
pub set_flag-bit :
    (f b k : ℕ) (v : Bool)
    → b ≢ flags_pf
    → b < 32
    → k < 32
    → bit k (set_flag f b v) ≡ (if k == b then to_u v else bit k f)
unfolding set_flag
set_flag-bit f b k v other fits in_word =
    ap (bit k) (
      if_unequal b flags_pf (set_lazy_parity_byte f (to_u (not v)))
        ((f &&& not32 (1 <<< b)) ||| (to_u v <<< b)) other)
    ∙ set_bit f b k (to_u v) (to_u-lt v) fits in_word

pub get_flag-bit : (f b : ℕ) → b ≢ flags_pf → get_flag f b ≡ bit b f
unfolding get_flag
get_flag-bit f b other =
    if_unequal b flags_pf (get_lazy_parity_bool f) ((f >>> b) &&& 1) other
    ∙ bit_and-one (f >>> b)
    ∙ omega arith
