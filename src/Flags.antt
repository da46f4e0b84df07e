-- ===== src/Flags.antt =====
-- native/blink/blink/flags.h and flags.c. The parity flag is lazy: bits 24 to 31 of `flags` hold
-- the low byte of the last result, and its parity is computed when the flag is read.
pub mod Parity
pub mod Conditions
pub mod Setting
use atua_computer.Base.{ℕ, ◌+◌, ◌-◌, ◌*◌, ◌/◌, ◌%◌, ◌^◌, Bool, true, false, not, ◌==◌}
use atua_computer.Base.{if◌then◌else◌, ◌&&&◌, ◌|||◌, ◌^^^◌, ◌<<<◌, ◌>>>◌, not32, not64, to_u, bit}
use atua_computer.Base.{falsity, is_negative8}
use atua_computer.Machine.{Machine}

abbrev pub flags_cf : ℕ
flags_cf = 0

abbrev pub flags_pf : ℕ
flags_pf = 2

-- Called F1 by the source.
abbrev pub flags_f1 : ℕ
flags_f1 = 3

abbrev pub flags_af : ℕ
flags_af = 4

abbrev pub flags_zf : ℕ
flags_zf = 6

abbrev pub flags_sf : ℕ
flags_sf = 7

abbrev pub flags_tf : ℕ
flags_tf = 8

abbrev pub flags_if : ℕ
flags_if = 9

abbrev pub flags_df : ℕ
flags_df = 10

abbrev pub flags_of : ℕ
flags_of = 11

abbrev pub flags_iopl : ℕ
flags_iopl = 12

abbrev pub flags_nt : ℕ
flags_nt = 14

abbrev pub flags_f0 : ℕ
flags_f0 = 15

abbrev pub flags_rf : ℕ
flags_rf = 16

abbrev pub flags_ac : ℕ
flags_ac = 18

abbrev pub flags_id : ℕ
flags_id = 21

abbrev pub flags_lp : ℕ
flags_lp = 24

-- `GetParity`, on a byte.
unfoldable pub get_parity : ℕ → ℕ
get_parity b0 =
    let b1 = b0 ^^^ (b0 >>> 4) in
    let b2 = b1 ^^^ (b1 >>> 2) in let b3 = b2 ^^^ (b2 >>> 1) in not32 b3 &&& 1

unfoldable pub get_lazy_parity_bool : ℕ → ℕ
unfolding get_parity
get_lazy_parity_bool f = get_parity ((0xff00_0000 &&& f) >>> flags_lp)

unfoldable pub set_lazy_parity_byte : ℕ → ℕ → ℕ
set_lazy_parity_byte f x = (0x00ff_ffff &&& f) ||| ((255 &&& x) <<< flags_lp)

-- The `bool` that `GetFlag` returns, as a number.
unfoldable pub get_flag : ℕ → ℕ → ℕ
unfolding get_lazy_parity_bool
get_flag f b = if b == flags_pf then get_lazy_parity_bool f else (f >>> b) &&& 1

unfoldable pub set_flag : ℕ → ℕ → Bool → ℕ
unfolding set_lazy_parity_byte
set_flag f b v =
    if b == flags_pf
    then set_lazy_parity_byte f (to_u (not v))
    else (f &&& not32 (1 <<< b)) ||| (to_u v <<< b)

-- The bits that `ImportFlags` takes over.
abbrev pub import_mask : ℕ
import_mask =
    (1 <<< flags_cf)
    ||| (1 <<< flags_pf)
    ||| (1 <<< flags_af)
    ||| (1 <<< flags_zf)
    ||| (1 <<< flags_sf)
    ||| (1 <<< flags_tf)
    ||| (1 <<< flags_if)
    ||| (1 <<< flags_df)
    ||| (1 <<< flags_of)
    ||| (1 <<< flags_nt)
    ||| (1 <<< flags_ac)
    ||| (1 <<< flags_id)

unfoldable pub import_flags : Machine → ℕ → Machine
unfolding set_flag
import_flags m flags =
    let f1 = ((flags &&& import_mask) ||| (m.flags &&& not64 import_mask)) % 2 ^ 32 in
    let f2 = set_flag f1 flags_rf false in
    record m { flags = set_lazy_parity_byte f2 (falsity ((f2 >>> flags_pf) &&& 1)) }

-- `SetFlag` takes a `u32` and a `bool`, so the 3 passed for IOPL arrives as `true`.
unfoldable pub export_flags : ℕ → ℕ
unfolding set_flag get_lazy_parity_bool
export_flags flags =
    let f1 = set_flag (flags % 2 ^ 32) flags_iopl true in
    let f2 = set_flag f1 flags_f1 true in
    let f3 = set_flag f2 flags_f0 false in
    let f4 = f3 &&& not64 (1 <<< flags_pf) in f4 ||| (get_lazy_parity_bool f4 <<< flags_pf)

-- The conditions of the jump, move and set instructions.
unfoldable pub is_below_or_equal : Machine → Bool
is_below_or_equal m = (((m.flags >>> 6) ||| m.flags) &&& 1) == 1

unfoldable pub is_above : Machine → Bool
is_above m = (((not32 m.flags >>> 6) &&& not32 m.flags) &&& 1) == 1

unfoldable pub is_less : Machine → Bool
is_less m = is_negative8 (m.flags ^^^ (m.flags >>> 4))

unfoldable pub is_greater_or_equal : Machine → Bool
is_greater_or_equal m = is_negative8 (not32 (m.flags ^^^ (m.flags >>> 4)))

unfoldable pub is_less_or_equal : Machine → Bool
is_less_or_equal m = is_negative8 ((m.flags ^^^ (m.flags >>> 4)) ||| ((m.flags <<< 1) % 2 ^ 32))

unfoldable pub is_greater : Machine → Bool
is_greater m =
    is_negative8 (not32 (m.flags ^^^ (m.flags >>> 4)) &&& not32 ((m.flags <<< 1) % 2 ^ 32))
