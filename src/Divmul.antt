-- ===== src/Divmul.antt =====
-- The unsigned instructions of native/blink/blink/divmul.c, on a host without __int128 and without the
-- compiler for hot paths. The operand that `p` points to is an argument.
pub mod Division
pub mod Product
use atua_computer.Base.{
  get_or-set_ne, both, get_or-set_self, length-set, holds_below, holds_below_lem, to_u, bit, Width,
  w8, w16, w32, w64, size, cast, not32, ℤ, pos, negsuc, replicate, length-append, append-nil,
  append_assoc, if_true, if_false, ℕ, zero, suc, ◌+◌, ◌-◌, ◌*◌, ◌/◌, ◌%◌, ◌^◌, ◌≤◌, ◌<◌, ◌≡◌, ◌≢◌,
  ◌↔◌, ◌⊎◌, inl, inr, refl, sym, ◌∙◌, ap, ap₂, subst, arith, bit_and, bit_or, bit_xor, ◌&&&◌, ◌|||◌,
  ◌^^^◌, ◌>>>◌, ◌<<<◌, not64, ◌==◌, ltb, leb, true, false, Bool, not, ◌&&◌, ◌||◌, Option, none,
  some, some-injective, none-ne-some, List, [], ◌∷◌, ◌++◌, length, get_or, set, take, drop,
  if_equal, if_unequal, ==_iff, Bool-cases, if◌then◌else◌, min, max,
}
use atua_computer.Machine.{Machine, ax, al, put_ax, put_al, put_ah}
use atua_computer.Flags.{set_flag, flags_cf, flags_of}
use atua_computer.Dubble.{Dubble, dubble_div, dubble_mul, dubble_imul}

-- `m->dx` is the third register.
abbrev pub dx : Machine → ℕ
dx m = get_or m.weg 2 0

abbrev pub put64 : ℕ → ℕ → Machine → Machine
put64 reg v m = record m { weg = set m.weg reg (v % 2 ^ 64) }

abbrev pub put16 : ℕ → ℕ → Machine → Machine
put16 reg v m = record m { weg = set m.weg reg (get_or m.weg reg 0 / 2 ^ 16 * 2 ^ 16 + v % 2 ^ 16) }

-- `none` is the divide error.
unfoldable pub op_div_al_ah_ax_eb_unsigned : Machine → ℕ → Option Machine
op_div_al_ah_ax_eb_unsigned m y =
    let x = ax m % 2 ^ 16 in
    let q = x / y in
    let r = x % y in
    if y == 0
    then none
    else (if ltb 0xff q then none else some (put_ah (r &&& 0xff) (put_al (q &&& 0xff) m)))

unfoldable pub op_div_rdx_rax_evqp_unsigned16 : Machine → ℕ → Option Machine
op_div_rdx_rax_evqp_unsigned16 m y =
    let x = ((dx m % 2 ^ 16) <<< 16) ||| (ax m % 2 ^ 16) in
    let q = x / y in
    let r = x % y in
    if y == 0 then none else (if ltb 0xffff q then none else some (put16 2 r (put16 0 q m)))

unfoldable pub op_div_rdx_rax_evqp_unsigned32 : Machine → ℕ → Option Machine
op_div_rdx_rax_evqp_unsigned32 m y =
    let x = ((dx m % 2 ^ 32) <<< 32) ||| (ax m % 2 ^ 32) in
    let q = x / y in
    let r = x % y in
    if y == 0
    then none
    else (if ltb 0xffff_ffff q then none else some (put64 2 (r % 2 ^ 32) (put64 0 (q % 2 ^ 32) m)))

unfoldable pub op_div_rdx_rax_evqp_unsigned64 : Machine → ℕ → Option Machine
unfolding dubble_div
op_div_rdx_rax_evqp_unsigned64 m d =
    let (q, r) = dubble_div (record { lo = ax m; hi = dx m }) d in
    if d == 0 then none else (if not (q.hi == 0) then none else some (put64 2 r (put64 0 q.lo m)))

-- CF and OF are set together.
abbrev pub put_overflow : Bool → Machine → Machine
put_overflow of m = record m { flags = set_flag (set_flag m.flags flags_cf of) flags_of of }

unfoldable pub op_mul_ax_al_eb_unsigned : Machine → ℕ → Machine
unfolding set_flag
op_mul_ax_al_eb_unsigned m y =
    let product = al m * y in put_ax product (put_overflow (not (product == product % 2 ^ 8)) m)

unfoldable pub op_mul_rdx_rax_evqp_unsigned16 : Machine → ℕ → Machine
unfolding set_flag
op_mul_rdx_rax_evqp_unsigned16 m y =
    let dxax = (ax m % 2 ^ 16) * (y % 2 ^ 16) % 2 ^ 32 in
    put_overflow (not (dxax % 2 ^ 16 == dxax)) (put16 2 (dxax >>> 16) (put16 0 dxax m))

unfoldable pub op_mul_rdx_rax_evqp_unsigned32 : Machine → ℕ → Machine
unfolding set_flag
op_mul_rdx_rax_evqp_unsigned32 m x =
    let edxeax = (ax m % 2 ^ 32) * x % 2 ^ 64 in
    put_overflow (not (edxeax % 2 ^ 32 == edxeax))
      (put64 2 (edxeax >>> 32) (put64 0 (edxeax % 2 ^ 32) m))

unfoldable pub op_mul_rdx_rax_evqp_unsigned64 : Machine → ℕ → Machine
unfolding set_flag dubble_mul
op_mul_rdx_rax_evqp_unsigned64 m x =
    let rdxrax = dubble_mul (ax m) x in
    put_overflow (not (rdxrax.hi == 0)) (put64 2 rdxrax.hi (put64 0 rdxrax.lo m))

-- The branch without __int128: CF and OF tell whether the upper word is more than the sign.
unfoldable pub op_mul_rdx_rax_evqp_signed64 : Machine → ℕ → Machine
unfolding set_flag dubble_imul
op_mul_rdx_rax_evqp_signed64 m x =
    let rdxrax = dubble_imul (ax m) x in
    put_overflow (not ((rdxrax.hi + (rdxrax.lo >>> 63)) % 2 ^ 64 == 0))
      (put64 2 rdxrax.hi (put64 0 rdxrax.lo m))
