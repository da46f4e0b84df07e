-- ===== src/Divmul/Product.antt =====
-- The product in two words, and the flags that tell whether one was enough: native/blink/blink/divmul.c.
use atua_computer.Dubble.Signed.{dubble_imul-value, pattern128, IsDubble-imul, IsDubble-mul}
use atua_computer.Divmul.{
  dubble_imul, dubble_mul, op_mul_rdx_rax_evqp_signed64, op_mul_rdx_rax_evqp_unsigned32,
  op_mul_rdx_rax_evqp_unsigned64, put64, put16, put_overflow, op_mul_rdx_rax_evqp_unsigned16,
}
use atua_computer.Base.{
  ◌*ℤ◌, signed, to_u, bit, ℕ, ◌-◌, ◌*◌, ◌%◌, ◌^◌, ◌≤◌, ◌<◌, ◌≡◌, ◌∙◌, ap, subst, arith, ◌>>>◌, ◌==◌,
  leb, Bool, not, length, w64, ◌+◌, ltb, ◌||◌,
}
use atua_computer.Dubble.Laws.{dubble_mul-value, value, IsDubble}
use atua_computer.Dubble.{Dubble}
use atua_computer.Divmul.Division.{ax-put64, dx-put64, wide, ax-put16, dx-put16}
use native.Mathlib.Nat.{mul-le-mul}
use atua_computer.Machine.{Machine, ax}
use atua_computer.Flags.{flags_cf, flags_of, set_flag}
use atua_computer.Flags.Setting.{set_flag-bit}

-- `n` is `m` after the product of `x` and its first word: it is in the words, and CF and OF tell
-- whether the upper word is needed.
pub record Multiplies (w : ℕ) (m : Machine) (x : ℕ) (n : Machine) : Type 0 where
  pub product : wide w n ≡ ax m % 2 ^ w * x
  pub carry : bit flags_cf n.flags ≡ to_u (leb (2 ^ w) (ax m % 2 ^ w * x))
  pub overflow : bit flags_of n.flags ≡ to_u (leb (2 ^ w) (ax m % 2 ^ w * x))

overflow_flags :
    (f : ℕ) (v : Bool)
    → (bit flags_cf (set_flag (set_flag f flags_cf v) flags_of v) ≡ to_u v)
      × (bit flags_of (set_flag (set_flag f flags_cf v) flags_of v) ≡ to_u v)
overflow_flags f v = (
  set_flag-bit (set_flag f flags_cf v) flags_of flags_cf v (λ e. absurd (omega (arith, e)))
        (omega arith) (omega arith)
      ∙ set_flag-bit f flags_cf flags_cf v (λ e. absurd (omega (arith, e))) (omega arith)
          (omega arith),
  set_flag-bit (set_flag f flags_cf v) flags_of flags_of v (λ e. absurd (omega (arith, e)))
      (omega arith) (omega arith),
)

-- What the three handlers share, from the words and the test they compute.
overflowed-Multiplies :
    (w : ℕ) (m n : Machine) (x : ℕ) (v : Bool)
    → wide w n ≡ ax m % 2 ^ w * x
    → v ≡ leb (2 ^ w) (ax m % 2 ^ w * x)
    → Multiplies w m x (put_overflow v n)
overflowed-Multiplies w m n x v product test = record {
  product = product;
  carry = (overflow_flags n.flags v).0 ∙ ap to_u test;
  overflow = (overflow_flags n.flags v).1 ∙ ap to_u test;
}

small_product : (a b k : ℕ) → a < k → b < k → a * b ≤ (k - 1) * (k - 1)
small_product a b k ha hb =
    mul-le-mul {n₁ = a} {m₁ = b} {n₂ = k - 1} {m₂ = k - 1} (omega arith) (omega arith)

one_word16 : (p : ℕ) → not (p % 2 ^ 16 == p) ≡ leb (2 ^ 16) p
one_word16 p = ground arith

one_word32 : (p : ℕ) → not (p % 2 ^ 32 == p) ≡ leb (2 ^ 32) p
one_word32 p = ground arith

-- The product of AX and a word is in DX and AX, CF and OF are set when it does not fit AX.
pub op_mul_rdx_rax_evqp_unsigned16-Multiplies :
    (m : Machine) (x : ℕ)
    → length m.weg ≡ 16
    → x < 2 ^ 16
    → Multiplies 16 m x (op_mul_rdx_rax_evqp_unsigned16 m x)
unfolding op_mul_rdx_rax_evqp_unsigned16
op_mul_rdx_rax_evqp_unsigned16-Multiplies m x sized fits =
    let p = (ax m % 2 ^ 16) * (x % 2 ^ 16) % 2 ^ 32 in
    let bound = small_product (ax m % 2 ^ 16) x (2 ^ 16) (omega arith) fits in
    let exact : p ≡ ax m % 2 ^ 16 * x =
      ap (λ t. ax m % 2 ^ 16 * t % 2 ^ 32) (let e : x % 2 ^ 16 ≡ x = omega arith in e)
      ∙ omega (arith, bound) in
    overflowed-Multiplies 16 m (put16 2 (p >>> 16) (put16 0 p m)) x (not (p % 2 ^ 16 == p))
      (omega (arith, ax-put16 m p (p >>> 16) sized, dx-put16 m p (p >>> 16) sized, exact, bound))
      (subst (λ t. not (p % 2 ^ 16 == p) ≡ leb (2 ^ 16) t) exact (one_word16 p))

-- The product of EAX and a double word is in EDX and EAX, CF and OF are set when it does not fit EAX.
pub op_mul_rdx_rax_evqp_unsigned32-Multiplies :
    (m : Machine) (x : ℕ)
    → length m.weg ≡ 16
    → x < 2 ^ 32
    → Multiplies 32 m x (op_mul_rdx_rax_evqp_unsigned32 m x)
unfolding op_mul_rdx_rax_evqp_unsigned32
op_mul_rdx_rax_evqp_unsigned32-Multiplies m x sized fits =
    let p = (ax m % 2 ^ 32) * x % 2 ^ 64 in
    let bound = small_product (ax m % 2 ^ 32) x (2 ^ 32) (omega arith) fits in
    let exact : p ≡ ax m % 2 ^ 32 * x = omega (arith, bound) in
    overflowed-Multiplies 32 m (put64 2 (p >>> 32) (put64 0 (p % 2 ^ 32) m)) x
      (not (p % 2 ^ 32 == p))
      (omega (
        arith,
        ax-put64 m (p % 2 ^ 32) (p >>> 32) sized,
        dx-put64 m (p % 2 ^ 32) (p >>> 32) sized,
        exact,
        bound,
      ))
      (subst (λ t. not (p % 2 ^ 32 == p) ≡ leb (2 ^ 32) t) exact (one_word32 p))

upper_word : (d : Dubble) → IsDubble d → not (d.hi == 0) ≡ leb (2 ^ 64) (value d)
upper_word d valid = ground (arith, valid.lo_fits, valid.hi_fits)

-- The product of RAX and a word of 64 bits is in RDX and RAX, CF and OF are set when it does not
-- fit RAX. RAX is 64 bits.
pub op_mul_rdx_rax_evqp_unsigned64-Multiplies :
    (m : Machine) (x : ℕ)
    → length m.weg ≡ 16
    → ax m < 2 ^ 64
    → x < 2 ^ 64
    → Multiplies 64 m x (op_mul_rdx_rax_evqp_unsigned64 m x)
unfolding op_mul_rdx_rax_evqp_unsigned64
op_mul_rdx_rax_evqp_unsigned64-Multiplies m x sized ax_fits fits =
    let p = dubble_mul (ax m) x in
    let valid = IsDubble-mul (ax m) x in
    let exact : value p ≡ ax m % 2 ^ 64 * x =
      dubble_mul-value (ax m) x ax_fits fits
      ∙ ap (λ t. t * x) (let e : ax m ≡ ax m % 2 ^ 64 = omega arith in e) in
    overflowed-Multiplies 64 m (put64 2 p.hi (put64 0 p.lo m)) x (not (p.hi == 0))
      (omega (
        arith,
        ax-put64 m p.lo p.hi sized,
        dx-put64 m p.lo p.hi sized,
        exact,
        valid.lo_fits,
        valid.hi_fits,
      ))
      (subst (λ t. not (p.hi == 0) ≡ leb (2 ^ 64) t) exact (upper_word p valid))

-- A pattern of 128 bits is a signed word when it is below 2 ^ 63 or among the last 2 ^ 63.
abbrev pub is_signed_word : ℕ → Bool
is_signed_word v = ltb v (2 ^ 63) || leb (2 ^ 128 - 2 ^ 63) v

signed_word :
    (d : Dubble)
    → IsDubble d
    → not ((d.hi + (d.lo >>> 63)) % 2 ^ 64 == 0) ≡ not (is_signed_word (value d))
signed_word d valid = ground (arith, valid.lo_fits, valid.hi_fits)

-- The signed product of RAX and a word is in RDX and RAX, CF and OF are set when it does not fit a
-- signed word. RAX is 64 bits.
pub op_mul_rdx_rax_evqp_signed64-product :
    (m : Machine) (x : ℕ)
    → length m.weg ≡ 16
    → ax m < 2 ^ 64
    → x < 2 ^ 64
    → let n = op_mul_rdx_rax_evqp_signed64 m x in
      let v = pattern128 (signed w64 (ax m) *ℤ signed w64 x) in
      (wide 64 n ≡ v)
      × (bit flags_cf n.flags ≡ to_u (not (is_signed_word v)))
      × (bit flags_of n.flags ≡ to_u (not (is_signed_word v)))
unfolding op_mul_rdx_rax_evqp_signed64
op_mul_rdx_rax_evqp_signed64-product m x sized ax_fits fits =
    let p = dubble_imul (ax m) x in
    let valid = IsDubble-imul (ax m) x in
    let v = pattern128 (signed w64 (ax m) *ℤ signed w64 x) in
    let exact : value p ≡ v = dubble_imul-value (ax m) x ax_fits fits in
    let n = put64 2 p.hi (put64 0 p.lo m) in
    let test : not ((p.hi + (p.lo >>> 63)) % 2 ^ 64 == 0) ≡ not (is_signed_word v) =
      signed_word p valid ∙ ap (λ t. not (is_signed_word t)) exact in
    let flags = overflow_flags n.flags (not ((p.hi + (p.lo >>> 63)) % 2 ^ 64 == 0)) in
    (
      omega (
        arith,
        ax-put64 m p.lo p.hi sized,
        dx-put64 m p.lo p.hi sized,
        exact,
        valid.lo_fits,
        valid.hi_fits,
      ),
      flags.0 ∙ ap to_u test,
      flags.1 ∙ ap to_u test,
    )
