-- ===== src/Alu/Arith/Described.antt =====
-- The shared end of every operation, and the sign bits that the overflow test combines.
use atua_computer.Base.{
  ap, size, ◌*◌, ◌∙◌, ℕ, suc, ◌+◌, ◌/◌, ◌%◌, ◌^◌, ◌<◌, ◌≡◌, refl, min, Width, arith, sign_bit, bit,
  truth, cast, bit_and, bit_xor,
}
use atua_computer.Bits.{bit_and_mask, bit_and-lt, bit_xor-lt, bit-bit_and, bit-bit_xor}
use atua_computer.Machine.{Outcome, Machine}
use native.Mathlib.Nat.{pow-suc, one-le-pow, div-lt_iff_lt-mul}
use atua_computer.Alu.Status.{alu_flags, alu_flags_at, bump_flags}
use atua_computer.Alu.Status.Laws.{HasStatus, alu_flags-HasStatus, alu_flags_keeps}
use atua_computer.Alu.Arith.Carries.{sign-lt, cast-lt, cast_id}
use atua_computer.Alu.Spec.{Describes}

alu_flags-weg : (m : Machine) (x af of cf sf : ℕ) → (alu_flags m x af of cf sf).0.weg ≡ m.weg
unfolding alu_flags
alu_flags-weg m x af of cf sf = refl

module _ (w : Width) (m : Machine) (z af of cf : ℕ) (haf : af < 2) (hof : of < 2)
    (hcf : cf < 2) where
  abbrev sf : ℕ
  sf = cast w z / 2 ^ sign_bit w

  pub at-HasStatus : HasStatus (alu_flags_at w m z af of cf).0.flags (cast w z) af of cf sf
  unfolding alu_flags_at
  at-HasStatus =
      alu_flags-HasStatus m (cast w z) af of cf sf haf hof hcf (sign-lt w _ (cast-lt w z))

  pub at-Describes : Describes w m (alu_flags_at w m z af of cf).0 (cast w z)
  unfolding alu_flags_at
  at-Describes =
      let s = at-HasStatus in
      record {
        zero_result = ground (arith, s.zero_result);
        sign = omega (arith, s.sign, sign-lt w _ (cast-lt w z));
        parity = s.parity;
        others = alu_flags_keeps m (cast w z) af of cf sf haf hof hcf (sign-lt w _ (cast-lt w z));
        registers = alu_flags-weg m (cast w z) af of cf sf;
      }

top_digit : (s v : ℕ) → v < 2 ^ suc s → v / 2 ^ s ≡ bit s v
top_digit s v h =
    let below : v / 2 ^ s < 2 =
      (div-lt_iff_lt-mul {x = v} {y = 2} (one-le-pow s 2 (omega arith))).1
        (omega (arith, pow-suc 2 s)) in
    omega arith

-- The result is returned as it stands in the flags.
pub at-result :
    (w : Width) (m : Machine) (z af of cf : ℕ) → (alu_flags_at w m z af of cf).1 ≡ cast w z
unfolding alu_flags_at alu_flags
at-result w m z af of cf = refl

-- The sign bit of `(a ^ b) & (c ^ d)`.
pub top_of_and_xor :
    (s a b c d : ℕ)
    → a < 2 ^ suc s
    → b < 2 ^ suc s
    → bit_and (bit_xor a b) (bit_xor c d) / 2 ^ s
      ≡ min ((bit s a + bit s b) % 2) ((bit s c + bit s d) % 2)
top_of_and_xor s a b c d ha hb = omega (
  arith,
  top_digit s (bit_and x y) (bit_and-lt (suc s) x y (bit_xor-lt (suc s) a b ha hb)),
  bit-bit_and s x y,
  bit-bit_xor s a b,
  bit-bit_xor s c d,
)
  where
    x : ℕ
    x = bit_xor a b

    y : ℕ
    y = bit_xor c d

-- The same, as the `bool` that the functions keep.
pub overflow_bit :
    (s a b c d : ℕ)
    → a < 2 ^ suc s
    → b < 2 ^ suc s
    → truth (bit_and (bit_xor a b) (bit_xor c d) / 2 ^ s)
      ≡ min ((bit s a + bit s b) % 2) ((bit s c + bit s d) % 2)
overflow_bit s a b c d ha hb = ground (arith, top_of_and_xor s a b c d ha hb)

-- What an operation leaves behind a result that fits its size.
pub record Leaves (w : Width) (m : Machine) (o : Outcome) (z af of cf : ℕ) : Type 0 where
  pub result : o.1 ≡ z
  pub status : HasStatus o.0.flags z af of cf (z / 2 ^ sign_bit w)
  pub described : Describes w m o.0 z

module _ (w : Width) (m : Machine) (z af of cf : ℕ) (hz : z < size w) (haf : af < 2) (hof : of < 2)
    (hcf : cf < 2) where
  pub at-Leaves : Leaves w m (alu_flags_at w m z af of cf) z af of cf
  at-Leaves = record {
    result = at-result w m z af of cf ∙ cast_id w z hz;
    status = rw (cast_id w z hz) at (at-HasStatus w m z af of cf haf hof hcf);
    described = rw (cast_id w z hz) at (at-Describes w m z af of cf haf hof hcf);
  }

alu_flags_at-eq :
    (w : Width) (m : Machine) (z af of cf : ℕ)
    → z < size w
    → alu_flags_at w m z af of cf ≡ alu_flags m z af of cf (z / 2 ^ sign_bit w)
unfolding alu_flags_at
alu_flags_at-eq w m z af of cf hz =
    ap (λ t. alu_flags m t af of cf (t / 2 ^ sign_bit w)) (cast_id w z hz)

-- The carry that an operation reads.
pub carry_in : (f : ℕ) → truth (bit_and f (1 * 2 ^ 0)) ≡ bit 0 f
carry_in f = ground (arith, bit_and_mask 1 f)

-- Increments go by the same flags, with the old carry.
pub bump-Leaves :
    (w : Width) (m : Machine) (z af of : ℕ)
    → z < size w
    → af < 2
    → of < 2
    → Leaves w m (bump_flags m z af of (z / 2 ^ sign_bit w)) z af of (bit 0 m.flags)
unfolding bump_flags
bump-Leaves w m z af of hz haf hof = rw (carry_in m.flags) (
    rw (alu_flags_at-eq w m z af of (bit 0 m.flags) hz) at
      (at-Leaves w m z af of (bit 0 m.flags) hz haf hof (omega arith)))
