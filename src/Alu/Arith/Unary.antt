-- ===== src/Alu/Arith/Unary.antt =====
-- `Inc`, `Dec` and `Neg` at every operand size, against `Add` and `Sub`.
use atua_computer.Bits.{bit_and_mask}
use native.Mathlib.Nat.{min_comm}
use atua_computer.Base.{
  ◌^◌, suc, ◌%◌, ◌<◌, ℕ, ◌+◌, ◌-◌, ◌≡◌, ◌≢◌, ◌∙◌, sym, Width, w8, w16, w32, w64, arith, size, cast,
  bit, sign_bit, min, to_u, ltb,
}
use native.Mathlib.Decide.{ℕ_discrete}
use atua_computer.Machine.{Machine, Outcome}
use atua_computer.Alu.Spec.{AgreeBut}
use atua_computer.Alu.Arith.{inc_at, dec_at, add_at, sub_at}
use atua_computer.Alu.Arith.Carries.{fits, cast-lt, to_u-lt}
use atua_computer.Alu.Arith.Described.{Leaves, bump-Leaves, at-Leaves, top_of_and_xor, overflow_bit}

-- Outcomes that leave the same result and overflow agree, whatever their carries.
module _ (w : Width) (m : Machine) (o o' : Outcome) (z af af' of cf cf' : ℕ)
    (l : Leaves w m o z af of cf) (l' : Leaves w m o' z af' of cf') where
  same_flags : (k : ℕ) → k < 24 → k ≢ 0 → k ≢ 4 → bit k o.0.flags ≡ bit k o'.0.flags
  same_flags k h h0 h4 = elim (ℕ_discrete k 6) [
    | yes e ↦ rw e (l.status.zero_result ∙ sym l'.status.zero_result)
    | no h6 ↦ elim (ℕ_discrete k 7) [
      | yes e ↦ rw e (l.status.sign ∙ sym l'.status.sign)
      | no h7 ↦ elim (ℕ_discrete k 11) [
        | yes e ↦ rw e (l.status.overflow ∙ sym l'.status.overflow)
        | no h11 ↦
            l.described.others k h h0 h4 h6 h7 h11 ∙ sym (l'.described.others k h h0 h4 h6 h7 h11)
      ]
    ]
  ]

  pub AgreeBut-of_Leaves : AgreeBut o o'
  AgreeBut-of_Leaves = record {
    result = l.result ∙ sym l'.result;
    flags = same_flags;
    parity = l.status.parity ∙ sym l'.status.parity;
    registers = l.described.registers ∙ sym l'.described.registers;
  }

one-lt : (w : Width) → 1 < size w
one-lt w8 = omega arith
one-lt w16 = omega arith
one-lt w32 = omega arith
one-lt w64 = omega arith

cast-one : (w : Width) → cast w 1 ≡ 1
cast-one w8 = omega arith
cast-one w16 = omega arith
cast-one w32 = omega arith
cast-one w64 = omega arith

-- The overflow that `(a ^ b) & (c ^ d)` shows.
abbrev pub clash : Width → ℕ → ℕ → ℕ → ℕ → ℕ
clash w a b c d =
    min ((bit (sign_bit w) a + bit (sign_bit w) b) % 2)
      ((bit (sign_bit w) c + bit (sign_bit w) d) % 2)

module _ (w : Width) (m : Machine) (x64 : ℕ) where
  abbrev x : ℕ
  x = cast w x64

  hx : x < size w
  hx = cast-lt w x64

  abbrev up : ℕ
  up = cast w (x + 1)

  up_fits : up < 2 ^ suc (sign_bit w)
  up_fits = fits w (cast-lt w (x + 1))

  abbrev down : ℕ
  down = cast w (x + size w - 1)

  down_fits : down < 2 ^ suc (sign_bit w)
  down_fits = fits w (cast-lt w (x + size w - 1))

  add-Leaves :
      Leaves w m
        (add_at w m x64 1)
        up
        (to_u (ltb (up % 16) 1))
        (clash w up x up 1)
        (to_u (ltb up 1))
  unfolding add_at
  add-Leaves =
      rw (cast-one w, bit_and_mask 4 up, overflow_bit (sign_bit w) up x up 1 up_fits (fits w hx))
        (at-Leaves w m up _ _ _ (cast-lt w (x + 1)) (to_u-lt _) (omega arith) (to_u-lt _))

  inc-Leaves :
      (y : ℕ)
      → Leaves w m
          (inc_at w m x64 y)
          up
          (to_u (ltb (up % 16) (y % 16)))
          (clash w up x up 1)
          (bit 0 m.flags)
  unfolding inc_at
  inc-Leaves y =
      rw
        (
          bit_and_mask 4 up,
          bit_and_mask 4 y,
          top_of_and_xor (sign_bit w) up x up 1 up_fits (fits w hx),
        )
        (bump-Leaves w m up _ _ (cast-lt w (x + 1)) (to_u-lt _) (omega arith))

  sub-Leaves :
      Leaves w m
        (sub_at w m x64 1)
        down
        (to_u (ltb (x % 16) (down % 16)))
        (clash w x 1 down x)
        (to_u (ltb x down))
  unfolding sub_at
  sub-Leaves =
      rw
        (
          cast-one w,
          bit_and_mask 4 x,
          bit_and_mask 4 down,
          overflow_bit (sign_bit w) x 1 down x (fits w hx) (fits w (one-lt w)),
        )
        (at-Leaves w m down _ _ _ (cast-lt w (x + size w - 1)) (to_u-lt _) (omega arith)
          (to_u-lt _))

  dec-Leaves :
      (y : ℕ)
      → Leaves w m
          (dec_at w m x64 y)
          down
          (to_u (ltb (x % 16) (down % 16)))
          (clash w down x x 1)
          (bit 0 m.flags)
  unfolding dec_at
  dec-Leaves y =
      rw
        (
          bit_and_mask 4 x,
          bit_and_mask 4 down,
          top_of_and_xor (sign_bit w) down x x 1 down_fits (fits w hx),
        )
        (bump-Leaves w m down _ _ (cast-lt w (x + size w - 1)) (to_u-lt _) (omega arith))

  -- `Inc` is `Add` of 1 but for the carries: CF stays, and AF compares with the second argument.
  pub inc_at-AgreeBut :
      (y : ℕ)
      → AgreeBut (inc_at w m x64 y) (add_at w m x64 1)
        × (bit 0 (inc_at w m x64 y).0.flags ≡ bit 0 m.flags)
        × (bit 4 (inc_at w m x64 y).0.flags ≡ to_u (ltb (up % 16) (y % 16)))
  inc_at-AgreeBut y = (
    AgreeBut-of_Leaves w m _ _ _ _ _ _ _ _ (inc-Leaves y) add-Leaves,
    (inc-Leaves y).status.carry,
    (inc-Leaves y).status.auxiliary,
  )

  dec_as_sub :
      (y : ℕ)
      → Leaves w m
          (dec_at w m x64 y)
          down
          (to_u (ltb (x % 16) (down % 16)))
          (clash w x 1 down x)
          (bit 0 m.flags)
  dec_as_sub y = rw (min_comm _ _) at (dec-Leaves y)

  -- `Dec` is `Sub` of 1 but for CF, which stays.
  pub dec_at-AgreeBut :
      (y : ℕ)
      → AgreeBut (dec_at w m x64 y) (sub_at w m x64 1)
        × (bit 0 (dec_at w m x64 y).0.flags ≡ bit 0 m.flags)
        × (bit 4 (dec_at w m x64 y).0.flags ≡ bit 4 (sub_at w m x64 1).0.flags)
  dec_at-AgreeBut y = (
    AgreeBut-of_Leaves w m _ _ _ _ _ _ _ _ (dec_as_sub y) sub-Leaves,
    (dec-Leaves y).status.carry,
    (dec-Leaves y).status.auxiliary ∙ sym sub-Leaves.status.auxiliary,
  )
