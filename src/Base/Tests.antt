-- ===== src/Base/Tests.antt =====
-- The comparisons of C on unsigned words as Boolean tests, the conditional, and evaluation of a
-- test over a range.
use mathlib.Core.Logic.{◌≢◌, ◌↔◌, ◌⊎◌, inl, inr}
use native.Mathlib.Decide.{ℕ_discrete}
use Prim.Native.Nat.{ℕ, zero, suc, ◌<◌, compare, Ordering}
use mathlib.Core.Path.{◌≡◌, refl}
use mathlib.Core.Bool.{false≢true, Bool, true, false, ◌&&◌}
use native.Mathlib.Omega.{arith}

abbrev pub ltb : ℕ → ℕ → Bool
ltb a b = elim (compare a b) [ Ordering.lt ↦ true | _ ↦ false ]

abbrev pub leb : ℕ → ℕ → Bool
leb a b = elim (compare a b) [ Ordering.gt ↦ false | _ ↦ true ]

infix 50 ◌==◌
abbrev pub ◌==◌ : ℕ → ℕ → Bool
a == b = elim (compare a b) [ Ordering.eq ↦ true | _ ↦ false ]

infix 1 if◌then◌else◌
abbrev pub if◌then◌else◌ {ℓ} : {A : Type ℓ} → Bool → A → A → A
if true then x else y = x
if false then x else y = y

pub ==_iff : (a b : ℕ) → ((a == b) ≡ true) ↔ (a ≡ b)
==_iff a b = ground arith

pub Bool-cases : (b : Bool) → (b ≡ true) ⊎ (b ≡ false)
Bool-cases true = inl refl
Bool-cases false = inr refl

pub both : (a b : Bool) → (a && b) ≡ true → (a ≡ true) × (b ≡ true)
both true true e = (refl, refl)
both true false e = absurd (false≢true e)
both false b e = absurd (false≢true e)

-- A property that is decided at every number below a bound.
unfoldable pub holds_below : (ℕ → Bool) → ℕ → Bool
holds_below test zero = true
holds_below test (suc bound) = holds_below test bound && test bound

pub holds_below_lem :
    (test : ℕ → Bool) (bound : ℕ)
    → holds_below test bound ≡ true
    → (i : ℕ) → i < bound
    → test i ≡ true
unfolding holds_below
holds_below_lem test zero e i lt = absurd (omega arith)
holds_below_lem test (suc bound) e i lt = elim (ℕ_discrete i bound) [
  | yes same ↦ ground (arith, same)
  | no other ↦ holds_below_lem test bound (ground arith) i (omega arith)
]

module _ {ℓ} {A : Type ℓ} (a b : ℕ) (x y : A) where
  pub if_equal : a ≡ b → (if a == b then x else y) ≡ x
  if_equal e = rw ((==_iff a b).1 e) refl

  pub if_unequal : a ≢ b → (if a == b then x else y) ≡ y
  if_unequal ne = elim (Bool-cases (a == b)) [
    | inl e ↦ absurd (ne ((==_iff a b).0 e))
    | inr e ↦ rw e refl
  ]

module _ {ℓ} {A : Type ℓ} (b : Bool) (x y : A) where
  pub if_true : b ≡ true → (if b then x else y) ≡ x
  if_true e = rw e refl

  pub if_false : b ≡ false → (if b then x else y) ≡ y
  if_false e = rw e refl
