-- ===== src/Base/Iff.antt =====
-- How equivalences combine.
use mathlib.Core.Logic.{◌↔◌, ◌⊎◌, inl, inr}

module _ {ℓ κ ι} {A : Type ℓ} {B : Type κ} {C : Type ι} where
  pub iff_trans : A ↔ B → B ↔ C → A ↔ C
  iff_trans h k = (λ a. k.0 (h.0 a), λ c. h.1 (k.1 c))

module _ {ℓ κ} {A : Type ℓ} {B : Type κ} where
  pub iff_symm : A ↔ B → B ↔ A
  iff_symm h = (h.1, h.0)

  pub not_congr : A ↔ B → (¬ A) ↔ (¬ B)
  not_congr h = (λ na b. na (h.1 b), λ nb a. nb (h.0 a))

module _ {ℓ κ ι μ} {A : Type ℓ} {B : Type κ} {C : Type ι} {D : Type μ} where
  pub or_congr : A ↔ C → B ↔ D → (A ⊎ B) ↔ (C ⊎ D)
  or_congr h k = (
    elim [ inl a ↦ inl (h.0 a) | inr b ↦ inr (k.0 b) ],
    elim [ inl c ↦ inl (h.1 c) | inr d ↦ inr (k.1 d) ],
  )

  pub and_congr : A ↔ C → B ↔ D → (A × B) ↔ (C × D)
  and_congr h k = (λ p. (h.0 p.0, k.0 p.1), λ p. (h.1 p.0, k.1 p.1))
