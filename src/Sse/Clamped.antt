-- ===== src/Sse/Clamped.antt =====
-- Saturating bytes of native/blink/blink/sse.c against the minima and maxima of mmx.c.
use atua_computer.Base.{ℕ, ◌≡◌, refl, ap₂, List, [], ◌∷◌, length, arith}
use atua_computer.Sse.Laws.{AllBelow}
use atua_computer.Sse.Mmx.{mmx_pminub, mmx_pmaxub}
use atua_computer.Sse.Kernels.{mmx_paddusb, mmx_psubusb}

-- On vectors of as many bytes, taking off the saturated difference leaves the smaller byte of each
-- pair.
pub mmx_psubusb-psubusb :
    (x y : List ℕ)
    → length x ≡ length y
    → AllBelow 256 x
    → AllBelow 256 y
    → mmx_psubusb x (mmx_psubusb x y) ≡ mmx_pminub x y
unfolding mmx_psubusb mmx_pminub
mmx_psubusb-psubusb [] y e hx hy = refl
mmx_psubusb-psubusb (a ∷ x) [] e hx hy = absurd (omega arith)
mmx_psubusb-psubusb (a ∷ x) (b ∷ y) e hx hy =
    let p = hx.0 in
    let q = hy.0 in
    ap₂ (λ s t. s ∷ t) (omega arith) (mmx_psubusb-psubusb x y (omega arith) hx.1 hy.1)

-- On vectors of as many bytes, adding `y` to the saturated difference leaves the larger byte of
-- each pair, and the sum itself never saturates.
pub mmx_paddusb-psubusb :
    (x y : List ℕ)
    → length x ≡ length y
    → AllBelow 256 x
    → AllBelow 256 y
    → mmx_paddusb (mmx_psubusb x y) y ≡ mmx_pmaxub x y
unfolding mmx_psubusb mmx_paddusb mmx_pmaxub
mmx_paddusb-psubusb [] y e hx hy = refl
mmx_paddusb-psubusb (a ∷ x) [] e hx hy = absurd (omega arith)
mmx_paddusb-psubusb (a ∷ x) (b ∷ y) e hx hy =
    let p = hx.0 in
    let q = hy.0 in
    ap₂ (λ s t. s ∷ t) (omega arith) (mmx_paddusb-psubusb x y (omega arith) hx.1 hy.1)
