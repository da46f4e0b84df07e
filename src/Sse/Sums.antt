-- ===== src/Sse/Sums.antt =====
-- Sums and differences of lanes in native/blink/blink/mmx.c and sse.c.
use atua_computer.Base.{
  ℕ, ◌+◌, ◌-◌, ◌%◌, ◌<◌, ◌≡◌, refl, sym, ap, ap₂, ◌∙◌, List, [], ◌∷◌, length, arith, Width, w8, w16,
  w32, w64, size, cast,
}
use atua_computer.Sse.Lanes.{store, map, zip_with, each}
use atua_computer.Sse.Laws.{AllBelow, store_cut, load-each, load-store}
use atua_computer.Sse.Mmx.{mmx_paddb, mmx_psubb, mmx_paddw, mmx_psubw}
use atua_computer.Sse.Kernels.{mmx_paddd, mmx_psubd, mmx_paddq, mmx_psubq}

-- `padd` and `psub` with their suffix for the lane.
abbrev pub padd : Width → List ℕ → List ℕ → List ℕ
padd w8 = mmx_paddb
padd w16 = mmx_paddw
padd w32 = mmx_paddd
padd w64 = mmx_paddq

abbrev pub psub : Width → List ℕ → List ℕ → List ℕ
psub w8 = mmx_psubb
psub w16 = mmx_psubw
psub w32 = mmx_psubd
psub w64 = mmx_psubq

padd-each : (w : Width) → padd w ≡ each w (λ a b. a + b)
unfolding mmx_paddb mmx_paddw mmx_paddd mmx_paddq
padd-each w8 = refl
padd-each w16 = refl
padd-each w32 = refl
padd-each w64 = refl

psub-each : (w : Width) → psub w ≡ each w (λ a b. a + size w - b)
unfolding mmx_psubb mmx_psubw mmx_psubd mmx_psubq
psub-each w8 = refl
psub-each w16 = refl
psub-each w32 = refl
psub-each w64 = refl

restored :
    (w : Width) (v u : ℕ) → v < size w → u < size w → cast w ((v + size w - u) % size w + u) ≡ v
restored w8 v u p q = omega arith
restored w16 v u p q = omega arith
restored w32 v u p q = omega arith
restored w64 v u p q = omega arith

restored_all :
    (w : Width) (vs ws : List ℕ)
    → length vs ≡ length ws
    → AllBelow (size w) vs
    → AllBelow (size w) ws
    → map
        (cast w)
        (zip_with (λ a b. a + b) (map (cast w) (zip_with (λ a b. a + size w - b) vs ws)) ws)
      ≡ vs
restored_all w [] ws e hv hw = refl
restored_all w (v ∷ vs) [] e hv hw = absurd (omega arith)
restored_all w (v ∷ vs) (u ∷ ws) e hv hw =
    ap₂ (λ a b. a ∷ b) (restored w v u hv.0 hw.0) (restored_all w vs ws (omega arith) hv.1 hw.1)

-- At every lane size, adding back what was subtracted restores the vector, wrap-around included.
pub padd-psub :
    (w : Width) (vs ws : List ℕ)
    → length vs ≡ length ws
    → AllBelow (size w) vs
    → AllBelow (size w) ws
    → padd w (psub w (store w vs) (store w ws)) (store w ws) ≡ store w vs
padd-psub w vs ws e hv hw =
    rw (padd-each w, psub-each w)
      (sym (store_cut w _)
        ∙ ap (λ t. store w (map (cast w) t))
            (ap₂ (zip_with (λ a b. a + b)) (load-each w (λ a b. a + size w - b) vs ws hv hw)
              (load-store w ws hw))
        ∙ ap (store w) (restored_all w vs ws e hv hw))
