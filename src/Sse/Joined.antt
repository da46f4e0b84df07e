-- ===== src/Sse/Joined.antt =====
-- The two forms of the kernels on sixteen bytes of native/blink/blink/sse.c, and operands that
-- share a register.
use atua_computer.Base.{
  ℕ, ◌+◌, ◌-◌, ◌*◌, ◌/◌, ◌%◌, ◌^◌, ◌≡◌, refl, sym, ap, ap₂, ◌∙◌, min, List, [], ◌∷◌, ◌++◌, length,
  arith, Width, w8, w16, w32, w64, size, cast, signed, ◌+ℤ◌, ◌-ℤ◌,
}
use atua_computer.Sse.Lanes.{store, map, each, zip_with, split, to_word, clamp}
use atua_computer.Sse.Laws.{AllBelow, load-store}
use atua_computer.Sse.Kernels.{
  mmx_psubd, mmx_paddd, mmx_paddq, mmx_psubq, mmx_pmuludq, mmx_psubsb, mmx_paddsb, mmx_paddusb,
  mmx_psubusb, mmx_pmulld,
}
use atua_computer.Sse.Wide.{
  sse_psubd, sse_paddd, sse_paddq, sse_psubq, sse_pmuludq, sse_psubsb, sse_paddsb, sse_paddusb,
  sse_psubusb, sse_pmulld,
}

-- The kernels whose form on sixteen bytes is a loop of its own.
pub data WideLoop : Type 0 where
  psubd paddd paddq psubq pmuludq psubsb paddsb paddusb psubusb pmulld : WideLoop

abbrev pub lane : WideLoop → Width
lane psubd = w32
lane paddd = w32
lane paddq = w64
lane psubq = w64
lane pmuludq = w64
lane psubsb = w8
lane paddsb = w8
lane paddusb = w8
lane psubusb = w8
lane pmulld = w32

abbrev pub on_sixteen : WideLoop → List ℕ → List ℕ → List ℕ
on_sixteen psubd = sse_psubd
on_sixteen paddd = sse_paddd
on_sixteen paddq = sse_paddq
on_sixteen psubq = sse_psubq
on_sixteen pmuludq = sse_pmuludq
on_sixteen psubsb = sse_psubsb
on_sixteen paddsb = sse_paddsb
on_sixteen paddusb = sse_paddusb
on_sixteen psubusb = sse_psubusb
on_sixteen pmulld = sse_pmulld

abbrev pub on_eight : WideLoop → List ℕ → List ℕ → List ℕ
on_eight psubd = mmx_psubd
on_eight paddd = mmx_paddd
on_eight paddq = mmx_paddq
on_eight psubq = mmx_psubq
on_eight pmuludq = mmx_pmuludq
on_eight psubsb = mmx_psubsb
on_eight paddsb = mmx_paddsb
on_eight paddusb = mmx_paddusb
on_eight psubusb = mmx_psubusb
on_eight pmulld = mmx_pmulld

lane_function : WideLoop → ℕ → ℕ → ℕ
unfolding signed ◌+ℤ◌ ◌-ℤ◌
lane_function psubd a b = a + size w32 - b
lane_function paddd a b = a + b
lane_function paddq a b = a + b
lane_function psubq a b = a + size w64 - b
lane_function pmuludq a b = a % size w32 * (b % size w32)
lane_function psubsb a b = to_word w8 (clamp w8 (signed w8 a -ℤ signed w8 b))
lane_function paddsb a b = to_word w8 (clamp w8 (signed w8 a +ℤ signed w8 b))
lane_function paddusb a b = min 255 (a + b)
lane_function psubusb a b = min 255 (a - b)
lane_function pmulld a b = a * b

on_eight-each : (t : WideLoop) → on_eight t ≡ each (lane t) (lane_function t)
unfolding lane_function mmx_psubd mmx_paddd mmx_paddq mmx_psubq mmx_pmuludq mmx_psubsb mmx_paddsb
    mmx_paddusb mmx_psubusb mmx_pmulld
on_eight-each psubd = refl
on_eight-each paddd = refl
on_eight-each paddq = refl
on_eight-each psubq = refl
on_eight-each pmuludq = refl
on_eight-each psubsb = refl
on_eight-each paddsb = refl
on_eight-each paddusb = refl
on_eight-each psubusb = refl
on_eight-each pmulld = refl

on_sixteen-each : (t : WideLoop) → on_sixteen t ≡ each (lane t) (lane_function t)
unfolding lane_function sse_psubd sse_paddd sse_paddq sse_psubq sse_pmuludq sse_psubsb sse_paddsb
    sse_paddusb sse_psubusb sse_pmulld
on_sixteen-each psubd = refl
on_sixteen-each paddd = refl
on_sixteen-each paddq = refl
on_sixteen-each psubq = refl
on_sixteen-each pmuludq = refl
on_sixteen-each psubsb = refl
on_sixteen-each paddsb = refl
on_sixteen-each paddusb = refl
on_sixteen-each psubusb = refl
on_sixteen-each pmulld = refl

split-append : (base : ℕ) (vs ws : List ℕ) → split base (vs ++ ws) ≡ split base vs ++ split base ws
split-append base [] ws = refl
split-append base (v ∷ vs) ws = ap (λ t. v % base ∷ v / base % base ∷ t) (split-append base vs ws)

map-append : (f : ℕ → ℕ) (vs ws : List ℕ) → map f (vs ++ ws) ≡ map f vs ++ map f ws
map-append f [] ws = refl
map-append f (v ∷ vs) ws = ap (λ t. f v ∷ t) (map-append f vs ws)

store-append : (w : Width) (vs ws : List ℕ) → store w (vs ++ ws) ≡ store w vs ++ store w ws
store-append w8 vs ws = map-append (cast w8) vs ws
store-append w16 vs ws = split-append (2 ^ 8) vs ws
store-append w32 vs ws =
    ap (split (2 ^ 8)) (split-append (2 ^ 16) vs ws)
    ∙ split-append (2 ^ 8) (split (2 ^ 16) vs) (split (2 ^ 16) ws)
store-append w64 vs ws =
    ap (λ t. split (2 ^ 8) (split (2 ^ 16) t)) (split-append (2 ^ 32) vs ws)
    ∙ ap (split (2 ^ 8)) (split-append (2 ^ 16) (split (2 ^ 32) vs) (split (2 ^ 32) ws))
    ∙ split-append (2 ^ 8) (split (2 ^ 16) (split (2 ^ 32) vs)) (split (2 ^ 16) (split (2 ^ 32) ws))

zip_with-append :
    (f : ℕ → ℕ → ℕ) (vs vs' ws ws' : List ℕ)
    → length vs ≡ length ws
    → zip_with f (vs ++ vs') (ws ++ ws') ≡ zip_with f vs ws ++ zip_with f vs' ws'
zip_with-append f [] vs' [] ws' e = refl
zip_with-append f [] vs' (u ∷ ws) ws' e = absurd (omega arith)
zip_with-append f (v ∷ vs) vs' [] ws' e = absurd (omega arith)
zip_with-append f (v ∷ vs) vs' (u ∷ ws) ws' e =
    ap (λ t. f v u ∷ t) (zip_with-append f vs vs' ws ws' (omega arith))

below-append : (n : ℕ) (vs ws : List ℕ) → AllBelow n vs → AllBelow n ws → AllBelow n (vs ++ ws)
below-append n [] ws p q = q
below-append n (v ∷ vs) ws p q = (p.0, below-append n vs ws p.1 q)

stored :
    (w : Width) (f : ℕ → ℕ → ℕ) (vs ws : List ℕ)
    → AllBelow (size w) vs
    → AllBelow (size w) ws
    → each w f (store w vs) (store w ws) ≡ store w (zip_with f vs ws)
stored w f vs ws p q = ap (store w) (ap₂ (zip_with f) (load-store w vs p) (load-store w ws q))

each-append :
    (w : Width) (f : ℕ → ℕ → ℕ) (vs vs' ws ws' : List ℕ)
    → length vs ≡ length ws
    → AllBelow (size w) vs
    → AllBelow (size w) vs'
    → AllBelow (size w) ws
    → AllBelow (size w) ws'
    → each w f (store w (vs ++ vs')) (store w (ws ++ ws'))
      ≡ each w f (store w vs) (store w ws) ++ each w f (store w vs') (store w ws')
each-append w f vs vs' ws ws' e p p' q q' =
    stored w f (vs ++ vs') (ws ++ ws') (below-append (size w) vs vs' p p')
      (below-append (size w) ws ws' q q')
    ∙ ap (store w) (zip_with-append f vs vs' ws ws' e)
    ∙ store-append w (zip_with f vs ws) (zip_with f vs' ws')
    ∙ ap₂ (λ s t. s ++ t) (sym (stored w f vs ws p q)) (sym (stored w f vs' ws' p' q'))

-- The ten kernels that have a loop of their own for sixteen bytes do there what the kernel for eight
-- bytes does on each half, given as lanes.
pub on_sixteen-on_eight :
    (t : WideLoop) (vs vs' ws ws' : List ℕ)
    → length vs ≡ length ws
    → AllBelow (size (lane t)) vs
    → AllBelow (size (lane t)) vs'
    → AllBelow (size (lane t)) ws
    → AllBelow (size (lane t)) ws'
    → on_sixteen t (store (lane t) (vs ++ vs')) (store (lane t) (ws ++ ws'))
      ≡ on_eight t (store (lane t) vs) (store (lane t) ws)
        ++ on_eight t (store (lane t) vs') (store (lane t) ws')
on_sixteen-on_eight t vs vs' ws ws' e p p' q q' =
    rw (on_sixteen-each t, on_eight-each t)
      (each-append (lane t) (lane_function t) vs vs' ws ws' e p p' q q')
