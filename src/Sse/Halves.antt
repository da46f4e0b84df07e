-- ===== src/Sse/Halves.antt =====
-- native/blink/blink/sse.c: the kernels on sixteen bytes that run the kernel on eight bytes twice.
use atua_computer.Base.{ℕ, Bool, if◌then◌else◌, List, ◌++◌, take, drop}
use atua_computer.Sse.Kernels.{
  mmx_pabsd, mmx_pabsw, mmx_pcmpeqd, mmx_pcmpgtd, mmx_pmaxsw, mmx_pminsw, mmx_pmulhrsw, mmx_pmulhuw,
  mmx_psignb, mmx_psignd, mmx_psignw, mmx_pslld, mmx_pslldv, mmx_psllq, mmx_psllqv, mmx_psllw,
  mmx_psllwv, mmx_psrad, mmx_psradv, mmx_psraw, mmx_psrawv, mmx_psrld, mmx_psrldv, mmx_psrlq,
  mmx_psrlqv, mmx_psrlw, mmx_psrlwv, mmx_psubusw,
}
use atua_computer.Sse.Kernels.Moves.{pmaddwd, pmaddubsw}

-- `Kernel(x + 0, y + 0); Kernel(x + 8, y + 8);`
abbrev pub on_halves : (List ℕ → List ℕ → List ℕ) → List ℕ → List ℕ → List ℕ
on_halves kernel x y = kernel (take 8 x) (take 8 y) ++ kernel (drop 8 x) (drop 8 y)

-- `Kernel(x + 0, k); Kernel(x + 8, k);`
abbrev pub on_halves_by : (List ℕ → ℕ → List ℕ) → List ℕ → ℕ → List ℕ
on_halves_by kernel x k = kernel (take 8 x) k ++ kernel (drop 8 x) k

-- `Kernel(x + 0, y); Kernel(x + 8, y);` where both calls read a count from the start of `y`. When
-- the operands name one register (`aliased`), `y` is `x`, and the second call reads what the first
-- one wrote.
abbrev pub on_halves_counted : (List ℕ → List ℕ → List ℕ) → Bool → List ℕ → List ℕ → List ℕ
on_halves_counted kernel aliased x y =
    let low = kernel (take 8 x) (if aliased then x else y) in
    low ++ kernel (drop 8 x) (if aliased then low ++ drop 8 x else y)

unfoldable pub sse_psrlw : List ℕ → ℕ → List ℕ
unfolding mmx_psrlw
sse_psrlw = on_halves_by mmx_psrlw

unfoldable pub sse_psraw : List ℕ → ℕ → List ℕ
unfolding mmx_psraw
sse_psraw = on_halves_by mmx_psraw

unfoldable pub sse_psllw : List ℕ → ℕ → List ℕ
unfolding mmx_psllw
sse_psllw = on_halves_by mmx_psllw

unfoldable pub sse_psrld : List ℕ → ℕ → List ℕ
unfolding mmx_psrld
sse_psrld = on_halves_by mmx_psrld

unfoldable pub sse_psrad : List ℕ → ℕ → List ℕ
unfolding mmx_psrad
sse_psrad = on_halves_by mmx_psrad

unfoldable pub sse_pslld : List ℕ → ℕ → List ℕ
unfolding mmx_pslld
sse_pslld = on_halves_by mmx_pslld

unfoldable pub sse_psrlq : List ℕ → ℕ → List ℕ
unfolding mmx_psrlq
sse_psrlq = on_halves_by mmx_psrlq

unfoldable pub sse_psllq : List ℕ → ℕ → List ℕ
unfolding mmx_psllq
sse_psllq = on_halves_by mmx_psllq

unfoldable pub sse_psubusw : List ℕ → List ℕ → List ℕ
unfolding mmx_psubusw
sse_psubusw = on_halves mmx_psubusw

unfoldable pub sse_pminsw : List ℕ → List ℕ → List ℕ
unfolding mmx_pminsw
sse_pminsw = on_halves mmx_pminsw

unfoldable pub sse_pmaxsw : List ℕ → List ℕ → List ℕ
unfolding mmx_pmaxsw
sse_pmaxsw = on_halves mmx_pmaxsw

unfoldable pub sse_psignb : List ℕ → List ℕ → List ℕ
unfolding mmx_psignb
sse_psignb = on_halves mmx_psignb

unfoldable pub sse_psignw : List ℕ → List ℕ → List ℕ
unfolding mmx_psignw
sse_psignw = on_halves mmx_psignw

unfoldable pub sse_psignd : List ℕ → List ℕ → List ℕ
unfolding mmx_psignd
sse_psignd = on_halves mmx_psignd

unfoldable pub sse_pmulhrsw : List ℕ → List ℕ → List ℕ
unfolding mmx_pmulhrsw
sse_pmulhrsw = on_halves mmx_pmulhrsw

unfoldable pub sse_pabsw : List ℕ → List ℕ → List ℕ
unfolding mmx_pabsw
sse_pabsw = on_halves mmx_pabsw

unfoldable pub sse_pabsd : List ℕ → List ℕ → List ℕ
unfolding mmx_pabsd
sse_pabsd = on_halves mmx_pabsd

unfoldable pub sse_pcmpgtd : List ℕ → List ℕ → List ℕ
unfolding mmx_pcmpgtd
sse_pcmpgtd = on_halves mmx_pcmpgtd

unfoldable pub sse_pcmpeqd : List ℕ → List ℕ → List ℕ
unfolding mmx_pcmpeqd
sse_pcmpeqd = on_halves mmx_pcmpeqd

unfoldable pub sse_psrawv : Bool → List ℕ → List ℕ → List ℕ
unfolding mmx_psrawv
sse_psrawv = on_halves_counted mmx_psrawv

unfoldable pub sse_psradv : Bool → List ℕ → List ℕ → List ℕ
unfolding mmx_psradv
sse_psradv = on_halves_counted mmx_psradv

unfoldable pub sse_psrlwv : Bool → List ℕ → List ℕ → List ℕ
unfolding mmx_psrlwv
sse_psrlwv = on_halves_counted mmx_psrlwv

unfoldable pub sse_psllwv : Bool → List ℕ → List ℕ → List ℕ
unfolding mmx_psllwv
sse_psllwv = on_halves_counted mmx_psllwv

unfoldable pub sse_psrldv : Bool → List ℕ → List ℕ → List ℕ
unfolding mmx_psrldv
sse_psrldv = on_halves_counted mmx_psrldv

unfoldable pub sse_pslldv : Bool → List ℕ → List ℕ → List ℕ
unfolding mmx_pslldv
sse_pslldv = on_halves_counted mmx_pslldv

unfoldable pub sse_psrlqv : Bool → List ℕ → List ℕ → List ℕ
unfolding mmx_psrlqv
sse_psrlqv = on_halves_counted mmx_psrlqv

unfoldable pub sse_psllqv : Bool → List ℕ → List ℕ → List ℕ
unfolding mmx_psllqv
sse_psllqv = on_halves_counted mmx_psllqv

unfoldable pub sse_pmaddwd : List ℕ → List ℕ → List ℕ
unfolding pmaddwd
sse_pmaddwd = on_halves pmaddwd

unfoldable pub sse_pmulhuw : List ℕ → List ℕ → List ℕ
unfolding mmx_pmulhuw
sse_pmulhuw = on_halves mmx_pmulhuw

unfoldable pub sse_pmaddubsw : List ℕ → List ℕ → List ℕ
unfolding pmaddubsw
sse_pmaddubsw = on_halves pmaddubsw
