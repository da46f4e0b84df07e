-- ===== src/Sse/Wide.antt =====
-- native/blink/blink/sse.c: the kernels on sixteen bytes that are loops of their own, without the
-- assembler of X86_INTRINSICS. They copy both operands or read a lane before they write it, so
-- operands in one register do no harm.
use atua_computer.Base.{ℕ, ◌+◌, ◌-◌, ◌*◌, ◌%◌, min, List, w8, w32, w64, size, signed, ◌+ℤ◌, ◌-ℤ◌}
use atua_computer.Sse.Lanes.{each, to_word, clamp}

unfoldable pub sse_psubd : List ℕ → List ℕ → List ℕ
sse_psubd = each w32 (λ a b. a + size w32 - b)

unfoldable pub sse_paddd : List ℕ → List ℕ → List ℕ
sse_paddd = each w32 (λ a b. a + b)

unfoldable pub sse_paddq : List ℕ → List ℕ → List ℕ
sse_paddq = each w64 (λ a b. a + b)

unfoldable pub sse_psubq : List ℕ → List ℕ → List ℕ
sse_psubq = each w64 (λ a b. a + size w64 - b)

unfoldable pub sse_pmuludq : List ℕ → List ℕ → List ℕ
sse_pmuludq = each w64 (λ a b. a % size w32 * (b % size w32))

unfoldable pub sse_psubsb : List ℕ → List ℕ → List ℕ
unfolding signed ◌-ℤ◌
sse_psubsb = each w8 (λ a b. to_word w8 (clamp w8 (signed w8 a -ℤ signed w8 b)))

unfoldable pub sse_paddsb : List ℕ → List ℕ → List ℕ
unfolding signed ◌+ℤ◌
sse_paddsb = each w8 (λ a b. to_word w8 (clamp w8 (signed w8 a +ℤ signed w8 b)))

unfoldable pub sse_paddusb : List ℕ → List ℕ → List ℕ
sse_paddusb = each w8 (λ a b. min 255 (a + b))

unfoldable pub sse_psubusb : List ℕ → List ℕ → List ℕ
sse_psubusb = each w8 (λ a b. min 255 (a - b))

unfoldable pub sse_pmulld : List ℕ → List ℕ → List ℕ
sse_pmulld = each w32 (λ a b. a * b)
