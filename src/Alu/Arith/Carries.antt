-- ===== src/Alu/Arith/Carries.antt =====
-- When an addition wraps, and the facts on casts that hold at each operand size.
use atua_computer.Base.{ℕ, suc, ◌+◌, ◌/◌, ◌%◌, ◌^◌, ◌<◌, ◌≡◌, ◌||◌, arith, Width, w8, w16, w32, w64}
use atua_computer.Base.{size, sign_bit, cast, to_u, ltb, Bool}

pub to_u-lt : (b : Bool) → to_u b < 2
to_u-lt b = ground arith

pub cast-lt : (w : Width) (z : ℕ) → cast w z < size w
cast-lt w8 z = omega arith
cast-lt w16 z = omega arith
cast-lt w32 z = omega arith
cast-lt w64 z = omega arith

pub cast_id : (w : Width) (z : ℕ) → z < size w → cast w z ≡ z
cast_id w8 z h = omega arith
cast_id w16 z h = omega arith
cast_id w32 z h = omega arith
cast_id w64 z h = omega arith

pub cast_low : (w : Width) (v : ℕ) → cast w v % 16 ≡ v % 16
cast_low w8 v = omega arith
cast_low w16 v = omega arith
cast_low w32 v = omega arith
cast_low w64 v = omega arith

pub sign-lt : (w : Width) (z : ℕ) → z < size w → z / 2 ^ sign_bit w < 2
sign-lt w8 z h = omega arith
sign-lt w16 z h = omega arith
sign-lt w32 z h = omega arith
sign-lt w64 z h = omega arith

pub fits : (w : Width) {v : ℕ} → v < size w → v < 2 ^ suc (sign_bit w)
fits w8 h = h
fits w16 h = h
fits w32 h = h
fits w64 h = h

pub carry-lt : (w : Width) (x y c : ℕ) → x < size w → y < size w → c < 2 → (x + y + c) / size w < 2
carry-lt w8 x y c hx hy hc = omega arith
carry-lt w16 x y c hx hy hc = omega arith
carry-lt w32 x y c hx hy hc = omega arith
carry-lt w64 x y c hx hy hc = omega arith

-- A sum wraps exactly when it comes out below its second term.
pub wrap_carry :
    (w : Width) (x y : ℕ)
    → x < size w
    → y < size w
    → to_u (ltb (cast w (x + y)) y) ≡ (x + y + 0) / size w
wrap_carry w8 x y hx hy = ground arith
wrap_carry w16 x y hx hy = ground arith
wrap_carry w32 x y hx hy = ground arith
wrap_carry w64 x y hx hy = ground arith

pub low_carry :
    (x y z : ℕ) → z % 16 ≡ (x + y) % 16 → to_u (ltb (z % 16) (y % 16)) ≡ (x % 16 + y % 16 + 0) / 16
low_carry x y z e = ground arith

-- With a carry in, one of the two additions wraps.
pub wrap_carry_in :
    (w : Width) (x y c : ℕ)
    → x < size w
    → y < size w
    → c < 2
    → to_u (ltb (cast w (x + c)) x || ltb (cast w (cast w (x + c) + y)) y) ≡ (x + y + c) / size w
wrap_carry_in w8 x y c hx hy hc = ground arith
wrap_carry_in w16 x y c hx hy hc = ground arith
wrap_carry_in w32 x y c hx hy hc = ground arith
wrap_carry_in w64 x y c hx hy hc = ground arith

pub low_carry_in :
    (x y c t z : ℕ)
    → c < 2
    → t % 16 ≡ (x + c) % 16
    → z % 16 ≡ (t + y) % 16
    → to_u (ltb (t % 16) (x % 16) || ltb (z % 16) (y % 16)) ≡ (x % 16 + y % 16 + c) / 16
low_carry_in x y c t z hc e f = ground arith

pub cast_sum : (w : Width) (x y c : ℕ) → cast w (cast w (x + c) + y) ≡ (x + y + c) % size w
cast_sum w8 x y c = omega arith
cast_sum w16 x y c = omega arith
cast_sum w32 x y c = omega arith
cast_sum w64 x y c = omega arith

pub bit_in_word : (w : Width) {b : ℕ} → b < 2 → b < size w
bit_in_word w8 h = omega arith
bit_in_word w16 h = omega arith
bit_in_word w32 h = omega arith
bit_in_word w64 h = omega arith
