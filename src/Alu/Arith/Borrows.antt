-- ===== src/Alu/Arith/Borrows.antt =====
-- When a subtraction borrows.
use atua_computer.Base.{ℕ, ◌+◌, ◌-◌, ◌%◌, ◌<◌, ◌≡◌, ◌↔◌, ◌||◌, arith, Width, w8, w16, w32, w64}
use atua_computer.Base.{size, cast, to_u, ltb}

-- A difference wraps exactly when it comes out above its first term.
pub wrap_borrow :
    (w : Width) (x y : ℕ)
    → x < size w
    → y < size w
    → (to_u (ltb x (cast w (x + size w - y))) ≡ 1) ↔ (x < y + 0)
wrap_borrow w8 x y hx hy = ground arith
wrap_borrow w16 x y hx hy = ground arith
wrap_borrow w32 x y hx hy = ground arith
wrap_borrow w64 x y hx hy = ground arith

pub cast_low_sub :
    (w : Width) (x y : ℕ) → y < size w → cast w (x + size w - y) % 16 ≡ (x % 16 + 16 - y % 16) % 16
cast_low_sub w8 x y hy = omega arith
cast_low_sub w16 x y hy = omega arith
cast_low_sub w32 x y hy = omega arith
cast_low_sub w64 x y hy = omega arith

pub low_borrow :
    (x y z : ℕ)
    → z % 16 ≡ (x % 16 + 16 - y % 16) % 16
    → (to_u (ltb (x % 16) (z % 16)) ≡ 1) ↔ (x % 16 < y % 16 + 0)
low_borrow x y z e = ground arith

pub wrap_borrow_in :
    (w : Width) (x y b : ℕ)
    → x < size w
    → y < size w
    → b < 2
    → let t = cast w (x + size w - b) in
      (to_u (ltb x t || ltb t (cast w (t + size w - y))) ≡ 1) ↔ (x < y + b)
wrap_borrow_in w8 x y b hx hy hb = ground arith
wrap_borrow_in w16 x y b hx hy hb = ground arith
wrap_borrow_in w32 x y b hx hy hb = ground arith
wrap_borrow_in w64 x y b hx hy hb = ground arith

pub low_borrow_in :
    (x y b t z : ℕ)
    → b < 2
    → t % 16 ≡ (x % 16 + 16 - b % 16) % 16
    → z % 16 ≡ (t % 16 + 16 - y % 16) % 16
    → (to_u (ltb (x % 16) (t % 16) || ltb (t % 16) (z % 16)) ≡ 1) ↔ (x % 16 < y % 16 + b)
low_borrow_in x y b t z hb e f = ground arith

pub cast_difference :
    (w : Width) (x y b : ℕ)
    → x < size w
    → y < size w
    → b < 2
    → cast w (cast w (x + size w - b) + size w - y) ≡ (x + size w - (y + b)) % size w
cast_difference w8 x y b hx hy hb = omega arith
cast_difference w16 x y b hx hy hb = omega arith
cast_difference w32 x y b hx hy hb = omega arith
cast_difference w64 x y b hx hy hb = omega arith
