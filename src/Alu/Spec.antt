-- ===== src/Alu/Spec.antt =====
-- What the operations promise, without their bit tricks: sums and differences of unsigned and of
-- signed integers, and what the flags say of them.
use atua_computer.Machine.{Outcome, Machine}
use atua_computer.Base.{
  ℕ, ◌+◌, ◌-◌, ◌/◌, ◌%◌, ◌^◌, ◌<◌, ◌≡◌, ◌≢◌, ◌↔◌, Width, size, sign_bit, bit, bits, signed, pos,
  ◌+ℤ◌, ◌-ℤ◌,
}

-- Zero, sign and parity describe the result `z`; every flag that the operation does not own, and
-- the registers, are as before.
pub record Describes (w : Width) (m m' : Machine) (z : ℕ) : Type 0 where
  pub zero_result : (bit 6 m'.flags ≡ 1) ↔ (z ≡ 0)
  pub sign : bit 7 m'.flags ≡ bit (sign_bit w) z
  pub parity : m'.flags / 2 ^ 24 ≡ z % 256
  pub others :
      (k : ℕ) → k < 24 → k ≢ 0 → k ≢ 4 → k ≢ 6 → k ≢ 7 → k ≢ 11 → bit k m'.flags ≡ bit k m.flags
  pub registers : m'.weg ≡ m.weg

-- `z` is `x + y + c` in `w` bits, the carries out of the word and out of the low digit are in CF
-- and AF, and OF is clear exactly when the sum of the signed values is the signed result.
pub record IsSum (w : Width) (m m' : Machine) (x y c z : ℕ) : Type 0 where
  pub value : z ≡ (x + y + c) % size w
  pub carry : bit 0 m'.flags ≡ (x + y + c) / size w
  pub auxiliary : bit 4 m'.flags ≡ (x % 16 + y % 16 + c) / 16
  pub overflow : (bit 11 m'.flags ≡ 0) ↔ (signed w z ≡ signed w x +ℤ signed w y +ℤ pos c)
  pub described : Describes w m m' z

-- The same for `x - y - b`, with borrows.
pub record IsDifference (w : Width) (m m' : Machine) (x y b z : ℕ) : Type 0 where
  pub value : z ≡ (x + size w - (y + b)) % size w
  pub borrow : (bit 0 m'.flags ≡ 1) ↔ (x < y + b)
  pub auxiliary : (bit 4 m'.flags ≡ 1) ↔ (x % 16 < y % 16 + b)
  pub overflow : (bit 11 m'.flags ≡ 0) ↔ (signed w z ≡ signed w x -ℤ signed w y -ℤ pos b)
  pub described : Describes w m m' z

-- A logical operation: digit `k` of the result is `f k`, and CF, AF and OF are clear.
pub record IsLogical (w : Width) (m m' : Machine) (f : ℕ → ℕ) (z : ℕ) : Type 0 where
  pub below : z < size w
  pub digits : (k : ℕ) → k < bits w → bit k z ≡ f k
  pub carry : bit 0 m'.flags ≡ 0
  pub auxiliary : bit 4 m'.flags ≡ 0
  pub overflow : bit 11 m'.flags ≡ 0
  pub described : Describes w m m' z

-- Two outcomes have the same result and the same flags, but perhaps for CF and AF.
pub record AgreeBut (o o' : Outcome) : Type 0 where
  pub result : o.1 ≡ o'.1
  pub flags : (k : ℕ) → k < 24 → k ≢ 0 → k ≢ 4 → bit k o.0.flags ≡ bit k o'.0.flags
  pub parity : o.0.flags / 2 ^ 24 ≡ o'.0.flags / 2 ^ 24
  pub registers : o.0.weg ≡ o'.0.weg

-- A shift: CF and OF are given, AF is clear, and the rest describes the result.
pub record IsShifted (w : Width) (m : Machine) (o : Outcome) (cf of : ℕ) : Type 0 where
  pub carry : bit 0 o.0.flags ≡ cf
  pub auxiliary : bit 4 o.0.flags ≡ 0
  pub overflow : bit 11 o.0.flags ≡ of
  pub described : Describes w m o.0 o.1
