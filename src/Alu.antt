-- ===== src/Alu.antt =====
-- native/blink/blink/alu.c: the integer arithmetic of the emulated processor.
pub mod Status
pub mod Arith
pub mod Shift
pub mod Rotate
pub mod Table
pub mod Shifts
pub mod Spec
pub mod Compare
