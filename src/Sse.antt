-- ===== src/Sse.antt =====
-- native/blink/blink/mmx.c and sse.c: operations on vectors of eight or sixteen bytes that treat
-- them as lanes of 8, 16, 32 or 64 bits.
pub mod Lanes
pub mod Mmx
pub mod Kernels
pub mod Halves
pub mod Wide
pub mod Laws
pub mod Joined
pub mod Aliased
pub mod Sums
pub mod Clamped
pub mod Value
pub mod Bytes
pub mod Narrow
pub mod Shifts
