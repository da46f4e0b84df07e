-- ===== src/Tests.antt =====
-- The theorems at concrete inputs, and runs of the functions on single words.
mod Data
mod Fds
mod Memory
mod Pipe
mod Sse
mod Dubble
mod Alu
mod Bcd
mod Bitscan
mod Divmul
mod Shifts
