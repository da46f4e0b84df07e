-- ===== src/Lib.antt =====
-- The integer core of Blink, the x86-64 emulator in native/blink/blink, as definitions that compute,
-- and what the parts promise to each other. Blink decodes an instruction, picks the function of its
-- operation (for arithmetic, a row of a table by operand size), and lets that function change
-- `struct Machine`. Modelled here are those functions, the flag word they share, the
-- integer vector kernels, products and quotients, decimal arithmetic, guest memory, the lists of
-- descriptors, and a pipe.
--
-- Base, Base/*: words of C as native numbers, with the wrap-around written out (`% 2 ^ w`), Boolean
-- tests, arrays as lists, signed integers. `Width` names the four operand sizes. Bits, Bits/*: laws
-- of `&`, `|`, `^` and of rotations, digit by digit.
-- Machine: `struct Machine` of machine.h, cut to `flags` and the sixteen registers `weg`. A function
-- of type `aluop_f` takes the machine and two 64-bit patterns and gives an `Outcome`, the machine
-- after it and the result as a 64-bit pattern; the source's `i64` result is the same pattern.
-- Flags: flags.h and flags.c. `get_flag` is `GetFlag`, `set_flag` is `SetFlag`, `import_flags` and
-- `export_flags` are `ImportFlags` and `ExportFlags`, `is_less` and its kin the conditions of the
-- jumps. Parity is lazy: bits 24 to 31 keep a result byte, and parity is computed on reading.
-- Alu: alu.c and alu.h. Status has `AluFlags`, `BumpFlags` and `RotateFlags`; Arith the sums,
-- differences, logic, negation and steps by one; Shift and Rotate the rest. The source repeats each
-- function for 8, 16, 32 and 64 bits with the same text; `add_at w` is that text, and `add8` to
-- `add64` are its instances. Table is `kAlu` and Shifts is `kBsu`. Spec says what flags describe.
-- Shifts are computed in `u32`, for the widest operands in `u64`, as in the source. `>>` on a signed
-- integer rounds down, as every compiler the project builds with has it.
-- Pipe: pipe_internal.c. Ring is the arithmetic of positions, Fifo the queue that a pipe stands
-- for, Reading and Writing the two loops, Trace any run of calls. The loops recurse on what is left
-- of the caller's buffer, so they need no fuel. What `calloc` and `malloc` give is an argument.
-- Dubble, Dubble/*: the 128-bit helpers of divmul.c, for hosts without `__int128`. `DubbleDiv` shifts
-- the divisor up and subtracts it on the way down; `raise` is its first loop, with fuel 128 as in the
-- source, of which it uses at most 64 when the quotient fits a word, and `reduce` the second, which
-- recurses on the number of shifts.
-- Sse, Sse/*: the integer kernels of mmx.c and sse.c. A vector is the list of its bytes. Lanes has
-- `load` and `store` for `Get16` to `Put64`, and `each` for the loops over lanes; Mmx has mmx.c;
-- Kernels and Kernels/Moves the kernels of sse.c on eight bytes; Halves and Wide those on sixteen
-- bytes, as built without X86_INTRINSICS. `shift_right w` and its kin are the common text of the
-- kernels that differ in the lane alone; `pslldq n` and its kin serve eight bytes and sixteen.
-- Memory, Memory/*: memory.c with the parts of machine.h, pte32.c, reset.c and memorymalloc.c that it
-- calls. `Mmu` holds the fields of `struct Machine` and `struct System` that these functions use, with
-- the bytes of the host by address. Pages has `GetPageAddress` and the allocation of a page, Fault
-- `HandlePageFault`, Find `FindPageTableEntry`, Locks `CollectPageLocks`, Lookup `LookupAddress` and
-- `CopyFromUser`. `Result` says how a call ends: with a value, by an `unassert`, or for lack of fuel in
-- the loops `do ... while (entry & PAGE_RSRV)` and `TryAgain`. The functions that the host offers
-- (`realloc`, `AllocateBig`) are the record `Host`. `CopyFromUser` gives the bytes that it wrote, also
-- when it fails. Bytes and Entry are lemmas on bytes and bits.
-- Dll, Dll/*: dll.c and dll.h. `Links` are the links of all nodes by address; Path and Ring say which
-- list a pointer stands for, Remove takes a node out, Walk goes through a list.
-- Fds, Fds/*: fds.c and the part of close.c on single descriptors. A node stands for the descriptor
-- that holds it. Table finds and counts, Adding adds, Closing frees. A loop over a list has fuel, and a
-- round for each node and one more is enough. What `calloc` gives is an argument; what closing a
-- descriptor returns, and whether a signal interrupts it, is the record `CloseHost`.
-- Bcd, Bcd/*: bcd.c. Decimal has the adjustment after a sum, Difference and Subtracting that after a
-- difference, Digits the two instructions on one digit per byte.
-- Divmul, Divmul/*: the handlers of divmul.c that need Dubble and their narrower kin, as built without
-- `__int128` and without the just-in-time compiler. The operand is an argument, and `none` is the
-- divide error. Division has the quotients, Product the products and their flags.
-- Bitscan, Bitscan/*: `bsr` and `bsf` of bitscan.c as built without the compiler's own, and two uses:
-- `RoundupTwoPow` of jit.c and `IsOpcodeEqual` of instruction.c, the latter for at most seven bytes,
-- where it compares words. Reverse, Forward, Uses and Prefix have the proofs.
-- Tests: the theorems at concrete inputs, and runs of the functions on single words.
--
-- Not modelled: the decoder and the addressing of operands (x86.c, modrm.c, address.c), the
-- mapping of guest memory (the rest of memorymalloc.c, map.c), the just-in-time compiler and its micro-operations
-- (jit.c but for `RoundupTwoPow`, uop.c but for the four forms of `Not`), floating point, system calls and file systems, the
-- debugger, the kernel for the browser (src/browser) and the bridge (wasix-bridge).
mod Base
pub mod Bitscan
pub mod Bcd
pub mod Divmul
pub mod Dll
pub mod Fds
pub mod Memory
pub mod Dubble
pub mod Sse
pub mod Pipe
pub mod Bits
pub mod Machine
pub mod Flags
pub mod Alu
mod Tests
