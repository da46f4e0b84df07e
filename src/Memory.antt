-- ===== src/Memory.antt =====
-- native/blink/blink/memory.c, with the parts of machine.h, pte32.c and memorymalloc.c that it
-- calls: guest memory behind a table of four levels and a buffer of translations. This is the build
-- without a linear mapping, without the compiler for hot paths (DISABLE_JIT), without __wasm32__ and
-- without __ATUA_BROWSER__, on one thread.
pub mod Pages
pub mod Fault
pub mod Find
pub mod Lookup
pub mod Bytes
pub mod Entry
pub mod Coherence
pub mod Locks
pub mod Locking
pub mod Rounds
pub mod Ending
pub mod Copying
pub mod Commit
use atua_computer.Base.{
  ℕ, zero, suc, ◌+◌, ◌-◌, ◌*◌, ◌/◌, ◌%◌, ◌^◌, min, max, Bool, true, false, not, ◌&&◌, ◌||◌, Option,
  none, some, List, [], ◌∷◌, ◌++◌, ltb, leb, ◌==◌, if◌then◌else◌, length, get_or, set, take, drop,
  ◌&&&◌,
}

-- How a call ends: `aborted` by an `unassert`, or `no_fuel` if a loop was not given enough rounds.
pub data Result (A : Type 0) : Type 0 where
  ok : A → Result A
  aborted no_fuel : Result A

infixl 5 ◌>>=◌
abbrev pub ◌>>=◌ : {A B : Type 0} → Result A → (A → Result B) → Result B
ok a >>= f = f a
aborted >>= f = aborted
no_fuel >>= f = no_fuel

pub record MachineTlb : Type 0 where
  pub page : ℕ
  pub entry : ℕ

pub record PageLock : Type 0 where
  pub page : ℕ
  pub pslot : ℕ
  pub sysdepth : ℕ

pub data Errno : Type 0 where
  no_error efault enobufs eagain : Errno

-- The fields of `struct Machine` and `struct System` that memory.c uses. `mem` holds the bytes of
-- the host by address, `hostpages` is `g_hostpages.p`, `free_pages` the list in `g_allocator`, and
-- `locks` is `pagelocks.p` with the last lock first, in an array of `lock_room` entries.
-- `long_mode`, `real_mode` and `paging` stand for the tests of `mode` and of CR0_PG.
pub record Mmu : Type 0 where
  pub invalidated : Bool
  pub tlb : List MachineTlb
  pub metal : Bool
  pub long_mode : Bool
  pub real_mode : Bool
  pub paging : Bool
  pub cpl : ℕ
  pub insyscall : Bool
  pub nofault : Bool
  pub segvcode : ℕ
  pub errno : Errno
  pub locks : List PageLock
  pub lock_room : ℕ
  pub sysdepth : ℕ
  pub cr3 : ℕ
  pub real : ℕ
  pub hostpages : List ℕ
  pub free_pages : List ℕ
  pub committed : ℕ
  pub reserved : ℕ
  pub rss : ℕ
  pub mem : ℕ → ℕ

-- What the host grants: room for the array of locks, and 64 fresh pages at an address.
pub record Host : Type 0 where
  pub grow_locks : Bool
  pub big : Option ℕ

abbrev pub page_v : ℕ
page_v = 0x1

abbrev pub page_rw : ℕ
page_rw = 0x2

abbrev pub page_u : ℕ
page_u = 0x4

abbrev pub page_ps : ℕ
page_ps = 0x80

abbrev pub page_rsrv : ℕ
page_rsrv = 0x200

abbrev pub page_host : ℕ
page_host = 0x400

abbrev pub page_map : ℕ
page_map = 0x800

abbrev pub page_ta : ℕ
page_ta = 0x0000_ffff_ffff_f000

abbrev pub page_grow : ℕ
page_grow = 0x0010_0000_0000_0000

abbrev pub page_mug : ℕ
page_mug = 0x0020_0000_0000_0000

abbrev pub page_file : ℕ
page_file = 0x0040_0000_0000_0000

abbrev pub page_lock : ℕ
page_lock = 0x0080_0000_0000_0000

abbrev pub page_locks : ℕ
page_locks = 0x7f80_0000_0000_0000

abbrev pub real_size : ℕ
real_size = 16 * 1024 * 1024

abbrev pub segv_maperr : ℕ
segv_maperr = 1

abbrev pub segv_accerr : ℕ
segv_accerr = 2

-- `entry & bits`, as a test.
abbrev pub has : ℕ → ℕ → Bool
has entry bits = not ((entry &&& bits) == 0)
