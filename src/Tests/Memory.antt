-- ===== src/Tests/Memory.antt =====
-- A guest with four tables of one page each, a page of its own and a page that is reserved:
-- native/blink/blink/memory.c.
use atua_computer.Base.{
  ℕ, ◌+◌, ◌%◌, ◌≡◌, ◌≢◌, refl, arith, ◌==◌, true, false, Option, none, some, List, [], ◌∷◌, ℤ, pos,
  negsuc, if◌then◌else◌,
}
use atua_computer.Memory.{Result, ok, aborted, no_fuel, Mmu, Host, no_error, page_lock}
use atua_computer.Memory.Pages.{load_pte}
use atua_computer.Memory.Find.{find_page_table_entry, must_lock, take_lock, has_page_lock}
use atua_computer.Memory.Lookup.{copy_from_user}
use atua_computer.Memory.Locks.{has_outdated_page_locks, collect_page_locks}
use atua_computer.Memory.Bytes.{IsBytes}
use atua_computer.Memory.Coherence.{IsCoherent, walk, find_page_table_entry-walk}
use atua_computer.Memory.Locking.{take_lock-collect_page_locks}
use atua_computer.Memory.Copying.{copy_from_user-Ends}
use mathlib.Core.Bool.{true≢false}

abbrev byte_in : List (ℕ × ℕ) → ℕ → ℕ
byte_in [] a = 0
byte_in (entry ∷ entries) a = if entry.0 == a then entry.1 else byte_in entries a

-- The bytes of the tables at 0x10000, 0x11000, 0x12000 and 0x13000, and of a page at 0x20000.
abbrev stored_bytes : List (ℕ × ℕ)
stored_bytes =
    (0x10000, 0x01)
    ∷ (0x10001, 0x14)
    ∷ (0x11000, 0x01)
    ∷ (0x11001, 0x24)
    ∷ (0x12000, 0x01)
    ∷ (0x12001, 0x34)
    ∷ (0x13028, 0x07)
    ∷ (0x13029, 0x02)
    ∷ (0x13030, 0x07)
    ∷ (0x13031, 0x44)
    ∷ (0x20ffe, 0x61)
    ∷ (0x20fff, 0x62)
    ∷ []

abbrev host_mem : ℕ → ℕ
host_mem a = byte_in stored_bytes a % 256

host_mem-IsBytes : IsBytes host_mem
unfolding IsBytes
host_mem-IsBytes a = omega arith

abbrev guest : Mmu
guest = record {
  invalidated = true;
  tlb = [];
  metal = false;
  long_mode = true;
  real_mode = false;
  paging = true;
  cpl = 3;
  insyscall = false;
  nofault = false;
  segvcode = 0;
  errno = no_error;
  locks = [];
  lock_room = 0;
  sysdepth = 1;
  cr3 = 0x401;
  real = 0;
  hostpages = 0x10000 ∷ 0x11000 ∷ 0x12000 ∷ 0x13000 ∷ 0x20000 ∷ [];
  free_pages = 0x30000 ∷ [];
  committed = 1;
  reserved = 1;
  rss = 1;
  mem = host_mem;
}

abbrev host : Host
host = record { grow_locks = true; big = none }

-- The page at 0x6000 is present, the page at 0x7000 is not, the page at 0x5000 is reserved.
find_page_table_entry-walk_example :
    (n : Mmu) × ((find_page_table_entry host 1 guest 0x6000 ≡ ok (n, 0x4407))
      × (IsCoherent n × ((other : ℕ) → walk n other ≡ walk guest other)))
unfolding walk must_lock
find_page_table_entry-walk_example =
    find_page_table_entry-walk host 0 guest 0x6000 (some (0x13030, 0x4407))
      (λ e. absurd (true≢false e)) refl refl refl refl refl refl

take_lock-collect_page_locks_example :
    (n k : Mmu) × (take_lock host guest 0x6000 0x13030 0x4407 ≡ ok (n, some (0x4407 + page_lock)))
    × (load_pte n 0x13030 ≡ 0x4407 + page_lock)
    × (has_page_lock n.locks 0x6000 ≡ ok true)
    × (collect_page_locks (record n { sysdepth = 0 }) ≡ ok k)
    × (load_pte k 0x13030 ≡ 0x4407)
    × (k.locks ≡ [])
unfolding load_pte has_outdated_page_locks
take_lock-collect_page_locks_example =
    take_lock-collect_page_locks host guest 0x6000 0x13030 0x4407 refl refl host_mem-IsBytes refl
      refl refl refl refl

copy_from_user-Ends_example : copy_from_user host 3 guest 0x6ffe 3 ≢ no_fuel
copy_from_user-Ends_example = copy_from_user-Ends host 0 guest 0x6ffe 3 refl

abbrev list_of : Result (Mmu × (List ℕ × ℤ)) → Option (List ℕ × ℤ)
list_of (ok r) = some r.1
list_of aborted = none
list_of no_fuel = none

-- Two bytes at the end of a page are copied, also when a third lies on a page that is not there.
copied_bytes : list_of (copy_from_user host 3 guest 0x6ffe 2) ≡ some (0x61 ∷ 0x62 ∷ [], pos 0)
unfolding copy_from_user
copied_bytes = refl

refused_bytes : list_of (copy_from_user host 3 guest 0x6ffe 3) ≡ some (0x61 ∷ 0x62 ∷ [], negsuc 0)
unfolding copy_from_user
refused_bytes = refl
