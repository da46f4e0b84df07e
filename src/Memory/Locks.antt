-- ===== src/Memory/Locks.antt =====
-- The locks of pages that a system call leaves behind: native/blink/blink/memory.c.
use atua_computer.Base.{ℕ, ltb, false, Bool, List, [], ◌∷◌, if◌then◌else◌}
use atua_computer.Memory.{Result, ok, ◌>>=◌, Mmu, PageLock}
use atua_computer.Memory.Find.{release_page_lock}

unfoldable pub has_outdated_page_locks : ℕ → List PageLock → Bool
has_outdated_page_locks sysdepth [] = false
has_outdated_page_locks sysdepth (lock ∷ locks) = ltb sysdepth lock.sysdepth

-- The loop of `CollectPageLocks`, on the locks that are left.
unfoldable pub collect_loop : List PageLock → Mmu → Result Mmu
unfolding release_page_lock
collect_loop [] m = ok (record m { locks = [] })
collect_loop (lock ∷ locks) m =
    if ltb m.sysdepth lock.sysdepth
    then (release_page_lock (record m { locks = locks }) lock.pslot >>= collect_loop locks)
    else ok (record m { locks = lock ∷ locks })

unfoldable pub collect_page_locks : Mmu → Result Mmu
unfolding collect_loop has_outdated_page_locks
collect_page_locks m =
    if has_outdated_page_locks m.sysdepth m.locks then collect_loop m.locks m else ok m
