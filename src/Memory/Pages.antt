-- ===== src/Memory/Pages.antt =====
-- Page table entries in host memory, host pages, and their allocation: pte32.c, machine.h,
-- memorymalloc.c and memory.c in native/blink/blink.
use atua_computer.Base.{
  ℕ, zero, suc, ◌+◌, ◌-◌, ◌*◌, ◌/◌, ◌%◌, ◌^◌, Bool, true, false, not, ◌&&◌, ◌||◌, Option, none,
  some, List, [], ◌∷◌, ◌++◌, ltb, leb, ◌==◌, if◌then◌else◌, length, get_or, ◌&&&◌, ◌|||◌, ◌>>>◌,
  ◌<<<◌, not64,
}
use atua_computer.Memory.{
  Result, ok, aborted, Mmu, Host, page_v, page_rw, page_u, page_rsrv, page_host, page_ta, real_size,
  has,
}

-- `Read64` and `Write64` on eight bytes, the low one first.
unfoldable pub read_bytes : ℕ → (ℕ → ℕ) → ℕ → ℕ
read_bytes zero mem p = 0
read_bytes (suc n) mem p = mem p + read_bytes n mem (p + 1) * 256

unfoldable pub write_bytes : ℕ → (ℕ → ℕ) → ℕ → ℕ → ℕ → ℕ
write_bytes n mem p v a = if leb p a && ltb a (p + n) then v / 256 ^ (a - p) % 256 else mem a

unfoldable pub load_pte : Mmu → ℕ → ℕ
unfolding read_bytes
load_pte m pte = read_bytes 8 m.mem pte

unfoldable pub store_pte : Mmu → ℕ → ℕ → Mmu
unfolding write_bytes
store_pte m pte val = record m { mem = write_bytes 8 m.mem pte val }

unfoldable pub cas_pte : Mmu → ℕ → ℕ → ℕ → Mmu × Bool
unfolding load_pte store_pte
cas_pte m pte oldval newval =
    if load_pte m pte == oldval then (store_pte m pte newval, true) else (m, false)

-- `g_hostpages.p[idx]`; an index past the end is not read by a valid entry.
unfoldable pub find_host_page : Mmu → ℕ → ℕ
find_host_page m entry = get_or m.hostpages ((entry &&& page_ta) >>> 12) 0

-- A null pointer is 0.
unfoldable pub get_page_address : Mmu → ℕ → Bool → Result ℕ
unfolding find_host_page
get_page_address m entry is_cr3 =
    if not (is_cr3 || has entry page_v)
    then aborted
    else (if has entry page_rsrv
        then aborted
        else (if has entry page_host
            then ok (find_host_page m entry)
            else (if m.real == 0
                then aborted
                else (if leb ((entry &&& page_ta) + 4096) real_size
                    then ok (m.real + (entry &&& page_ta))
                    else ok 0))))

-- The array grows before a page is added when it is full, which does not change what it holds.
unfoldable pub track_host_page : Mmu → ℕ → Mmu × ℕ
track_host_page m ptr =
    (record m { hostpages = m.hostpages ++ (ptr ∷ []) }, length m.hostpages <<< 12)

unfoldable pub free_anonymous_page : Mmu → ℕ → Mmu
free_anonymous_page m page = record m { free_pages = page ∷ m.free_pages }

-- The pages after the first of a fresh block, pushed from the last on.
unfoldable pub pages_after : ℕ → ℕ → List ℕ
pages_after zero base = []
pages_after (suc n) base = (base + 4096) ∷ pages_after n (base + 4096)

-- The page to use, and the list without it. A new block comes from `AllocateBig`, as in the builds
-- for other hosts than __wasm32__, where `AllocPoolPages` gives it from a pool.
unfoldable pub take_page : Host → List ℕ → Option (ℕ × List ℕ)
unfolding pages_after
take_page host (page ∷ pages) = some (page, pages)
take_page host [] = elim (host.big) [ none ↦ none | some base ↦ some (base, pages_after 63 base) ]

-- `none` where the source returns -1.
unfoldable pub make_entry : Mmu → Option (ℕ × List ℕ) → Result (Mmu × Option ℕ)
unfolding track_host_page
make_entry m none = ok (m, none)
make_entry m (some (page, pages)) =
    let tracked = track_host_page (record m { free_pages = pages; rss = m.rss + 1 }) page in
    if has tracked.1 (not64 page_ta)
    then aborted
    else ok (tracked.0, some (tracked.1 ||| page_host ||| page_u ||| page_rw ||| page_v))

unfoldable pub allocate_anonymous_page : Host → Mmu → Result (Mmu × Option ℕ)
unfolding take_page make_entry
allocate_anonymous_page host m = make_entry m (take_page host m.free_pages)
