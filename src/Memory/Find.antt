-- ===== src/Memory/Find.antt =====
-- `FindPageTableEntry` of native/blink/blink/memory.c: the buffer of translations, the walk through
-- four levels of tables, the page fault, and the lock that a system call takes.
use atua_computer.Base.{
  ℕ, zero, suc, ◌+◌, ◌-◌, ◌*◌, ◌^◌, Bool, true, false, not, ◌&&◌, ◌||◌, Option, none, some, List,
  [], ◌∷◌, ltb, leb, ◌==◌, if◌then◌else◌, length, get_or, set, ◌&&&◌, ◌|||◌, ◌>>>◌, ◌<<<◌, not64,
  replicate,
}
use atua_computer.Memory.{
  Result, ok, aborted, no_fuel, ◌>>=◌, Mmu, MachineTlb, PageLock, Host, efault, eagain, page_v,
  page_ps, page_rsrv, page_host, page_map, page_grow, page_mug, page_file, page_lock, page_locks,
  segv_maperr, has,
}
use atua_computer.Memory.Pages.{load_pte, cas_pte, store_pte, get_page_address}
use atua_computer.Memory.Fault.{handle_page_fault}

abbrev pub blank : MachineTlb
blank = record { page = 0; entry = 0 }

-- reset.c; the fields that it clears for the instruction fetch are not modelled.
unfoldable pub reset_tlb : Mmu → Mmu
unfolding replicate
reset_tlb m = record m { tlb = replicate 32 blank }

-- `m->segvcode = SEGV_MAPERR_LINUX; return efault0();`
abbrev pub map_error : Mmu → Mmu × ℕ
map_error m = (record m { segvcode = segv_maperr; errno = efault }, 0)

-- On bare metal these bits of an entry belong to the guest.
abbrev pub host_bits : ℕ
host_bits = page_rsrv ||| page_host ||| page_map ||| page_grow ||| page_mug ||| page_file

-- The entry that a table has for a page, and where it stands; `none` is `goto MapError`. The table
-- of level `12 + 9 * k` is the `k`-th from the last. The test for a null table comes after the sum.
unfoldable pub read_slot : Mmu → ℕ → ℕ → ℕ → Result (Option (ℕ × ℕ))
unfolding get_page_address load_pte
read_slot m k page table = get_page_address m table (k == 3) >>= λ base.
    let pslot = base + ((page >>> (12 + 9 * k)) &&& 511) * 8 in
    let entry = load_pte m pslot in
    if pslot == 0
    then ok none
    else (if not (has entry page_v)
        then ok none
        else ok (some (pslot, if m.metal then entry &&& not64 host_bits else entry)))

-- The entry of a huge page, pointed to the small page that is meant.
unfoldable pub subpage : ℕ → ℕ → ℕ → ℕ
subpage level entry page =
    let submask = (1 <<< level) - 4096 in (entry &&& not64 submask) ||| (page &&& submask)

unfoldable pub descend : ℕ → Mmu → ℕ → ℕ → Result (Option (ℕ × ℕ))
unfolding read_slot subpage
descend zero m page table = read_slot m 0 page table
descend (suc k) m page table = read_slot m (suc k) page table >>= λ found. elim found [
  | none ↦ ok none
  | some (pslot, entry) ↦ elim (has entry page_ps) [
    | true ↦ ok (some (pslot, subpage (12 + 9 * suc k) entry page))
    | false ↦ descend k m page entry
  ]
]

-- The loop of `HasPageLock`.
unfoldable pub is_locked : List PageLock → ℕ → Bool
is_locked [] page = false
is_locked (lock ∷ locks) page = (lock.page == page) || is_locked locks page

unfoldable pub has_page_lock : List PageLock → ℕ → Result Bool
unfolding is_locked
has_page_lock locks page = if not ((page &&& 4095) == 0) then aborted else ok (is_locked locks page)

-- `!m->pagelocks.i || m->pagelocks.p[m->pagelocks.i - 1].sysdepth <= m->sysdepth`.
unfoldable pub is_deepest : ℕ → List PageLock → Bool
is_deepest sysdepth [] = true
is_deepest sysdepth (lock ∷ locks) = leb lock.sysdepth sysdepth

-- The last lock stands first; `false` when the array cannot grow.
unfoldable pub record_page_lock : Host → Mmu → ℕ → ℕ → Result (Mmu × Bool)
unfolding is_deepest
record_page_lock host m page pslot =
    let room = m.lock_room + 3 in
    let added = record { page = page; pslot = pslot; sysdepth = m.sysdepth } ∷ m.locks in
    if m.sysdepth == 0
    then aborted
    else (if not (is_deepest m.sysdepth m.locks)
        then aborted
        else (if length m.locks == m.lock_room
            then (if host.grow_locks
                then ok (record m { locks = added; lock_room = room + (room >>> 1) }, true)
                else ok (m, false))
            else ok (record m { locks = added }, true)))

-- A single thread finds the entry unchanged, so the loop of the source runs once.
unfoldable pub release_page_lock : Mmu → ℕ → Result Mmu
unfolding load_pte store_pte
release_page_lock m pslot =
    let entry = load_pte m pslot in
    if has entry page_v && has entry page_locks
    then ok (store_pte m pslot (entry - page_lock))
    else aborted

abbrev pub fill_tlb : Mmu → ℕ → ℕ → Mmu
fill_tlb m page entry = record m {
  tlb = set m.tlb ((page >>> 12) &&& 31) (record { page = page; entry = entry });
}

-- Whether this access takes a lock.
unfoldable pub must_lock : Mmu → ℕ → Result Bool
unfolding has_page_lock
must_lock m page =
    if m.insyscall && not m.nofault
    then (has_page_lock m.locks page >>= λ held. ok (not held))
    else ok false

-- The lock: `none` is `goto TryAgain`, an entry of 0 a failure.
unfoldable pub take_lock : Host → Mmu → ℕ → ℕ → ℕ → Result (Mmu × Option ℕ)
unfolding load_pte cas_pte record_page_lock release_page_lock
take_lock host m page pslot entry =
    if ltb (entry &&& page_locks) page_locks
    then (let (n, swapped) = cas_pte m pslot entry (entry + page_lock) in
        if swapped
        then (if not (has (load_pte n pslot) page_locks)
            then aborted
            else (record_page_lock host n page pslot >>= λ r.
                if r.1
                then ok (fill_tlb r.0 page (entry + page_lock), some (entry + page_lock))
                else (release_page_lock r.0 pslot >>= λ freed.
                    ok (record freed { segvcode = segv_maperr }, some 0))))
        else ok (n, none))
    else ok (record m { segvcode = segv_maperr; errno = eagain }, some 0)

unfoldable pub lock_page : Host → Mmu → ℕ → ℕ → ℕ → Result (Mmu × Option ℕ)
unfolding take_lock must_lock
lock_page host m page pslot entry = must_lock m page >>= λ locks.
    if locks then take_lock host m page pslot entry else ok (fill_tlb m page entry, some entry)

-- After the walk: `rest` is `goto TryAgain`.
unfoldable pub settle :
    Host → ℕ → (Mmu → Result (Mmu × ℕ)) → Mmu → ℕ → Option (ℕ × ℕ) → Result (Mmu × ℕ)
unfolding handle_page_fault lock_page
settle host fuel rest m page none = ok (map_error m)
settle host fuel rest m page (some (pslot, entry)) =
    (if has entry page_rsrv then handle_page_fault host fuel m pslot entry else ok (m, entry))
    >>= λ f. elim (has entry page_rsrv && (f.1 == 0)) [
      | true ↦ ok f
      | false ↦ lock_page host f.0 page pslot f.1 >>= λ l. elim l.1 [
        | none ↦ rest l.0
        | some got ↦ ok (l.0, got)
      ]
    ]

unfoldable pub try_again : Host → ℕ → Mmu → ℕ → Result (Mmu × ℕ)
unfolding descend settle
try_again host zero m page = no_fuel
try_again host (suc fuel) m page =
    if m.cr3 == 0
    then aborted
    else (descend 3 m page m.cr3 >>= settle host fuel (λ n. try_again host fuel n page) m page)

-- `-0x800000000000 <= (i64)page && (i64)page < 0x800000000000` on the pattern of 64 bits.
abbrev pub canonical : ℕ → Bool
canonical page = ltb page (2 ^ 47) || leb (2 ^ 64 - 2 ^ 47) page

-- What follows the reset of an outdated buffer.
unfoldable pub look_up : Host → ℕ → Mmu → ℕ → Result (Mmu × ℕ)
unfolding try_again
look_up host fuel m page =
    let cached = get_or m.tlb ((page >>> 12) &&& 31) blank in
    if (cached.page == page) && has cached.entry page_v
    then ok (m, cached.entry)
    else (if not ((page &&& 4095) == 0)
        then aborted
        else (if canonical page then try_again host fuel m page else ok (map_error m)))

unfoldable pub find_page_table_entry : Host → ℕ → Mmu → ℕ → Result (Mmu × ℕ)
unfolding reset_tlb look_up
find_page_table_entry host fuel m page =
    look_up host fuel (if m.invalidated then record (reset_tlb m) { invalidated = false } else m)
      page
