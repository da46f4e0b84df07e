-- ===== src/Memory/Fault.antt =====
-- `HandlePageFault` of native/blink/blink/memory.c: a page that is reserved gets its storage when it
-- is first used.
use atua_computer.Base.{
  ℕ, zero, suc, ◌+◌, ◌-◌, not, none, some, ◌==◌, if◌then◌else◌, ◌&&&◌, ◌|||◌, not64,
}
use atua_computer.Memory.{
  Result, ok, aborted, no_fuel, ◌>>=◌, Mmu, Host, enobufs, page_rsrv, page_host, page_map, page_mug,
  page_ta, segv_maperr, has,
}
use atua_computer.Memory.Pages.{load_pte, cas_pte, allocate_anonymous_page, free_anonymous_page}

-- One round for a page of a mapped file: `reserved` is a `long`, which the count of reserved pages
-- keeps above 0.
unfoldable pub commit_mapped : Mmu → ℕ → ℕ → Result (Mmu × ℕ)
unfolding cas_pte load_pte
commit_mapped m pslot entry =
    let x = entry &&& not64 page_rsrv in
    let (n, swapped) = cas_pte m pslot entry x in
    if not ((entry &&& (page_host ||| page_map)) == (page_host ||| page_map))
    then aborted
    else (if swapped
        then ok (
          record n { committed = n.committed + 1; reserved = n.reserved - 1; rss = n.rss + 1 },
          x,
        )
        else ok (n, load_pte n pslot))

-- One round for an anonymous page. When the entry was changed meanwhile, the source gives back the
-- index bits of the new page as if they were its address.
unfoldable pub commit_anonymous : Host → Mmu → ℕ → ℕ → Result (Mmu × ℕ)
unfolding cas_pte load_pte allocate_anonymous_page free_anonymous_page
commit_anonymous host m pslot entry = do
  (n, page) ← allocate_anonymous_page host m
  elim page [
    | none ↦ ok (record n { segvcode = segv_maperr }, 0)
    | some page ↦
        let x = (page &&& (page_ta ||| page_host)) ||| (entry &&& not64 (page_ta ||| page_rsrv)) in
        let (o, swapped) = cas_pte n pslot entry x in
        if swapped
        then ok (record o { committed = o.committed + 1; reserved = o.reserved - 1 }, x)
        else (let freed = free_anonymous_page o (page &&& page_ta) in
            ok (record freed { rss = freed.rss - 1 }, load_pte freed pslot))
  ]

unfoldable pub commit_page : Host → Mmu → ℕ → ℕ → Result (Mmu × ℕ)
unfolding commit_mapped commit_anonymous
commit_page host m pslot entry =
    if has entry (page_host ||| page_map ||| page_mug)
    then commit_mapped m pslot entry
    else commit_anonymous host m pslot entry

-- `while (entry & PAGE_RSRV)`.
unfoldable pub while_reserved : (Mmu × ℕ → Result (Mmu × ℕ)) → Mmu × ℕ → Result (Mmu × ℕ)
while_reserved rest r = if has r.1 page_rsrv then rest r else ok r

unfoldable pub commit_loop : Host → ℕ → Mmu → ℕ → ℕ → Result (Mmu × ℕ)
unfolding commit_page while_reserved
commit_loop host zero m pslot entry = no_fuel
commit_loop host (suc fuel) m pslot entry =
    commit_page host m pslot entry >>= while_reserved (λ r. commit_loop host fuel r.0 pslot r.1)

unfoldable pub handle_page_fault : Host → ℕ → Mmu → ℕ → ℕ → Result (Mmu × ℕ)
unfolding commit_loop
handle_page_fault host fuel m pslot entry =
    if not (has entry page_rsrv)
    then aborted
    else (if m.nofault
        then ok (record m { segvcode = segv_maperr; errno = enobufs }, 0)
        else commit_loop host fuel m pslot entry)
