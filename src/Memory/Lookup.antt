-- ===== src/Memory/Lookup.antt =====
-- From a guest address to a host address, and copies that cross pages: native/blink/blink/memory.c.
use atua_computer.Base.{
  ℕ, zero, suc, ◌+◌, ◌-◌, ◌%◌, ◌^◌, min, true, false, not, ◌&&◌, ◌||◌, List, [], ℤ, pos, negsuc,
  ◌∷◌, ◌++◌, ltb, leb, ◌==◌, if◌then◌else◌, ◌&&&◌, Bool,
}
use atua_computer.Memory.{
  Result, ok, aborted, no_fuel, ◌>>=◌, Mmu, Host, efault, page_u, segv_accerr, real_size,
}
use atua_computer.Memory.Pages.{get_page_address}
use atua_computer.Memory.Find.{find_page_table_entry, map_error}

-- `virt & -4096` on 64 bits.
abbrev pub page_of : ℕ → ℕ
page_of virt = virt &&& 0xffff_ffff_ffff_f000

-- The tests after the entry was found; an entry of 0 is a failure that was reported before.
unfoldable pub resolve : Mmu → ℕ → ℕ → ℕ → ℕ → Result (Mmu × ℕ)
unfolding get_page_address
resolve m virt mask need entry =
    if entry == 0
    then ok (m, 0)
    else (if not ((entry &&& mask) == need)
        then ok (record m { segvcode = segv_accerr; errno = efault }, 0)
        else (get_page_address m entry false >>= λ host.
            if host == 0 then ok (map_error m) else ok (m, host + (virt &&& 4095))))

-- Whether the guest's addresses go through tables.
abbrev pub is_paged : Mmu → Bool
is_paged m = not m.metal || m.long_mode || (not m.real_mode && m.paging)

-- Without tables an address is an offset into the memory of the machine. 0 is the null pointer.
unfoldable pub lookup_real : Mmu → ℕ → Result (Mmu × ℕ)
lookup_real m virt =
    if leb virt 0xffff_ffff && ltb ((virt &&& 0xffff_ffff) + 4095) real_size
    then (if m.real == 0 then aborted else ok (m, m.real + virt))
    else ok (map_error m)

unfoldable pub lookup_address2 : Host → ℕ → Mmu → ℕ → ℕ → ℕ → Result (Mmu × ℕ)
unfolding find_page_table_entry resolve lookup_real
lookup_address2 host fuel m virt mask need =
    if is_paged m
    then (find_page_table_entry host fuel m (page_of virt) >>= λ r. resolve r.0 virt mask need r.1)
    else lookup_real m virt

unfoldable pub lookup_address : Host → ℕ → Mmu → ℕ → Result (Mmu × ℕ)
unfolding lookup_address2
lookup_address host fuel m virt =
    let need = if m.cpl == 3 then page_u else 0 in lookup_address2 host fuel m virt need need

unfoldable pub spy_address : Host → ℕ → Mmu → ℕ → Result (Mmu × ℕ)
unfolding lookup_address2
spy_address host fuel m virt = lookup_address2 host fuel m virt 0 0

-- `memcpy` out of host memory.
unfoldable pub bytes_at : ℕ → (ℕ → ℕ) → ℕ → List ℕ
bytes_at zero mem p = []
bytes_at (suc n) mem p = mem p ∷ bytes_at n mem (p + 1)

-- The bytes of a round stand before those of the rest.
abbrev pub join_copy : List ℕ → Mmu × (List ℕ × ℤ) → Mmu × (List ℕ × ℤ)
join_copy bytes (m, (rest, rc)) = (m, (bytes ++ rest, rc))

-- The bytes that one round of `VirtualCopy` copies: to the end of the page at most.
abbrev pub page_rest_of : ℕ → ℕ → ℕ
page_rest_of v n = min (4096 - (v &&& 4095)) n

-- `VirtualCopy` out of the guest: `rounds` bounds its loop, in which each round copies a byte or
-- more. The list holds what was written to the destination, from its start on, also before a failure.
unfoldable pub copy_out : Host → ℕ → ℕ → Mmu → ℕ → ℕ → Result (Mmu × (List ℕ × ℤ))
unfolding lookup_address bytes_at
copy_out host fuel rounds m v zero = ok (m, ([], pos 0))
copy_out host fuel zero m v (suc n) = no_fuel
copy_out host fuel (suc rounds) m v (suc n) =
    let k = page_rest_of v (suc n) in
    lookup_address host fuel m v >>= λ r. elim (r.1 == 0) [
      | true ↦ ok (r.0, ([], negsuc 0))
      | false ↦ copy_out host fuel rounds r.0 ((v + k) % 2 ^ 64) (suc n - k) >>= λ rest.
          ok (join_copy (bytes_at k r.0.mem r.1) rest)
    ]

unfoldable pub copy_from_user : Host → ℕ → Mmu → ℕ → ℕ → Result (Mmu × (List ℕ × ℤ))
unfolding copy_out
copy_from_user host fuel m src n = copy_out host fuel n m src n
