-- ===== src/Memory/Commit.antt =====
-- What `HandlePageFault` of native/blink/blink/memory.c leaves: the first use of a reserved page.
use atua_computer.Memory.Entry.{fresh, merged}
use atua_computer.Memory.{Mmu, Host, page_rsrv, page_host, page_map, page_mug, has}
use atua_computer.Base.{
  ℕ, ◌+◌, ◌^◌, ◌<◌, ◌≡◌, refl, ◌|||◌, true, false, some, List, [], ◌∷◌, ◌++◌, length, if_equal,
}
use atua_computer.Memory.Pages.{load_pte, store_pte, cas_pte, take_page}
use atua_computer.Memory.Bytes.{read_bytes-write_bytes}

-- The machine with a page more: `page` taken, and `pages` left in the list.
pub paged : Mmu → ℕ → List ℕ → Mmu
paged m page pages = record m {
  free_pages = pages;
  rss = m.rss + 1;
  hostpages = m.hostpages ++ (page ∷ []);
}

module _ (m : Mmu) (pslot entry x : ℕ) (same : load_pte m pslot ≡ entry) where
  pub cas_pte-same : cas_pte m pslot entry x ≡ (store_pte m pslot x, true)
  unfolding cas_pte
  cas_pte-same = rw same (if_equal entry entry (store_pte m pslot x, true) (m, false) refl)

  pub stored : x < 2 ^ 64 → load_pte (store_pte m pslot x) pslot ≡ x
  unfolding load_pte store_pte
  stored small = read_bytes-write_bytes 8 m.mem pslot x small

-- The fault of an anonymous page: one round is enough.
module _ (host : Host) (fuel : ℕ) (m : Mmu) (pslot entry page : ℕ) (pages : List ℕ)
    (reserved : has entry page_rsrv ≡ true)
    (anonymous : has entry (page_host ||| page_map ||| page_mug) ≡ false)
    (same : load_pte m pslot ≡ entry) (taken : take_page host m.free_pages ≡ some (page, pages))
    (room : length m.hostpages < 2 ^ 36) where
  abbrev new : ℕ
  new = merged (fresh (length m.hostpages)) entry

  abbrev after : Mmu
  after = store_pte (paged m page pages) pslot new
