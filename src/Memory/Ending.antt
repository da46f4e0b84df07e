-- ===== src/Memory/Ending.antt =====
-- Outside a system call every lookup in the tables of native/blink/blink/memory.c ends.
use atua_computer.Memory.Lookup.{resolve}
use atua_computer.Memory.Find.{
  reset_tlb, find_page_table_entry, take_lock, must_lock, fill_tlb, has_page_lock, lock_page,
  settle, try_again, look_up, subpage, descend, read_slot,
}
use atua_computer.Memory.{
  segv_accerr, efault, page_rsrv, ◌>>=◌, Result, page_ps, has, Host, ok, aborted, Mmu,
}
use atua_computer.Memory.Rounds.{commit_loop-Ends, IsOutside, Ends-either, Ends, Ends->>=}
use atua_computer.Memory.Fault.{handle_page_fault}
use atua_computer.Base.{
  ℕ, ◌==◌, Bool, zero, suc, ◌+◌, ◌*◌, ◌≡◌, sym, true, false, Option, none, some, if_false, ap,
  subst, ◌&&&◌, not, ◌&&◌, if◌then◌else◌,
}
use atua_computer.Memory.Pages.{get_page_address}

-- No claim on the result.
unfoldable pub IsAny : {A : Type 0} → A → Type 0
IsAny a = Unit

pub Ends-ok : {A : Type 0} (a : A) → Ends IsAny (ok a)
unfolding Ends IsAny
Ends-ok a = tt

pub Ends-aborted : {A : Type 0} (p : A → Type 0) → Ends p aborted
unfolding Ends
Ends-aborted p = tt

pub get_page_address-Ends :
    (m : Mmu) (entry : ℕ) (is_cr3 : Bool) → Ends IsAny (get_page_address m entry is_cr3)
unfolding get_page_address
get_page_address-Ends m entry is_cr3 = search (Ends-either, Ends-ok, Ends-aborted) depth 9

pub read_slot-Ends : (m : Mmu) (k page table : ℕ) → Ends IsAny (read_slot m k page table)
unfolding read_slot
read_slot-Ends m k page table =
    Ends->>= IsAny IsAny (get_page_address m table (k == 3)) _
      (get_page_address-Ends m table (k == 3)) λ base any. search (Ends-either, Ends-ok) depth 9

pub descend-Ends : (k : ℕ) (m : Mmu) (page table : ℕ) → Ends IsAny (descend k m page table)
unfolding descend
descend-Ends zero m page table = read_slot-Ends m 0 page table
descend-Ends (suc k) m page table =
    Ends->>= IsAny IsAny (read_slot m (suc k) page table) _ (read_slot-Ends m (suc k) page table)
      (found-Ends λ entry. descend-Ends k m page entry)
  where
    huge-Ends :
        ((entry : ℕ) → Ends IsAny (descend k m page entry))
        → (pslot entry : ℕ) (b : Bool)
        → Ends IsAny (elim b [
          | true ↦ ok (some (pslot, subpage (12 + 9 * suc k) entry page))
          | false ↦ descend k m page entry
        ])
    huge-Ends next pslot entry true = Ends-ok (some (pslot, subpage (12 + 9 * suc k) entry page))
    huge-Ends next pslot entry false = next entry

    found-Ends :
        ((entry : ℕ) → Ends IsAny (descend k m page entry))
        → (found : Option (ℕ × ℕ)) → IsAny found
        → Ends IsAny (elim found [
          | none ↦ ok none
          | some (pslot, entry) ↦ elim (has entry page_ps) [
            | true ↦ ok (some (pslot, subpage (12 + 9 * suc k) entry page))
            | false ↦ descend k m page entry
          ]
        ])
    found-Ends next none any = Ends-ok none
    found-Ends next (some (pslot, entry)) any = huge-Ends next pslot entry (has entry page_ps)

pub Ends-IsOutside :
    {A : Type 0} (m : Mmu) (a : A) → m.insyscall ≡ false → Ends (IsOutside {A = A}) (ok (m, a))
unfolding Ends IsOutside
Ends-IsOutside m a outside = outside

pub handle_page_fault-Ends :
    (host : Host) (fuel : ℕ) (m : Mmu) (pslot entry : ℕ)
    → m.insyscall ≡ false
    → Ends (IsOutside {A = ℕ}) (handle_page_fault host (suc (suc fuel)) m pslot entry)
unfolding handle_page_fault
handle_page_fault-Ends host fuel m pslot entry outside =
    search (Ends-either, Ends-aborted, Ends-IsOutside, commit_loop-Ends)

must_lock-outside : (m : Mmu) (page : ℕ) → m.insyscall ≡ false → must_lock m page ≡ ok false
unfolding must_lock
must_lock-outside m page outside =
    if_false (m.insyscall && not m.nofault) (has_page_lock m.locks page >>= λ held. ok (not held))
      (ok false) (ap (λ b. b && not m.nofault) outside)

-- Outside a system call no lock is taken, and the walk is not begun again.
pub lock_page-outside :
    (host : Host) (m : Mmu) (page pslot entry : ℕ)
    → m.insyscall ≡ false
    → lock_page host m page pslot entry ≡ ok (fill_tlb m page entry, some entry)
unfolding lock_page
lock_page-outside host m page pslot entry outside =
    ap
      (λ t. t >>= λ locks.
        if locks then take_lock host m page pslot entry else ok (fill_tlb m page entry, some entry))
      (must_lock-outside m page outside)

module _ (host : Host) (fuel : ℕ) (m : Mmu) (page : ℕ) (outside : m.insyscall ≡ false) where
  faulted-Ends :
      (rest : Mmu → Result (Mmu × ℕ)) (pslot entry : ℕ) (f : Mmu × ℕ) (b : Bool)
      → f.0.insyscall ≡ false
      → Ends (IsOutside {A = ℕ}) (elim b [
        | true ↦ ok f
        | false ↦ lock_page host f.0 page pslot f.1 >>= λ l. elim l.1 [
          | none ↦ rest l.0
          | some got ↦ ok (l.0, got)
        ]
      ])
  unfolding Ends IsOutside
  faulted-Ends rest pslot entry f true out = out
  faulted-Ends rest pslot entry f false out =
      subst
        (λ t.
          Ends (IsOutside {A = ℕ})
            (t >>= λ l. elim l.1 [ none ↦ rest l.0 | some got ↦ ok (l.0, got) ]))
        (sym (lock_page-outside host f.0 page pslot f.1 out)) out

  settle-Ends :
      (rest : Mmu → Result (Mmu × ℕ)) (walked : Option (ℕ × ℕ))
      → Ends (IsOutside {A = ℕ}) (settle host (suc (suc fuel)) rest m page walked)
  unfolding settle Ends IsOutside
  settle-Ends rest none = outside
  settle-Ends rest (some (pslot, entry)) =
      Ends->>= (IsOutside {A = ℕ}) (IsOutside {A = ℕ})
        (if has entry page_rsrv
          then handle_page_fault host (suc (suc fuel)) m pslot entry
          else ok (m, entry))
        _
        (Ends-either (IsOutside {A = ℕ}) (has entry page_rsrv)
          (handle_page_fault host (suc (suc fuel)) m pslot entry) (ok (m, entry))
          (handle_page_fault-Ends host fuel m pslot entry outside) outside)
        (λ f out. faulted-Ends rest pslot entry f (has entry page_rsrv && (f.1 == 0)) out)

  try_again-Ends : Ends (IsOutside {A = ℕ}) (try_again host (suc (suc (suc fuel))) m page)
  unfolding try_again
  try_again-Ends =
      Ends-either (IsOutside {A = ℕ}) (m.cr3 == 0) aborted _ (Ends-aborted (IsOutside {A = ℕ})) (
        Ends->>= IsAny (IsOutside {A = ℕ}) (descend 3 m page m.cr3)
          (settle host (suc (suc fuel)) (λ n. try_again host (suc (suc fuel)) n page) m page)
          (descend-Ends 3 m page m.cr3)
          (λ walked any. settle-Ends (λ n. try_again host (suc (suc fuel)) n page) walked))

  look_up-Ends : Ends (IsOutside {A = ℕ}) (look_up host (suc (suc (suc fuel))) m page)
  unfolding look_up
  look_up-Ends = search (Ends-either, Ends-aborted, Ends-IsOutside, try_again-Ends)

module _ (host : Host) (fuel : ℕ) (m : Mmu) (outside : m.insyscall ≡ false) where
  reset-IsOutside :
      (b : Bool) → (if b then record (reset_tlb m) { invalidated = false } else m).insyscall ≡ false
  unfolding reset_tlb
  reset-IsOutside true = outside
  reset-IsOutside false = outside

  pub find_page_table_entry-Ends :
      (page : ℕ)
      → Ends (IsOutside {A = ℕ}) (find_page_table_entry host (suc (suc (suc fuel))) m page)
  unfolding find_page_table_entry
  find_page_table_entry-Ends page =
      look_up-Ends host fuel
        (if m.invalidated then record (reset_tlb m) { invalidated = false } else m) page
        (reset-IsOutside m.invalidated)

  pub resolve-Ends :
      (virt mask need entry : ℕ) → Ends (IsOutside {A = ℕ}) (resolve m virt mask need entry)
  unfolding resolve
  resolve-Ends virt mask need entry =
      Ends-either (IsOutside {A = ℕ}) (entry == 0) (ok (m, 0)) _ (Ends-IsOutside m 0 outside) (
        Ends-either (IsOutside {A = ℕ}) (not ((entry &&& mask) == need))
          (ok (record m { segvcode = segv_accerr; errno = efault }, 0)) _
          (Ends-IsOutside (record m { segvcode = segv_accerr; errno = efault }) 0 outside)
          (Ends->>= IsAny (IsOutside {A = ℕ}) (get_page_address m entry false) _
            (get_page_address-Ends m entry false)
            (λ base any. search (Ends-either, Ends-IsOutside))))
