-- ===== src/Memory/Coherence.antt =====
-- The buffer of translations of native/blink/blink/memory.c against the walk through the tables.
use atua_computer.Base.{
  ==_iff, Bool-cases, List, [], ◌∷◌, ◌⊎◌, inl, inr, get_or-set_ne, ℕ, zero, suc, Bool, true, false,
  not, ◌&&◌, Option, none, some, ◌==◌, if◌then◌else◌, get_or, set, ◌&&&◌, ◌>>>◌, ◌≡◌, refl, sym, ap,
  ◌∙◌, subst, replicate, both,
}
use native.Mathlib.Decide.{ℕ_discrete}
use mathlib.Core.Bool.{true≢false, false≢true}
use atua_computer.Memory.{
  Result, ok, aborted, no_fuel, Mmu, MachineTlb, Host, page_v, page_rsrv, has, ◌>>=◌,
}
use atua_computer.Memory.Pages.{load_pte, get_page_address}
use atua_computer.Memory.Find.{
  blank, reset_tlb, descend, read_slot, fill_tlb, must_lock, lock_page, try_again, canonical,
  look_up, settle, find_page_table_entry, map_error,
}

-- What the tables say of a page: the walk from CR3, which does not read the buffer.
unfoldable pub walk : Mmu → ℕ → Result (Option (ℕ × ℕ))
unfolding descend
walk m page = descend 3 m page m.cr3

-- A valid entry of the buffer is the one that the walk finds for its page.
unfoldable pub IsCoherent : Mmu → Type 0
IsCoherent m =
    (i : ℕ)
    → has (get_or m.tlb i blank).entry page_v ≡ true
    → (pslot : ℕ) × (walk m (get_or m.tlb i blank).page
        ≡ ok (some (pslot, (get_or m.tlb i blank).entry)))

-- The number that `FindPageTableEntry` returns for what the walk found.
abbrev pub entry_of : Option (ℕ × ℕ) → ℕ
entry_of none = 0
entry_of (some found) = found.1

-- No entry that was found is reserved, so that no page fault follows.
abbrev pub is_present : Option (ℕ × ℕ) → Bool
is_present none = true
is_present (some found) = not (has found.1 page_rsrv)

entry_of_result : Result (Option (ℕ × ℕ)) → ℕ
entry_of_result (ok found) = entry_of found
entry_of_result aborted = 0
entry_of_result no_fuel = 0

get_or-blank : (n i : ℕ) → get_or (replicate n blank) i blank ≡ blank
unfolding replicate
get_or-blank zero i = refl
get_or-blank (suc n) zero = refl
get_or-blank (suc n) (suc i) = get_or-blank n i

get_or-set_or :
    (xs : List MachineTlb) (i : ℕ) (v d : MachineTlb)
    → (get_or (set xs i v) i d ≡ v) ⊎ (get_or (set xs i v) i d ≡ d)
get_or-set_or [] i v d = inr refl
get_or-set_or (x ∷ xs) zero v d = inl refl
get_or-set_or (x ∷ xs) (suc i) v d = get_or-set_or xs i v d

-- A buffer that was reset is coherent.
pub reset_tlb-IsCoherent : (m : Mmu) → IsCoherent (record (reset_tlb m) { invalidated = false })
unfolding IsCoherent reset_tlb
reset_tlb-IsCoherent m i valid =
    absurd (true≢false (sym valid ∙ ap (λ slot. has slot.entry page_v) (get_or-blank 32 i)))

-- The walk does not read the buffer nor whether it is outdated.
pub walk-reset_tlb :
    (m : Mmu) (page : ℕ) → walk (record (reset_tlb m) { invalidated = false }) page ≡ walk m page
unfolding walk reset_tlb descend read_slot get_page_address load_pte
walk-reset_tlb m page = refl

pub walk-fill_tlb : (m : Mmu) (at entry page : ℕ) → walk (fill_tlb m at entry) page ≡ walk m page
unfolding walk descend read_slot get_page_address load_pte
walk-fill_tlb m at entry page = refl

-- What an entry of the buffer owes: to be invalid or what the walk finds.
IsSound : Mmu → MachineTlb → Type 0
IsSound m slot =
    has slot.entry page_v ≡ true → (pslot : ℕ) × (walk m slot.page ≡ ok (some (pslot, slot.entry)))

-- An entry that the walk found keeps the buffer coherent.
pub fill_tlb-IsCoherent :
    (m : Mmu) (page entry pslot : ℕ)
    → IsCoherent m
    → walk m page ≡ ok (some (pslot, entry))
    → IsCoherent (fill_tlb m page entry)
unfolding IsCoherent walk descend read_slot get_page_address load_pte IsSound
fill_tlb-IsCoherent m page entry pslot coherent found i =
    elim (ℕ_discrete ((page >>> 12) &&& 31) i) [
      | yes same ↦
          subst
            (λ j. IsSound m (
              get_or (set m.tlb ((page >>> 12) &&& 31) record { page = page; entry = entry }) j
                blank))
            same
            (elim (get_or-set_or m.tlb ((page >>> 12) &&& 31)
              (record { page = page; entry = entry }) blank) [
                | inl e ↦ subst (IsSound m) (sym e) (λ valid. (pslot, found))
                | inr e ↦ subst (IsSound m) (sym e) (λ valid. absurd (false≢true valid))
              ])
      | no other ↦
          subst (IsSound m)
            (sym (
              get_or-set_ne m.tlb ((page >>> 12) &&& 31) i (record { page = page; entry = entry })
                blank other))
            (coherent i)
    ]

-- A hit.
hit :
    (m : Mmu) (page : ℕ) (found : Option (ℕ × ℕ))
    → IsCoherent m
    → walk m page ≡ ok found
    → (get_or m.tlb ((page >>> 12) &&& 31) blank).page ≡ page
    → has (get_or m.tlb ((page >>> 12) &&& 31) blank).entry page_v ≡ true
    → (get_or m.tlb ((page >>> 12) &&& 31) blank).entry ≡ entry_of found
unfolding IsCoherent entry_of_result
hit m page found coherent walked same valid =
    let (pslot, cached) = coherent ((page >>> 12) &&& 31) valid in
    ap entry_of_result (sym cached ∙ ap (walk m) same ∙ walked)

-- The lookup returns the entry and leaves a coherent buffer and the same walks.
unfoldable Answers : Mmu → Result (Mmu × ℕ) → Option (ℕ × ℕ) → Type 0
Answers m result found =
    (n : Mmu) × ((result ≡ ok (n, entry_of found))
      × (IsCoherent n × ((other : ℕ) → walk n other ≡ walk m other)))

module _ (host : Host) (fuel : ℕ) (m : Mmu) (page : ℕ) (coherent : IsCoherent m)
    (quiet : must_lock m page ≡ ok false) where
  settle-none : (rest : Mmu → Result (Mmu × ℕ)) → Answers m (settle host fuel rest m page none) none
  unfolding Answers settle IsCoherent walk descend read_slot get_page_address load_pte
  settle-none rest = ((map_error m).0, (refl, (coherent, λ other. refl)))

  settle-some :
      (rest : Mmu → Result (Mmu × ℕ)) (pslot entry : ℕ)
      → not (has entry page_rsrv) ≡ true
      → settle host fuel rest m page (some (pslot, entry)) ≡ ok (fill_tlb m page entry, entry)
  unfolding settle lock_page
  settle-some rest pslot entry present = elim (Bool-cases (has entry page_rsrv)) [
    | inl e ↦ absurd (false≢true (sym (ap not e) ∙ present))
    | inr e ↦ rw (e, quiet) refl
  ]

  settle-present :
      (rest : Mmu → Result (Mmu × ℕ)) (found : Option (ℕ × ℕ))
      → walk m page ≡ ok found
      → is_present found ≡ true
      → Answers m (settle host fuel rest m page found) found
  unfolding Answers
  settle-present rest none walked present = settle-none rest
  settle-present rest (some (pslot, entry)) walked present = (
    fill_tlb m page entry,
    (
      settle-some rest pslot entry present,
      (fill_tlb-IsCoherent m page entry pslot coherent walked, walk-fill_tlb m page entry),
    ),
  )

  module _ (found : Option (ℕ × ℕ)) (walked : walk m page ≡ ok found)
      (present : is_present found ≡ true) (rooted : (m.cr3 == 0) ≡ false) where
    try_again-present : Answers m (try_again host (suc fuel) m page) found
    unfolding try_again walk
    try_again-present = rw rooted (
        subst
          (λ w. Answers m (w >>= settle host fuel (λ n. try_again host fuel n page) m page) found)
          (sym walked) (settle-present (λ n. try_again host fuel n page) found walked present))

    module _ (aligned : page &&& 4095 ≡ 0) (in_range : canonical page ≡ true) where
      look_up-present : Answers m (look_up host (suc fuel) m page) found
      unfolding look_up Answers
      look_up-present =
          let slot = get_or m.tlb ((page >>> 12) &&& 31) blank in
          elim (Bool-cases ((slot.page == page) && has slot.entry page_v)) [
            | inl e ↦
                let (same, valid) = both (slot.page == page) (has slot.entry page_v) e in
                (
                  m,
                  (
                    rw e (
                        ap (λ t. ok (m, t))
                          (hit m page found coherent walked ((==_iff slot.page page).0 same)
                            valid)),
                    (coherent, λ other. refl),
                  ),
                )
            | inr e ↦ rw (e, aligned, in_range) try_again-present
          ]

-- The buffer is reset first when it is outdated.
outdated :
    (host : Host) (fuel : ℕ) (m : Mmu) (page : ℕ) (found : Option (ℕ × ℕ))
    → must_lock m page ≡ ok false
    → walk m page ≡ ok found
    → is_present found ≡ true
    → (m.cr3 == 0) ≡ false
    → page &&& 4095 ≡ 0
    → canonical page ≡ true
    → (n : Mmu) × ((look_up host (suc fuel) (record (reset_tlb m) { invalidated = false }) page
          ≡ ok (n, entry_of found))
        × (IsCoherent n × ((other : ℕ) → walk n other ≡ walk m other)))
unfolding reset_tlb must_lock Answers walk descend read_slot get_page_address load_pte
outdated host fuel m page found quiet walked present rooted aligned in_range =
    look_up-present host fuel (record (reset_tlb m) { invalidated = false }) page
      (reset_tlb-IsCoherent m) quiet found walked present rooted aligned in_range

-- Where the buffer is coherent or marked as outdated and CR3 is set, the lookup of an aligned address
-- in range that takes no lock, whose walk ends without an abort and finds no reserved entry, returns
-- the entry that the walk finds, or 0 where it finds none. It leaves a coherent buffer and the same
-- walks; a buffer that is marked as outdated is not consulted.
pub find_page_table_entry-walk :
    (host : Host) (fuel : ℕ) (m : Mmu) (page : ℕ) (found : Option (ℕ × ℕ))
    → (m.invalidated ≡ false → IsCoherent m)
    → must_lock m page ≡ ok false
    → walk m page ≡ ok found
    → is_present found ≡ true
    → (m.cr3 == 0) ≡ false
    → page &&& 4095 ≡ 0
    → canonical page ≡ true
    → (n : Mmu) × ((find_page_table_entry host (suc fuel) m page ≡ ok (n, entry_of found))
        × (IsCoherent n × ((other : ℕ) → walk n other ≡ walk m other)))
unfolding find_page_table_entry Answers
find_page_table_entry-walk host fuel m page found coherent quiet walked present rooted aligned
      in_range =
    elim (Bool-cases m.invalidated) [
      | inl e ↦
          subst answers (sym e)
            (outdated host fuel m page found quiet walked present rooted aligned in_range)
      | inr e ↦ subst answers (sym e) (
          look_up-present host fuel m page (coherent e) quiet found walked present rooted aligned
            in_range)
    ]
  where
    answers : Bool → Type 0
    answers b =
        Answers m
          (look_up host (suc fuel) (if b then record (reset_tlb m) { invalidated = false } else m)
            page)
          found
