-- ===== src/Memory/Rounds.antt =====
-- How often the loops of native/blink/blink/memory.c go round outside a system call: a page fault
-- twice at most, the walk once, and a copy as often as it has bytes.
use atua_computer.Memory.{
  page_mug, page_v, page_rw, page_u, page_ta, segv_maperr, Result, ok, aborted, no_fuel, ◌>>=◌, Mmu,
  Host, page_rsrv, page_host, page_map, has,
}
use atua_computer.Memory.Pages.{
  take_page, free_anonymous_page, allocate_anonymous_page, track_host_page, make_entry, load_pte,
  store_pte, cas_pte,
}
use atua_computer.Memory.Fault.{
  commit_loop, while_reserved, commit_page, commit_anonymous, commit_mapped,
}
use atua_computer.Base.{
  ℕ, ◌+◌, ◌-◌, ◌≡◌, ◌⊎◌, inl, inr, refl, sym, ◌∙◌, ap, subst, arith, ◌&&&◌, ◌|||◌, not64, ◌==◌,
  true, false, Bool, not, Bool-cases, if◌then◌else◌, ◌<<<◌, Option, none, some, List, [], ◌∷◌, ◌++◌,
  length, suc, ==_iff,
}
use atua_computer.Bits.{bit_and-zero}
use mathlib.Core.Bool.{true≢false}
use atua_computer.Bits.Masks.{bit_and_assoc}
use atua_computer.Memory.Entry.{merged, merged-page_rsrv}

-- A call comes to an end, and what it returns has a property.
unfoldable pub Ends : {A : Type 0} → (A → Type 0) → Result A → Type 0
Ends p (ok a) = p a
Ends p aborted = Unit
Ends p no_fuel = ⊥

pub Ends->>= :
    {A B : Type 0} (p : A → Type 0) (q : B → Type 0) (r : Result A) (f : A → Result B)
    → Ends p r
    → ((a : A) → p a → Ends q (f a))
    → Ends q (r >>= f)
unfolding Ends
Ends->>= p q (ok a) f e g = g a e
Ends->>= p q aborted f e g = tt
Ends->>= p q no_fuel f e g = e

-- The machine that is left is not in a system call.
unfoldable pub IsOutside : {A : Type 0} → Mmu × A → Type 0
IsOutside r = r.0.insyscall ≡ false

-- A round ends the loop, or it found another entry in the slot and read that.
IsNext : Mmu → ℕ → ℕ → Mmu × ℕ → Type 0
IsNext m pslot entry r =
    ((has r.1 page_rsrv ≡ false)
      ⊎ ((load_pte r.0 pslot ≡ r.1) × ((load_pte m pslot == entry) ≡ false)))
    × (r.0.insyscall ≡ false)

pub Ends-if :
    {A : Type 0} (p : A → Type 0) (b : Bool) (x y : Result A)
    → (b ≡ true → Ends p x)
    → (b ≡ false → Ends p y)
    → Ends p (if b then x else y)
Ends-if p true x y f g = f refl
Ends-if p false x y f g = g refl

pub Ends-either :
    {A : Type 0} (p : A → Type 0) (b : Bool) (x y : Result A)
    → Ends p x
    → Ends p y
    → Ends p (if b then x else y)
Ends-either p true x y f g = f
Ends-either p false x y f g = g

cas_pte-cases :
    (m : Mmu) (pslot old new : ℕ)
    → (cas_pte m pslot old new ≡ (store_pte m pslot new, true))
      ⊎ ((cas_pte m pslot old new ≡ (m, false)) × ((load_pte m pslot == old) ≡ false))
unfolding cas_pte
cas_pte-cases m pslot old new = elim (Bool-cases (load_pte m pslot == old)) [
  | inl e ↦ inl (rw e refl)
  | inr e ↦ inr (rw e refl, e)
]

module _ (host : Host) (m : Mmu) (pslot entry : ℕ) (outside : m.insyscall ≡ false) where
  commit_mapped-IsNext : Ends (IsNext m pslot entry) (commit_mapped m pslot entry)
  unfolding commit_mapped Ends IsNext store_pte
  commit_mapped-IsNext =
      Ends-if (IsNext m pslot entry)
        (not ((entry &&& (page_host ||| page_map)) == (page_host ||| page_map))) aborted
        (tried (cas_pte m pslot entry x)) (λ e. ended)
        (λ e. elim (cas_pte-cases m pslot entry x) [
          | inl c ↦ subst (λ t. Ends (IsNext m pslot entry) (tried t)) (sym c) won
          | inr c ↦ subst (λ t. Ends (IsNext m pslot entry) (tried t)) (sym c.0) (lost c.1)
        ])
    where
      x : ℕ
      x = entry &&& not64 page_rsrv

      tried : Mmu × Bool → Result (Mmu × ℕ)
      tried (n, swapped) =
          if swapped
          then ok (
            record n { committed = n.committed + 1; reserved = n.reserved - 1; rss = n.rss + 1 },
            x,
          )
          else ok (n, load_pte n pslot)

      ended : Ends (IsNext m pslot entry) aborted
      ended = tt

      won : Ends (IsNext m pslot entry) (tried (store_pte m pslot x, true))
      won = (
        inl (
            ap (λ t. not (t == 0))
              (bit_and_assoc entry (not64 page_rsrv) page_rsrv
                ∙ bit_and-zero entry entry (omega arith))),
        outside,
      )

      lost : (load_pte m pslot == entry) ≡ false → Ends (IsNext m pslot entry) (tried (m, false))
      lost other = (inr (refl, other), outside)

  -- An allocation leaves the slot alone.
  IsLike : Mmu × Option ℕ → Type 0
  IsLike r = (load_pte r.0 pslot ≡ load_pte m pslot) × (r.0.insyscall ≡ false)

  make_entry-IsLike : (taken : Option (ℕ × List ℕ)) → Ends IsLike (make_entry m taken)
  unfolding Ends IsLike make_entry track_host_page load_pte
  make_entry-IsLike none = (refl, outside)
  make_entry-IsLike (some (page, pages)) =
      Ends-if IsLike (has (length m.hostpages <<< 12) (not64 page_ta)) aborted
        (ok (
          record m { hostpages = m.hostpages ++ (page ∷ []); free_pages = pages; rss = m.rss + 1 },
          some ((length m.hostpages <<< 12) ||| page_host ||| page_u ||| page_rw ||| page_v),
        ))
        (λ e. tt) (λ e. (refl, outside))

  commit_anonymous-IsNext : Ends (IsNext m pslot entry) (commit_anonymous host m pslot entry)
  unfolding commit_anonymous Ends IsNext IsLike store_pte allocate_anonymous_page
      free_anonymous_page
  commit_anonymous-IsNext =
      Ends->>= IsLike (IsNext m pslot entry) (make_entry m (take_page host m.free_pages)) rest
        (make_entry-IsLike (take_page host m.free_pages)) after
    where
      tried : ℕ → ℕ → Mmu × Bool → Result (Mmu × ℕ)
      tried page x (o, swapped) =
          if swapped
          then ok (record o { committed = o.committed + 1; reserved = o.reserved - 1 }, x)
          else (let freed = free_anonymous_page o (page &&& page_ta) in
              ok (record freed { rss = freed.rss - 1 }, load_pte freed pslot))

      rest : Mmu × Option ℕ → Result (Mmu × ℕ)
      rest (n, none) = ok (record n { segvcode = segv_maperr }, 0)
      rest (n, some page) = let x = merged page entry in tried page x (cas_pte n pslot entry x)

      after : (r : Mmu × Option ℕ) → IsLike r → Ends (IsNext m pslot entry) (rest r)
      after (n, none) (like, out) = (inl refl, out)
      after (n, some page) (like, out) = elim (cas_pte-cases n pslot entry (merged page entry)) [
        | inl c ↦
            subst (λ t. Ends (IsNext m pslot entry) (tried page (merged page entry) t)) (sym c)
              (inl (ap (λ t. not (t == 0)) (merged-page_rsrv page entry)), out)
        | inr c ↦
            subst (λ t. Ends (IsNext m pslot entry) (tried page (merged page entry) t)) (sym c.0)
              (inr (refl, subst (λ t. (t == entry) ≡ false) like c.1), out)
      ]

  commit_page-IsNext : Ends (IsNext m pslot entry) (commit_page host m pslot entry)
  unfolding commit_page
  commit_page-IsNext =
      Ends-if (IsNext m pslot entry) (has entry (page_host ||| page_map ||| page_mug))
        (commit_mapped m pslot entry) (commit_anonymous host m pslot entry)
        (λ e. commit_mapped-IsNext) (λ e. commit_anonymous-IsNext)

module _ (host : Host) (fuel : ℕ) where
  last_round :
      (m : Mmu) (pslot entry : ℕ)
      → m.insyscall ≡ false
      → load_pte m pslot ≡ entry
      → Ends IsOutside (commit_loop host (suc fuel) m pslot entry)
  unfolding commit_loop while_reserved Ends IsOutside IsNext
  last_round m pslot entry outside same =
      Ends->>= (IsNext m pslot entry) IsOutside (commit_page host m pslot entry)
        (while_reserved (λ r. commit_loop host fuel r.0 pslot r.1))
        (commit_page-IsNext host m pslot entry outside) after
    where
      after :
          (r : Mmu × ℕ)
          → IsNext m pslot entry r
          → Ends IsOutside (while_reserved (λ r. commit_loop host fuel r.0 pslot r.1) r)
      after r (inl e, out) =
          subst (λ b. Ends IsOutside (if b then commit_loop host fuel r.0 pslot r.1 else ok r))
            (sym e) out
      after r (inr (e, other), out) =
          absurd (true≢false (sym ((==_iff (load_pte m pslot) entry).1 same) ∙ other))

  -- Two rounds are enough for a page fault.
  pub commit_loop-Ends :
      (m : Mmu) (pslot entry : ℕ)
      → m.insyscall ≡ false
      → Ends IsOutside (commit_loop host (suc (suc fuel)) m pslot entry)
  unfolding commit_loop while_reserved Ends IsOutside IsNext
  commit_loop-Ends m pslot entry outside =
      Ends->>= (IsNext m pslot entry) IsOutside (commit_page host m pslot entry)
        (while_reserved (λ r. commit_loop host (suc fuel) r.0 pslot r.1))
        (commit_page-IsNext host m pslot entry outside) after
    where
      after :
          (r : Mmu × ℕ)
          → IsNext m pslot entry r
          → Ends IsOutside (while_reserved (λ r. commit_loop host (suc fuel) r.0 pslot r.1) r)
      after r (inl e, out) =
          subst
            (λ b. Ends IsOutside (if b then commit_loop host (suc fuel) r.0 pslot r.1 else ok r))
            (sym e) out
      after r (inr (e, other), out) =
          Ends-if IsOutside (has r.1 page_rsrv) (commit_loop host (suc fuel) r.0 pslot r.1) (ok r)
            (λ b. last_round r.0 pslot r.1 out e) (λ b. out)
