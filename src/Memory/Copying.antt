-- ===== src/Memory/Copying.antt =====
-- Outside a system call every copy out of the guest ends: native/blink/blink/memory.c.
use atua_computer.Memory.Ending.{
  Ends-IsOutside, Ends-aborted, find_page_table_entry-Ends, resolve-Ends,
}
use atua_computer.Bits.{bit_and_mask}
use atua_computer.Memory.Lookup.{
  copy_out, copy_from_user, bytes_at, page_rest_of, join_copy, is_paged, lookup_real,
  lookup_address, lookup_address2, page_of,
}
use atua_computer.Memory.Find.{find_page_table_entry}
use atua_computer.Memory.{no_fuel, page_u, ◌>>=◌, Result, Host, ok, aborted, Mmu}
use atua_computer.Memory.Rounds.{IsOutside, Ends-either, Ends, Ends->>=}
use atua_computer.Base.{
  ℕ, ◌==◌, Bool, zero, suc, ◌+◌, ◌≡◌, true, false, [], ℤ, negsuc, ◌-◌, ◌%◌, ◌^◌, ◌≤◌, ◌≢◌, subst,
  arith, ◌&&&◌, List, if◌then◌else◌,
}

-- A translation ends, in three rounds at most of each loop.
lookup_address-Ends :
    (host : Host) (fuel : ℕ) (m : Mmu) (virt : ℕ)
    → m.insyscall ≡ false
    → Ends (IsOutside {A = ℕ}) (lookup_address host (suc (suc (suc fuel))) m virt)
unfolding lookup_address lookup_address2 lookup_real IsOutside
lookup_address-Ends host fuel m virt outside =
    let need = if m.cpl == 3 then page_u else 0 in
    Ends-either (IsOutside {A = ℕ}) (is_paged m) _ (lookup_real m virt)
      (Ends->>= (IsOutside {A = ℕ}) (IsOutside {A = ℕ})
        (find_page_table_entry host (suc (suc (suc fuel))) m (page_of virt)) _
        (find_page_table_entry-Ends host fuel m outside (page_of virt))
        (λ r out. resolve-Ends host fuel r.0 out virt need need r.1))
      (search (Ends-either, Ends-aborted, Ends-IsOutside))

-- What a round leaves to copy is less.
fewer : (v n : ℕ) → suc n - page_rest_of v (suc n) ≤ n
fewer v n = let below : v &&& 4095 ≡ v % 4096 = bit_and_mask 12 v in omega (arith, below)

copied-Ends :
    (k : ℕ) (r : Mmu × ℕ) (rest : Result (Mmu × (List ℕ × ℤ))) (b : Bool)
    → r.0.insyscall ≡ false
    → Ends (IsOutside {A = List ℕ × ℤ}) rest
    → Ends (IsOutside {A = List ℕ × ℤ}) (elim b [
      | true ↦ ok (r.0, ([], negsuc 0))
      | false ↦ rest >>= λ s. ok (join_copy (bytes_at k r.0.mem r.1) s)
    ])
unfolding Ends IsOutside
copied-Ends k r rest true outside ends = outside
copied-Ends k r (ok (m, (bytes, rc))) false outside ends = ends
copied-Ends k r aborted false outside ends = tt
copied-Ends k r no_fuel false outside ends = ends

-- A copy ends when it may go round once for each byte.
copy_out-Ends :
    (host : Host) (fuel rounds : ℕ) (m : Mmu) (v n : ℕ)
    → m.insyscall ≡ false
    → n ≤ rounds
    → Ends (IsOutside {A = List ℕ × ℤ}) (copy_out host (suc (suc (suc fuel))) rounds m v n)
unfolding copy_out Ends IsOutside
copy_out-Ends host fuel rounds m v zero outside enough = outside
copy_out-Ends host fuel zero m v (suc n) outside enough = absurd (omega arith)
copy_out-Ends host fuel (suc rounds) m v (suc n) outside enough =
    let k = page_rest_of v (suc n) in
    Ends->>= (IsOutside {A = ℕ}) (IsOutside {A = List ℕ × ℤ})
      (lookup_address host (suc (suc (suc fuel))) m v) _ (lookup_address-Ends host fuel m v outside)
      (λ r out.
        copied-Ends k r
          (copy_out host (suc (suc (suc fuel))) rounds r.0 ((v + k) % 2 ^ 64) (suc n - k))
          (r.1 == 0) out
          (copy_out-Ends host fuel rounds r.0 ((v + k) % 2 ^ 64) (suc n - k) out
            (omega (arith, fewer v n))))

Ends-not_no_fuel : {A : Type 0} (p : A → Type 0) (r : Result A) → Ends p r → r ≢ no_fuel
unfolding Ends
Ends-not_no_fuel p r ends e = subst (Ends p) e ends

-- Outside a system call a copy out of the guest comes to an end, whatever the tables hold: three
-- rounds of each loop are enough for a translation, and a byte is copied in each round.
pub copy_from_user-Ends :
    (host : Host) (fuel : ℕ) (m : Mmu) (src n : ℕ)
    → m.insyscall ≡ false
    → copy_from_user host (suc (suc (suc fuel))) m src n ≢ no_fuel
unfolding copy_from_user
copy_from_user-Ends host fuel m src n outside =
    Ends-not_no_fuel (IsOutside {A = List ℕ × ℤ}) (copy_out host (suc (suc (suc fuel))) n m src n)
      (copy_out-Ends host fuel n m src n outside (omega arith))
