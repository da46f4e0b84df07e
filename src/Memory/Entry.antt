-- ===== src/Memory/Entry.antt =====
-- The bits of a page table entry that `HandlePageFault` and `AllocateAnonymousPage` put together.
use atua_computer.Base.{
  subst, ℕ, ◌-◌, ◌*◌, ◌/◌, ◌%◌, ◌^◌, ◌<◌, ◌≡◌, refl, ◌∙◌, ap, ap₂, arith, bit_and, bit_or, ◌&&&◌,
  ◌|||◌, ◌<<<◌, not64,
}
use atua_computer.Bits.{bit_and-zero, bit_and-lt, bit_or-lt, bit_and_comm, zero-bit_or, bit_or-zero}
use atua_computer.Bits.Masks.{bit_and-bit_or, bit_and_assoc, bit_and_field, high_bit_and_low}
use atua_computer.Memory.{page_v, page_rw, page_u, page_rsrv, page_host, page_ta}
use native.Mathlib.Nat.{mod-eq_of_lt}

-- A page of the host as an entry, and the entry that a fault leaves.
abbrev pub fresh : ℕ → ℕ
fresh idx = (idx <<< 12) ||| page_host ||| page_u ||| page_rw ||| page_v

abbrev pub merged : ℕ → ℕ → ℕ
merged page entry = (page &&& (page_ta ||| page_host)) ||| (entry &&& not64 (page_ta ||| page_rsrv))

nothing : (x : ℕ) → bit_and x 0 ≡ 0
nothing x = bit_and-zero x x (omega arith)

pub bit_and-page_ta : (x : ℕ) → x &&& page_ta ≡ x / 4096 % 2 ^ 36 * 4096
bit_and-page_ta x = bit_and_field 12 36 x

-- A field of a merged entry comes from the one or from the other.
pub merged-bit_and :
    (page entry mask : ℕ)
    → merged page entry &&& mask
      ≡ (page &&& ((page_ta ||| page_host) &&& mask))
        ||| (entry &&& (not64 (page_ta ||| page_rsrv) &&& mask))
merged-bit_and page entry mask =
    bit_and-bit_or (page &&& (page_ta ||| page_host)) (entry &&& not64 (page_ta ||| page_rsrv)) mask
    ∙ ap₂ bit_or (bit_and_assoc page (page_ta ||| page_host) mask)
        (bit_and_assoc entry (not64 (page_ta ||| page_rsrv)) mask)

pub merged-page_rsrv : (page entry : ℕ) → merged page entry &&& page_rsrv ≡ 0
merged-page_rsrv page entry =
    merged-bit_and page entry page_rsrv ∙ ap₂ bit_or (nothing page) (nothing entry)

-- The bits of the entry that a fault does not decide.
abbrev pub page_rest : ℕ
page_rest = not64 (page_ta ||| page_host ||| page_rsrv)

pub merged-page_rest : (page entry : ℕ) → merged page entry &&& page_rest ≡ entry &&& page_rest
merged-page_rest page entry =
    merged-bit_and page entry page_rest
    ∙ ap (λ t. bit_or t (entry &&& page_rest)) (nothing page)
    ∙ zero-bit_or (entry &&& page_rest)

pub merged-page_ta : (page entry : ℕ) → merged page entry &&& page_ta ≡ page &&& page_ta
merged-page_ta page entry =
    merged-bit_and page entry page_ta
    ∙ ap (bit_or (page &&& page_ta)) (nothing entry)
    ∙ bit_or-zero (page &&& page_ta)

pub merged-lt : (page entry : ℕ) → merged page entry < 2 ^ 64
merged-lt page entry =
    bit_or-lt 64 (page &&& (page_ta ||| page_host)) (entry &&& not64 (page_ta ||| page_rsrv))
      (masked page (page_ta ||| page_host) (omega arith))
      (masked entry (not64 (page_ta ||| page_rsrv)) (omega arith))
  where
    masked : (x mask : ℕ) → mask < 2 ^ 64 → bit_and x mask < 2 ^ 64
    masked x mask small = subst (λ t. t < 2 ^ 64) (bit_and_comm mask x) (bit_and-lt 64 mask x small)

fresh-bit_and :
    (idx mask : ℕ)
    → fresh idx &&& mask
      ≡ ((idx * 4096) &&& mask)
        ||| (page_host &&& mask)
        ||| (page_u &&& mask)
        ||| (page_rw &&& mask)
        ||| (page_v &&& mask)
fresh-bit_and idx mask =
    rw
      (
        bit_and-bit_or (idx * 4096 ||| page_host ||| page_u ||| page_rw) page_v mask,
        bit_and-bit_or (idx * 4096 ||| page_host ||| page_u) page_rw mask,
        bit_and-bit_or (idx * 4096 ||| page_host) page_u mask,
        bit_and-bit_or (idx * 4096) page_host mask,
      )
      refl

pub fresh-page_ta : (idx : ℕ) → idx < 2 ^ 36 → fresh idx &&& page_ta ≡ idx * 4096
fresh-page_ta idx small =
    fresh-bit_and idx page_ta
    ∙ clear (idx * 4096 &&& page_ta)
    ∙ rw (bit_and-page_ta (idx * 4096)) (omega (arith, mod-eq_of_lt small))
  where
    clear : (a : ℕ) → a ||| 0 ||| 0 ||| 0 ||| 0 ≡ a
    clear a = rw (bit_or-zero a, bit_or-zero a, bit_or-zero a, bit_or-zero a) refl

pub fresh-page_host : (idx : ℕ) → fresh idx &&& page_host ≡ page_host
fresh-page_host idx =
    fresh-bit_and idx page_host
    ∙ ap (λ t. t ||| page_host ||| 0 ||| 0 ||| 0) (high_bit_and_low 12 idx page_host (omega arith))

-- The index of a page fits the address field.
pub index-fits : (idx : ℕ) → idx < 2 ^ 36 → (idx * 4096) &&& not64 page_ta ≡ 0
index-fits idx small =
    let top : bit_and ((2 ^ 16 - 1) * 2 ^ 48) (idx * 4096) ≡ 0 =
      bit_and_comm ((2 ^ 16 - 1) * 2 ^ 48) (idx * 4096)
      ∙ rw (bit_and_field 48 16 (idx * 4096)) (omega arith) in
    let bottom : bit_and 4095 (idx * 4096) ≡ 0 =
      bit_and_comm 4095 (idx * 4096) ∙ high_bit_and_low 12 idx 4095 (omega arith) in
    bit_and_comm (idx * 4096) (not64 page_ta)
    ∙ bit_and-bit_or ((2 ^ 16 - 1) * 2 ^ 48) 4095 (idx * 4096)
    ∙ ap₂ bit_or top bottom
