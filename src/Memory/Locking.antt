-- ===== src/Memory/Locking.antt =====
-- A page lock is taken and given back: native/blink/blink/memory.c.
use atua_computer.Memory.Find.{
  has_page_lock, is_locked, is_deepest, fill_tlb, take_lock, record_page_lock, release_page_lock,
}
use atua_computer.Memory.Bytes.{read_bytes-lt, read_bytes-write_bytes, IsBytes}
use atua_computer.Memory.Commit.{cas_pte-same}
use atua_computer.Memory.{PageLock, Host, ok, Mmu, page_v, page_lock, page_locks, has}
use atua_computer.Memory.Locks.{collect_loop, collect_page_locks, has_outdated_page_locks}
use atua_computer.Memory.Pages.{load_pte, store_pte}
use atua_computer.Base.{
  ℕ, ◌+◌, ◌*◌, ◌/◌, ◌%◌, ◌^◌, ◌<◌, ◌≡◌, sym, ◌∙◌, ap, subst, arith, ◌&&&◌, ◌==◌, ltb, true, not,
  ◌-◌, inl, inr, refl, ◌>>>◌, false, ◌∷◌, length, Bool-cases, some, List, [], ==_iff,
}
use atua_computer.Bits.Masks.{bit_and_field}
use atua_computer.Bits.{bit_and-one}

-- The number of locks in an entry.
abbrev pub lock_count : ℕ → ℕ
lock_count entry = entry / 2 ^ 55 % 256

bit_and-page_locks : (entry : ℕ) → entry &&& page_locks ≡ lock_count entry * 2 ^ 55
bit_and-page_locks entry = bit_and_field 55 8 entry

module _ (entry : ℕ) (room : ltb (entry &&& page_locks) page_locks ≡ true) where
  few : lock_count entry < 255
  few =
      subst (λ t. ltb t page_locks ≡ true → lock_count entry < 255) (sym (bit_and-page_locks entry))
        (λ e. ground (arith, e)) room

  pub locked-lt : entry < 2 ^ 64 → entry + page_lock < 2 ^ 64
  locked-lt small = omega (arith, few)

  locked-count : lock_count (entry + page_lock) ≡ lock_count entry + 1
  locked-count = omega (arith, few)

  pub locked-page_locks : has (entry + page_lock) page_locks ≡ true
  locked-page_locks =
      subst (λ t. not (t == 0) ≡ true) (sym (bit_and-page_locks (entry + page_lock)))
        (ground (arith, locked-count))

  pub locked-page_v : has entry page_v ≡ true → has (entry + page_lock) page_v ≡ true
  locked-page_v valid =
      ap (λ t. not (t == 0))
        (bit_and-one (entry + page_lock)
          ∙ omega (arith, bit_and-one entry)
          ∙ sym (bit_and-one entry))
      ∙ valid

-- The lock that is put first, in an array that may have grown.
recorded : Mmu → ℕ → ℕ → ℕ → Mmu
recorded m page pslot lock_room = record m {
  locks = record { page = page; pslot = pslot; sysdepth = m.sysdepth } ∷ m.locks;
  lock_room = lock_room;
}

-- A lock that the last call left behind is not deeper than this one.
is_deepest-back :
    (depth : ℕ) (locks : List PageLock)
    → (depth == 0) ≡ false
    → has_outdated_page_locks (depth - 1) locks ≡ false
    → is_deepest depth locks ≡ true
unfolding is_deepest has_outdated_page_locks
is_deepest-back depth [] inside others = refl
is_deepest-back depth (lock ∷ locks) inside others = ground (arith, inside, others)

record_page_lock-grows :
    (host : Host) (m : Mmu) (page pslot : ℕ)
    → host.grow_locks ≡ true
    → (m.sysdepth == 0) ≡ false
    → is_deepest m.sysdepth m.locks ≡ true
    → (lock_room : ℕ) × (record_page_lock host m page pslot
        ≡ ok (recorded m page pslot lock_room, true))
unfolding record_page_lock recorded
record_page_lock-grows host m page pslot grows inside deepest =
    elim (Bool-cases (length m.locks == m.lock_room)) [
      | inl e ↦ (m.lock_room + 3 + ((m.lock_room + 3) >>> 1), rw (inside, deepest, e, grows) refl)
      | inr e ↦ (m.lock_room, rw (inside, deepest, e) refl)
    ]

-- A released lock lowers the count in the entry.
release_page_lock-back :
    (m : Mmu) (pslot entry : ℕ)
    → load_pte m pslot ≡ entry + page_lock
    → has entry page_v ≡ true
    → ltb (entry &&& page_locks) page_locks ≡ true
    → release_page_lock m pslot ≡ ok (store_pte m pslot entry)
unfolding release_page_lock
release_page_lock-back m pslot entry same valid room =
    let back : (entry + page_lock) - page_lock ≡ entry = omega arith in
    rw (same, locked-page_v entry room valid, locked-page_locks entry room, back) refl

collect_loop-done :
    (locks : List PageLock) (m : Mmu)
    → has_outdated_page_locks m.sysdepth locks ≡ false
    → collect_loop locks m ≡ ok (record m { locks = locks })
unfolding collect_loop has_outdated_page_locks
collect_loop-done [] m e = refl
collect_loop-done (lock ∷ locks) m e = rw e refl

-- The first lock is collected, and no other.
collect_page_locks-one :
    (m : Mmu) (lock : PageLock) (locks : List PageLock) (entry : ℕ)
    → m.locks ≡ lock ∷ locks
    → ltb m.sysdepth lock.sysdepth ≡ true
    → has_outdated_page_locks m.sysdepth locks ≡ false
    → load_pte m lock.pslot ≡ entry + page_lock
    → has entry page_v ≡ true
    → ltb (entry &&& page_locks) page_locks ≡ true
    → collect_page_locks m ≡ ok (record (store_pte m lock.pslot entry) { locks = locks })
unfolding collect_page_locks collect_loop has_outdated_page_locks store_pte
collect_page_locks-one m lock locks entry held deeper others same valid room =
    rw (held, deeper, released) (collect_loop-done locks _ others)
  where
    released :
        release_page_lock (record m { locks = locks }) lock.pslot
        ≡ ok (store_pte (record m { locks = locks }) lock.pslot entry)
    released = release_page_lock-back (record m { locks = locks }) lock.pslot entry same valid room

module _ (host : Host) (m : Mmu) (page pslot entry : ℕ) (inside : (m.sysdepth == 0) ≡ false)
    (same : load_pte m pslot ≡ entry) (room : ltb (entry &&& page_locks) page_locks ≡ true) where
  abbrev stored : Mmu
  stored = store_pte m pslot (entry + page_lock)

  entry-lt : IsBytes m.mem → entry < 2 ^ 64
  unfolding load_pte
  entry-lt bytes = subst (λ t. t < 2 ^ 64) same (read_bytes-lt 8 m.mem pslot bytes)

  stored-load_pte : IsBytes m.mem → load_pte stored pslot ≡ entry + page_lock
  unfolding load_pte store_pte
  stored-load_pte bytes =
      read_bytes-write_bytes 8 m.mem pslot (entry + page_lock)
        (locked-lt entry room (entry-lt bytes))

  take_lock-grows :
      host.grow_locks ≡ true
      → IsBytes m.mem
      → is_deepest m.sysdepth m.locks ≡ true
      → (lock_room : ℕ) × (take_lock host m page pslot entry
          ≡ ok (
            fill_tlb (recorded stored page pslot lock_room) page (entry + page_lock),
            some (entry + page_lock),
          ))
  unfolding take_lock store_pte
  take_lock-grows grows bytes deepest =
      let (lock_room, added) = record_page_lock-grows host stored page pslot grows inside deepest in
      (
        lock_room,
        rw
            (
              room,
              cas_pte-same m pslot entry (entry + page_lock) same,
              stored-load_pte bytes,
              locked-page_locks entry room,
              added,
            )
            refl,
      )

  take_lock-round :
      (lock_room : ℕ)
      → IsBytes m.mem
      → has entry page_v ≡ true
      → has_outdated_page_locks (m.sysdepth - 1) m.locks ≡ false
      → collect_page_locks
          (record (fill_tlb (recorded stored page pslot lock_room) page (entry + page_lock)) {
            sysdepth = m.sysdepth - 1;
          })
        ≡ ok
            (record (store_pte
              (record (fill_tlb (recorded stored page pslot lock_room) page (entry + page_lock)) {
                sysdepth = m.sysdepth - 1;
              })
              pslot
              entry) { locks = m.locks })
  unfolding recorded store_pte load_pte
  take_lock-round lock_room bytes valid others =
      collect_page_locks-one
        (record (fill_tlb (recorded stored page pslot lock_room) page (entry + page_lock)) {
          sysdepth = m.sysdepth - 1;
        })
        (record { page = page; pslot = pslot; sysdepth = m.sysdepth }) m.locks entry refl
        (ground (arith, inside)) others
        (read_bytes-write_bytes 8 m.mem pslot (entry + page_lock)
          (locked-lt entry room (entry-lt bytes)))
        valid room

-- A system call locks an aligned page whose valid entry has room for a lock and stands in its slot,
-- where the array of locks may grow and no lock is deeper than the caller of the call: no assertion
-- fails, the page counts as locked and its entry holds the lock. When the call has ended the lock is
-- collected, the entry is what it was, and so are the locks.
pub take_lock-collect_page_locks :
    (host : Host) (m : Mmu) (page pslot entry : ℕ)
    → host.grow_locks ≡ true
    → (m.sysdepth == 0) ≡ false
    → IsBytes m.mem
    → load_pte m pslot ≡ entry
    → has entry page_v ≡ true
    → ltb (entry &&& page_locks) page_locks ≡ true
    → has_outdated_page_locks (m.sysdepth - 1) m.locks ≡ false
    → page &&& 4095 ≡ 0
    → (n k : Mmu) × (take_lock host m page pslot entry ≡ ok (n, some (entry + page_lock)))
      × (load_pte n pslot ≡ entry + page_lock)
      × (has_page_lock n.locks page ≡ ok true)
      × (collect_page_locks (record n { sysdepth = m.sysdepth - 1 }) ≡ ok k)
      × (load_pte k pslot ≡ entry)
      × (k.locks ≡ m.locks)
unfolding load_pte store_pte recorded has_page_lock is_locked
take_lock-collect_page_locks host m page pslot entry grows inside bytes same valid room others
      aligned =
    let deepest = is_deepest-back m.sysdepth m.locks inside others in
    let (lock_room, taken) =
      take_lock-grows host m page pslot entry inside same room grows bytes deepest in
    let n =
      fill_tlb (recorded (store_pte m pslot (entry + page_lock)) page pslot lock_room) page
        (entry + page_lock) in
    (
      n,
      record (store_pte (record n { sysdepth = m.sysdepth - 1 }) pslot entry) { locks = m.locks },
      taken,
      read_bytes-write_bytes 8 m.mem pslot (entry + page_lock)
          (locked-lt entry room (entry-lt host m page pslot entry inside same room bytes)),
      rw (aligned, (==_iff page page).1 refl) refl,
      take_lock-round host m page pslot entry inside same room lock_room bytes valid others,
      read_bytes-write_bytes 8 n.mem pslot entry
          (entry-lt host m page pslot entry inside same room bytes),
      refl,
    )
