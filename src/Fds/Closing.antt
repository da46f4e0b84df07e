-- ===== src/Fds/Closing.antt =====
-- All descriptors are freed and closed, each once and in their order: native/blink/blink/fds.c and
-- close.c.
use atua_computer.Fds.Close.{
  empty_loop, add_freed, destroy_fds, CloseHost, minus_one, add_closed, close_loop, close_fds,
  remove_found, finish_close, close_found, close_some, sys_close,
}
use atua_computer.Base.{
  ℤ, pos, length-append, if_true, if_false, ℕ, zero, suc, bit, bit_or, ap₂, ◌↔◌, ◌|||◌, ◌<◌, ◌≡◌,
  ◌≢◌, inl, inr, refl, ◌∙◌, ap, subst, arith, ◌==◌, not, none, some, List, [], ◌∷◌, ◌++◌, length,
  Bool-cases, if◌then◌else◌,
}
use atua_computer.Memory.{Result, ok, aborted, ◌>>=◌}
use atua_computer.Bits.{bit-bit_or, bit_ext, bit_or_comm, zero-bit_or}
use atua_computer.Bits.Place.{bit_above}
use atua_computer.Dll.{Links, dll_next, dll_remove}
use atua_computer.Dll.Ring.{IsDll, nonzero}
use atua_computer.Dll.Remove.{dll_remove-IsDll}
use atua_computer.Dll.Walk.{first_of, IsDll-nonzero, dll_first-first_of, dll_next-first_of}
use atua_computer.Fds.{Fds, ebadf, same_fildes}
use atua_computer.Fds.Table.{IsFds, find_fd, to_front, get_fd-IsFds}

IsDll-empty : (l : Links) (list : ℕ) → IsDll l list [] → list ≡ 0
unfolding IsDll
IsDll-empty l list (inl empty) = empty.0
IsDll-empty l list (inr (ys, listed, ring)) =
    absurd (omega (arith, length-append ys (list ∷ []), ap length listed))

empty_loop-all :
    (fuel : ℕ) (l : Links) (list : ℕ) (items : List ℕ)
    → IsDll l list items
    → length items < fuel
    → (after : Links) × (empty_loop fuel l list (first_of items) ≡ ok (after, 0, items))
unfolding empty_loop
empty_loop-all zero l list items listed enough = absurd (omega arith)
empty_loop-all (suc fuel) l list [] listed enough =
    (l, ap (λ p. ok (l, p, [])) (IsDll-empty l list listed))
empty_loop-all (suc fuel) l list (e ∷ ys) listed enough =
    let removed = dll_remove l list e in
    let (rest, alone) = dll_remove-IsDll l list e [] ys listed in
    let (after, emptied) = empty_loop-all fuel removed.0 removed.1 ys rest (omega arith) in
    (
      after,
      if_true (not (e == 0))
            (empty_loop fuel removed.0 removed.1 (dll_next l list e) >>= add_freed e)
            (ok (l, list, [])) (ap not (nonzero e (IsDll-nonzero l list e [] ys listed)))
          ∙ ap (λ t. empty_loop fuel removed.0 removed.1 t >>= add_freed e)
              (dll_next-first_of l list e [] ys listed)
          ∙ ap (λ t. t >>= add_freed e) emptied,
    )

-- `DestroyFds` frees every descriptor once, in the order of the table, and its last assertion holds.
pub destroy_fds-all :
    (fuel : ℕ) (fds : Fds) (items : List ℕ)
    → IsFds fds items
    → length items < fuel
    → (after : Fds) × (destroy_fds fuel fds ≡ ok (after, items)) × (after.list ≡ 0)
unfolding destroy_fds IsFds
destroy_fds-all fuel fds items listed enough =
    let (links, emptied) = empty_loop-all fuel fds.links fds.list items listed enough in
    (
      record fds { links = links; list = 0 },
      ap (λ t. empty_loop fuel fds.links fds.list t >>= finish)
            (dll_first-first_of fds.links fds.list items listed)
          ∙ ap (λ t. t >>= finish) emptied,
      refl,
    )
  where
    finish : Links × ℕ × List ℕ → Result (Fds × List ℕ)
    finish r = if r.1 == 0 then ok (record fds { links = r.0; list = r.1 }, r.2) else aborted

-- Every descriptor of a list is closed without a failure.
unfoldable pub AllClose : (ℕ → ℕ) → List ℕ → Type 0
AllClose close [] = Unit
AllClose close (e ∷ es) = (close e ≡ 0) × AllClose close es

none_set : (a b : ℕ) → bit_or a b ≡ 0 → a ≡ 0
none_set a b e =
    bit_ext a 0 λ k.
      omega (arith, bit-bit_or k a b, ap (bit k) e, bit_above 0 k 0 (omega arith) (omega arith))

both_clear : (a b : ℕ) → (bit_or a b ≡ 0) ↔ ((a ≡ 0) × (b ≡ 0))
both_clear a b = (
  λ e. (none_set a b e, none_set b a (bit_or_comm b a ∙ e)),
  λ (p, q). ap₂ bit_or p q ∙ zero-bit_or 0,
)

module _ (host : CloseHost) where
  -- The loop has closed the descriptors of a list in their order, and its `rc` is 0 if it was 0
  -- before and all could be closed.
  unfoldable Closes : ℕ → List ℕ → Result (Links × List ℕ × ℕ) → Type 0
  Closes rc items r =
      (after : Links) × (code : ℕ) × (r ≡ ok (after, items, code))
      × ((code ≡ 0) ↔ ((rc ≡ 0) × AllClose host.close items))

  close_loop-Closes :
      (fuel : ℕ) (l : Links) (list : ℕ) (items : List ℕ) (rc : ℕ)
      → IsDll l list items
      → length items < fuel
      → Closes rc items (close_loop fuel host l list (first_of items) rc)
  unfolding close_loop Closes AllClose
  close_loop-Closes zero l list items rc listed enough = absurd (omega arith)
  close_loop-Closes (suc fuel) l list [] rc listed enough = (l, rc, refl, (λ e. (e, tt), λ p. p.0))
  close_loop-Closes (suc fuel) l list (e ∷ ys) rc listed enough =
      let removed = dll_remove l list e in
      let more = rc ||| host.close e in
      let (rest, alone) = dll_remove-IsDll l list e [] ys listed in
      let (after, code, closed, clear) =
        close_loop-Closes fuel removed.0 removed.1 ys more rest (omega arith) in
      let split = both_clear rc (host.close e) in
      (
        after,
        code,
        if_true (not (e == 0))
              (close_loop fuel host removed.0 removed.1 (dll_next l list e) more >>= add_closed e)
              (ok (l, [], rc)) (ap not (nonzero e (IsDll-nonzero l list e [] ys listed)))
            ∙ ap (λ t. close_loop fuel host removed.0 removed.1 t more >>= add_closed e)
                (dll_next-first_of l list e [] ys listed)
            ∙ ap (λ t. t >>= add_closed e) closed,
        (
          λ zero_code.
              let (none_yet, later) = clear.0 zero_code in
              let (before, now) = split.0 none_yet in (before, (now, later)),
          λ (before, (now, later)). clear.1 (split.1 (before, now), later),
        ),
      )

-- `CloseFds` closes every descriptor of a list once, in its order, also after a failure, and what it
-- returns is 0 exactly when every descriptor was closed without a failure.
pub close_fds-all :
    (fuel : ℕ) (host : CloseHost) (l : Links) (list : ℕ) (items : List ℕ)
    → IsDll l list items
    → length items < fuel
    → (after : Links) × (rc : ℕ) × (close_fds fuel host l list ≡ ok (after, items, rc))
      × ((rc ≡ 0) ↔ AllClose host.close items)
unfolding close_fds Closes
close_fds-all fuel host l list items listed enough =
    let (after, rc, closed, clear) = close_loop-Closes host fuel l list items 0 listed enough in
    (
      after,
      rc,
      ap (λ t. close_loop fuel host l list t 0) (dll_first-first_of l list items listed) ∙ closed,
      (λ e. (clear.0 e).1, λ all. clear.1 (refl, all)),
    )

-- The list without the first descriptor of a number; `xs` are those before.
abbrev pub without : Fds → ℤ → List ℕ → List ℕ → List ℕ
without fds fildes xs [] = xs
without fds fildes xs (e ∷ ys) =
    if same_fildes (fds.fd e).fildes fildes
    then xs ++ ys
    else without fds fildes (xs ++ (e ∷ [])) ys

to_front-without :
    (fds : Fds) (fildes : ℤ) (xs items : List ℕ)
    → find_fd fds fildes items ≢ 0
    → to_front fds fildes xs items ≡ find_fd fds fildes items ∷ without fds fildes xs items
to_front-without fds fildes xs [] ne = absurd (ne refl)
to_front-without fds fildes xs (e ∷ ys) ne =
    elim (Bool-cases (same_fildes (fds.fd e).fildes fildes)) [
      | inl m ↦ rw m refl
      | inr m ↦ rw m (
          to_front-without fds fildes (xs ++ (e ∷ [])) ys
            (subst (λ b. (if b then e else find_fd fds fildes ys) ≢ 0) m ne))
    ]

-- `SysClose` of a number in the table takes its first descriptor out, the others keep their order. It
-- closes that descriptor and returns what `FinishClose` makes of the result.
pub sys_close-IsFds :
    (fuel : ℕ) (host : CloseHost) (fds : Fds) (fildes : ℕ) (items : List ℕ)
    → IsFds fds items
    → length items < fuel
    → find_fd fds (pos fildes) items ≢ 0
    → let e = find_fd fds (pos fildes) items in
      (after : Fds) × (sys_close fuel host fds (pos fildes)
        ≡ some (after, e, finish_close host e (host.close e), none))
      × IsFds after (without fds (pos fildes) [] items)
unfolding sys_close remove_found IsFds
sys_close-IsFds fuel host fds fildes items listed enough ne =
    let e = find_fd fds (pos fildes) items in
    let (found, got, order, kept) = get_fd-IsFds fuel fds fildes items listed enough in
    let first : IsDll found.links found.list (e ∷ without fds (pos fildes) [] items) =
      subst (IsDll found.links found.list) (to_front-without fds (pos fildes) [] items ne) order in
    let removed = dll_remove found.links found.list e in
    let after = record found { links = removed.0; list = removed.1 } in
    let errno = if e == 0 then some ebadf else none in
    (
      after,
      ap (close_some host) got
          ∙ ap (λ t. some (close_found host t))
              (if_true (not (e == 0)) (after, e, errno) (found, e, errno) (ap not (nonzero e ne)))
          ∙ ap₂ (λ rc t. some (after, e, rc, t))
              (if_false (e == 0) minus_one (finish_close host e (host.close e)) (nonzero e ne))
              (if_false (e == 0) (some ebadf) none (nonzero e ne)),
      (dll_remove-IsDll found.links found.list e [] (without fds (pos fildes) [] items) first).0,
    )
