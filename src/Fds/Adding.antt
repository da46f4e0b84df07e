-- ===== src/Fds/Adding.antt =====
-- A descriptor is added to the table: native/blink/blink/fds.c.
use atua_computer.Base.{
  pos, if_true, ℕ, ◌≡◌, ◌≢◌, inl, inr, refl, sym, ap, subst, ◌==◌, not, none, List, [], ◌∷◌, ◌++◌,
  if_equal, if_unequal,
}
use atua_computer.Dll.{Links, dll_init, set_next}
use atua_computer.Dll.Path.{Avoids, froms-append, set_next-IsPath, set_prev-IsPath, Avoids-split}
use atua_computer.Dll.Ring.{IsDll, IsRing, IsAlone, nonzero, dll_make_first-IsDll}
use atua_computer.Fds.{Fds, add_fd, link_fd, blank_fd}
use atua_computer.Fds.Table.{IsFds}

-- A new node is on its own, and the lists that it is not in stay as they are.
dll_init-IsAlone : (l : Links) (e : ℕ) → e ≢ 0 → IsAlone (dll_init l e) e
unfolding dll_init IsAlone
dll_init-IsAlone l e ne = (ne, if_equal e e e (l.next e) refl, if_equal e e e (l.prev e) refl)

dll_init-IsDll :
    (l : Links) (e list : ℕ) (items : List ℕ)
    → Avoids e items
    → IsDll l list items
    → IsDll (dll_init l e) list items
unfolding IsDll IsRing dll_init Avoids
dll_init-IsDll l e list items free (inl empty) = inl empty
dll_init-IsDll l e list items free (inr (ys, listed, (p0, y0, d, path))) =
    let apart = subst (Avoids e) listed free in
    let (e_ys, e_p) = Avoids-split e ys (list ∷ []) apart in
    inr (
      ys,
      listed,
      (
        p0,
        y0,
        d,
        set_prev-IsPath (set_next l e e) e e list (ys ++ (list ∷ [])) apart (
            set_next-IsPath l e e list (ys ++ (list ∷ []))
              (subst (Avoids e) (sym (froms-append list list ys)) (e_p.0, e_ys)) path),
      ),
    )

-- A descriptor for which there is memory is put first, with its number and flags and nothing else;
-- the others keep their order and what they hold.
pub add_fd-IsFds :
    (fds : Fds) (fildes oflags new : ℕ) (items : List ℕ)
    → IsFds fds items
    → new ≢ 0
    → Avoids new items
    → (after : Fds) × (add_fd fds (pos fildes) oflags new ≡ (after, new, none))
      × IsFds after (new ∷ items)
      × (after.fd new ≡ record blank_fd { fildes = pos fildes; oflags = oflags })
      × ((other : ℕ) → other ≢ new → after.fd other ≡ fds.fd other)
unfolding add_fd link_fd IsFds
add_fd-IsFds fds fildes oflags new items listed ne free =
    let fd = record blank_fd { fildes = pos fildes; oflags = oflags } in
    (
      link_fd fds new fd,
      if_true (not (new == 0)) (link_fd fds new fd, new, none) (fds, 0, none)
          (ap not (nonzero new ne)),
      dll_make_first-IsDll (dll_init fds.links new) fds.list new items
          (dll_init-IsDll fds.links new fds.list items free listed)
          (dll_init-IsAlone fds.links new ne) free,
      if_equal new new fd (fds.fd new) refl,
      λ other differs. if_unequal other new fd (fds.fd other) differs,
    )
