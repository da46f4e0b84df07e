-- ===== src/Dll/Ring.antt =====
-- The list that a ring of nodes stands for, and the insertion at its ends: native/blink/blink/dll.c.
use atua_computer.Dll.Path.{
  IsPath-append, IsPath, Avoids, froms, end_of, set_next-IsPath, set_prev-IsPath, froms-append,
  Avoids-append, Avoids-split,
}
use atua_computer.Base.{
  if_true, ℕ, ◌≡◌, ◌≢◌, ◌⊎◌, inl, inr, refl, sym, ◌∙◌, ap, subst, ◌==◌, false, not, List, [], ◌∷◌,
  ◌++◌, if_equal, if_unequal, ==_iff, Bool-cases, if◌then◌else◌,
}
use atua_computer.Dll.{Links, dll_splice_after, dll_make_first, dll_make_last}

-- No node is named twice.
unfoldable pub Distinct : List ℕ → Type 0
Distinct [] = Unit
Distinct (x ∷ xs) = Avoids x xs × Distinct xs

-- `p` and the nodes before it, linked in a ring.
unfoldable pub IsRing : Links → ℕ → List ℕ → Type 0
IsRing l p ys = (p ≢ 0) × Avoids 0 ys × Distinct (p ∷ ys) × IsPath l p (ys ++ (p ∷ []))

-- A pointer and the nodes of its list, from the first on.
unfoldable pub IsDll : Links → ℕ → List ℕ → Type 0
IsDll l list items =
    ((list ≡ 0) × (items ≡ [])) ⊎ ((ys : List ℕ) × (items ≡ ys ++ (list ∷ [])) × IsRing l list ys)

-- A node that is linked to itself alone.
unfoldable pub IsAlone : Links → ℕ → Type 0
IsAlone l e = (e ≢ 0) × (l.next e ≡ e) × (l.prev e ≡ e)

-- A node put between `p` and the node after it.
inserted :
    (l : Links) (p e t : ℕ) (ts : List ℕ)
    → l.prev e ≡ e
    → p ≢ e
    → t ≢ e
    → Avoids p (froms t ts)
    → Avoids e (froms t ts)
    → Avoids e ts
    → Avoids t ts
    → IsPath l p (t ∷ ts)
    → IsPath (dll_splice_after l p e) p (e ∷ t ∷ ts)
unfolding IsPath dll_splice_after
inserted l p e t ts alone pe te p_out e_out e_in t_in (out, back, path) =
    (out_p, back_e, (out_e, back_t, rest))
  where
    after : Links
    after = dll_splice_after l p e

    out_p : after.next p ≡ e
    out_p = rw alone (
        if_unequal p e (l.next p) (if p == p then e else l.next p) pe
        ∙ if_equal p p e (l.next p) refl)

    back_e : after.prev e ≡ p
    back_e =
        rw (alone, out)
          (if_unequal e t e (if e == e then p else e) (λ s. te (sym s)) ∙ if_equal e e p e refl)

    out_e : after.next e ≡ t
    out_e = rw alone (if_equal e e (l.next p) (if e == p then e else l.next e) refl ∙ out)

    back_t : after.prev t ≡ e
    back_t = rw (alone, out) (if_equal t t e _ refl)

    rest : IsPath after t ts
    rest =
        rw (alone, out)
          (set_prev-IsPath _ t e t ts t_in (
            set_next-IsPath _ e t t ts e_out
              (set_prev-IsPath _ e p t ts e_in (set_next-IsPath l p e t ts p_out path))))

-- A node on its own becomes the first of a ring.
inserted-IsRing :
    (l : Links) (p e : ℕ) (ys : List ℕ)
    → IsAlone l e
    → Avoids e (ys ++ (p ∷ []))
    → IsRing l p ys
    → IsRing (dll_splice_after l p e) p (e ∷ ys)
unfolding IsRing IsAlone Distinct Avoids IsPath
inserted-IsRing l p e [] (e0, out, back) (pe, tt) (p0, y0, (p_y, d), path) = (
  p0,
  (e0, y0),
  (((λ s. pe (sym s)), tt), (tt, tt)),
  inserted l p e p [] back pe pe tt tt tt tt path,
)
inserted-IsRing l p e (y ∷ ys) (e0, out, back) (ye, free) (p0, y0, (p_y, d), path) =
    let (e_ys, pe) = Avoids-split e ys (p ∷ []) free in
    let leaves = sym (froms-append y p ys) in
    (
      p0,
      (e0, y0),
      (((λ s. pe.0 (sym s)), p_y), ((ye, e_ys), d)),
      inserted l p e y (ys ++ (p ∷ [])) back pe.0 ye (subst (Avoids p) leaves p_y)
          (subst (Avoids e) leaves (ye, e_ys)) free
          (Avoids-append y ys (p ∷ []) d.0 ((λ s. p_y.0 (sym s)), tt)) path,
    )

-- Distinct nodes with one more at the end.
pub Distinct-last : (p : ℕ) (ys : List ℕ) → Avoids p ys → Distinct ys → Distinct (ys ++ (p ∷ []))
unfolding Distinct Avoids
Distinct-last p [] free d = (tt, tt)
Distinct-last p (y ∷ ys) (ne, free) (out, d) =
    (Avoids-append y ys (p ∷ []) out ((λ s. ne (sym s)), tt), Distinct-last p ys free d)

pub end_of-last : (a p : ℕ) (ys : List ℕ) → end_of a (ys ++ (p ∷ [])) ≡ p
end_of-last a p [] = refl
end_of-last a p (y ∷ ys) = end_of-last y p ys

-- A ring may be read from its second node on.
pub IsRing-rotate :
    (l : Links) (p e : ℕ) (ys : List ℕ) → IsRing l p (e ∷ ys) → IsRing l e (ys ++ (p ∷ []))
unfolding IsRing Avoids Distinct IsPath
IsRing-rotate l p e ys (p0, (e0, y0), ((ep, p_y), (e_y, d)), (out, back, path)) = (
  e0,
  Avoids-append 0 ys (p ∷ []) y0 (p0, tt),
  (Avoids-append e ys (p ∷ []) e_y ((λ s. ep (sym s)), tt), Distinct-last p ys p_y d),
  IsPath-append l e (ys ++ (p ∷ [])) (e ∷ []) path
      (subst (λ t. IsPath l t (e ∷ [])) (sym (end_of-last e p ys)) (out, back, tt)),
)

pub nonzero : (p : ℕ) → p ≢ 0 → (p == 0) ≡ false
nonzero p ne = elim (Bool-cases (p == 0)) [ inl e ↦ absurd (ne ((==_iff p 0).0 e)) | inr e ↦ e ]

dll_make_first-zero : (l : Links) (e : ℕ) → e ≢ 0 → dll_make_first l 0 e ≡ (l, l.prev e)
unfolding dll_make_first
dll_make_first-zero l e ne = rw (nonzero e ne) refl

dll_make_first-some :
    (l : Links) (p e : ℕ) → p ≢ 0 → e ≢ 0 → dll_make_first l p e ≡ (dll_splice_after l p e, p)
unfolding dll_make_first
dll_make_first-some l p e np ne = rw (nonzero e ne, nonzero p np) refl

-- A node on its own is a list of one node.
IsAlone-IsDll : (l : Links) (e : ℕ) → IsAlone l e → IsDll l e (e ∷ [])
unfolding IsAlone IsDll IsRing Avoids Distinct IsPath
IsAlone-IsDll l e (e0, out, back) = inr ([], refl, (e0, tt, (tt, tt), (out, back, tt)))

-- A node that is linked to itself alone and is not in the list becomes its first, and the others
-- follow in their order.
pub dll_make_first-IsDll :
    (l : Links) (list e : ℕ) (items : List ℕ)
    → IsDll l list items
    → IsAlone l e
    → Avoids e items
    → IsDll (dll_make_first l list e).0 (dll_make_first l list e).1 (e ∷ items)
unfolding IsDll IsAlone IsRing
dll_make_first-IsDll l list e items (inl (null, empty)) alone free =
    subst (λ p. IsDll (dll_make_first l p e).0 (dll_make_first l p e).1 (e ∷ items)) (sym null)
      (subst (λ r. IsDll r.0 r.1 (e ∷ items)) (sym (dll_make_first-zero l e alone.0))
        (subst (λ p. IsDll l p (e ∷ items)) (sym alone.2)
          (subst (λ t. IsDll l e (e ∷ t)) (sym empty) (IsAlone-IsDll l e alone))))
dll_make_first-IsDll l list e items (inr (ys, listed, ring)) alone free =
    subst (λ r. IsDll r.0 r.1 (e ∷ items)) (sym (dll_make_first-some l list e ring.0 alone.0))
      (inr (
        e ∷ ys,
        ap (λ t. e ∷ t) listed,
        inserted-IsRing l list e ys alone (subst (Avoids e) listed free) ring,
      ))

dll_make_last-alone :
    (l : Links) (list e : ℕ)
    → IsAlone l e
    → dll_make_last l list e ≡ ((dll_make_first l list e).0, e)
unfolding dll_make_last IsAlone
dll_make_last-alone l list e (e0, out, back) =
    if_true (not (e == 0)) ((dll_make_first l list (l.next e)).0, e) (l, list)
      (ap not (nonzero e e0))
    ∙ ap (λ t. ((dll_make_first l list t).0, e)) out

-- Such a node becomes the last of the list instead.
pub dll_make_last-IsDll :
    (l : Links) (list e : ℕ) (items : List ℕ)
    → IsDll l list items
    → IsAlone l e
    → Avoids e items
    → IsDll (dll_make_last l list e).0 (dll_make_last l list e).1 (items ++ (e ∷ []))
unfolding IsDll IsAlone IsRing
dll_make_last-IsDll l list e items (inl (null, empty)) alone free =
    subst (λ r. IsDll r.0 r.1 (items ++ (e ∷ []))) (sym (dll_make_last-alone l list e alone))
      (subst (λ p. IsDll (dll_make_first l p e).0 e (items ++ (e ∷ []))) (sym null)
        (subst (λ r. IsDll r.0 e (items ++ (e ∷ []))) (sym (dll_make_first-zero l e alone.0))
          (subst (λ t. IsDll l e (t ++ (e ∷ []))) (sym empty) (IsAlone-IsDll l e alone))))
dll_make_last-IsDll l list e items (inr (ys, listed, ring)) alone free =
    subst (λ r. IsDll r.0 r.1 (items ++ (e ∷ []))) (sym (dll_make_last-alone l list e alone))
      (subst (λ r. IsDll r.0 e (items ++ (e ∷ [])))
        (sym (dll_make_first-some l list e ring.0 alone.0))
        (inr (
          ys ++ (list ∷ []),
          ap (λ t. t ++ (e ∷ [])) listed,
          IsRing-rotate (dll_splice_after l list e) list e ys
              (inserted-IsRing l list e ys alone (subst (Avoids e) listed free) ring),
        )))
