-- ===== src/Dll/Walk.antt =====
-- Going through a list from its first node on: `dll_first` and `dll_next` of native/blink/blink/dll.h.
use atua_computer.Dll.Path.{Avoids, Avoids-append, IsPath, end_of, IsPath-split}
use atua_computer.Dll.Remove.{Distinct-apart, Avoids-end_of}
use atua_computer.Dll.Ring.{nonzero, Distinct, IsRing, IsDll, Distinct-last, end_of-last}
use atua_computer.Base.{
  length-append, if_true, ℕ, ◌≡◌, ◌≢◌, ◌⊎◌, inl, inr, refl, sym, ◌∙◌, ap, subst, arith, ◌==◌, false,
  not, List, [], ◌∷◌, ◌++◌, length, ==_iff, Bool-cases, if◌then◌else◌,
}
use atua_computer.Dll.{Links, dll_first, dll_next}

-- The first node, and 0 if there is none.
abbrev pub first_of : List ℕ → ℕ
first_of [] = 0
first_of (x ∷ xs) = x

pub Distinct-split : (xs ys : List ℕ) → Distinct (xs ++ ys) → Distinct ys
unfolding Distinct
Distinct-split [] ys d = d
Distinct-split (x ∷ xs) ys (free, d) = Distinct-split xs ys d

-- The nodes of a list are distinct, and none is null.
pub IsDll-Distinct : (l : Links) (list : ℕ) (items : List ℕ) → IsDll l list items → Distinct items
unfolding IsDll IsRing Distinct
IsDll-Distinct l list items (inl (null, empty)) = subst Distinct (sym empty) tt
IsDll-Distinct l list items (inr (ys, listed, (p0, y0, (p_y, d), path))) =
    subst Distinct (sym listed) (Distinct-last list ys p_y d)

end_of-append : (a y : ℕ) (xs ys : List ℕ) → end_of a (xs ++ (y ∷ ys)) ≡ end_of y ys
end_of-append a y [] ys = refl
end_of-append a y (x ∷ xs) ys = end_of-append x y xs ys

-- The path from the last node round to itself goes through the whole list.
IsDll-IsPath :
    (l : Links) (list : ℕ) (items : List ℕ)
    → IsDll l list items
    → ((list ≡ 0) × (items ≡ [])) ⊎ ((list ≢ 0) × IsPath l list items × (end_of 0 items ≡ list))
unfolding IsDll IsRing
IsDll-IsPath l list items (inl empty) = inl empty
IsDll-IsPath l list items (inr (ys, listed, ring)) = inr (
  ring.0,
  subst (IsPath l list) (sym listed) ring.3,
  ap (end_of 0) listed ∙ end_of-last 0 list ys,
)

pub dll_first-first_of :
    (l : Links) (list : ℕ) (items : List ℕ) → IsDll l list items → dll_first l list ≡ first_of items
unfolding dll_first IsPath
dll_first-first_of l list items listed = elim (IsDll-IsPath l list items listed) [
  | inl (null, empty) ↦ rw (null, empty) refl
  | inr (some_there, path, last) ↦
      rw (nonzero list some_there) (first l list items some_there path last)
]
  where
    first :
        (l : Links) (list : ℕ) (items : List ℕ)
        → list ≢ 0
        → IsPath l list items
        → end_of 0 items ≡ list
        → l.next list ≡ first_of items
    first l list [] ne path last = absurd (ne (sym last))
    first l list (x ∷ xs) ne path last = path.0

next_on_path :
    (l : Links) (list e : ℕ) (ys : List ℕ)
    → Distinct (e ∷ ys)
    → IsPath l e ys
    → end_of e ys ≡ list
    → dll_next l list e ≡ first_of ys
unfolding dll_next IsPath Distinct
next_on_path l list e [] d path last =
    ap (λ b. if not b then l.next e else 0) ((==_iff e list).1 last)
next_on_path l list e (y ∷ ys) d path last =
    if_true (not (e == list)) (l.next e) 0 (ap not differs) ∙ path.0
  where
    other : e ≢ list
    other s = Avoids-end_of e y ys d.0 (last ∙ sym s)

    differs : (e == list) ≡ false
    differs = elim (Bool-cases (e == list)) [
      | inl b ↦ absurd (other ((==_iff e list).0 b))
      | inr b ↦ b
    ]

pub dll_next-first_of :
    (l : Links) (list e : ℕ) (xs ys : List ℕ)
    → IsDll l list (xs ++ (e ∷ ys))
    → dll_next l list e ≡ first_of ys
unfolding IsPath
dll_next-first_of l list e xs ys listed = elim (IsDll-IsPath l list (xs ++ (e ∷ ys)) listed) [
  | inl (null, empty) ↦ absurd (omega (arith, length-append xs (e ∷ ys), ap length empty))
  | inr (some_there, path, last) ↦
      next_on_path l list e ys
        (Distinct-split xs (e ∷ ys) (IsDll-Distinct l list (xs ++ (e ∷ ys)) listed))
        (IsPath-split l list xs (e ∷ ys) path).1.2 (sym (end_of-append 0 e xs ys) ∙ last)
]

pub Distinct-others : (e : ℕ) (xs ys : List ℕ) → Distinct (xs ++ (e ∷ ys)) → Avoids e (xs ++ ys)
unfolding Distinct Avoids
Distinct-others e [] ys d = d.0
Distinct-others e (x ∷ xs) ys (free, d) =
    ((λ s. Distinct-apart x e xs ys free (sym s)), Distinct-others e xs ys d)

pub IsDll-nonzero :
    (l : Links) (list e : ℕ) (xs ys : List ℕ) → IsDll l list (xs ++ (e ∷ ys)) → e ≢ 0
unfolding IsDll IsRing Avoids
IsDll-nonzero l list e xs ys (inl (null, empty)) =
    absurd (omega (arith, length-append xs (e ∷ ys), ap length empty))
IsDll-nonzero l list e xs ys (inr (ws, listed, ring)) =
    Distinct-apart 0 e xs ys
      (subst (Avoids 0) (sym listed) (Avoids-append 0 ws (list ∷ []) ring.1 (ring.0, tt)))
