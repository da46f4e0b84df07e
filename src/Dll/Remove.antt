-- ===== src/Dll/Remove.antt =====
-- A node is taken out of its list: native/blink/blink/dll.c.
use atua_computer.Dll.{dll_remove, Links, unlink}
use atua_computer.Dll.Ring.{IsDll, Distinct, IsRing, IsAlone, IsRing-rotate, end_of-last}
use atua_computer.Base.{
  append-nil, append_assoc, ℕ, ◌≡◌, ◌≢◌, refl, sym, ◌∙◌, ap, subst, ◌==◌, List, [], ◌∷◌, ◌++◌,
  if_equal, if_unequal, if◌then◌else◌, ◌⊎◌, inl, inr, arith, length, length-append,
}
use atua_computer.Dll.Path.{
  IsPath, Avoids, froms, end_of, set_next-IsPath, set_prev-IsPath, froms-append, Avoids-append,
}

-- The nodes before and after `e` are joined.
joined :
    (l : Links) (a e y : ℕ) (zs : List ℕ)
    → a ≢ e
    → y ≢ e
    → Avoids y zs
    → Avoids a (froms y zs)
    → Avoids e (froms y zs)
    → Avoids e zs
    → IsPath l a (e ∷ y ∷ zs)
    → IsPath (unlink l e) a (y ∷ zs)
unfolding IsPath unlink
joined l a e y zs ae ye y_in a_out e_out e_in (out_a, back_e, (out_e, back_y, path)) =
    (out, back, rest)
  where
    after : Links
    after = unlink l e

    -- The second write reads the link back of `e` again.
    same : (if e == y then a else a) ≡ a
    same = if_unequal e y a a (λ s. ye (sym s))

    out : after.next a ≡ y
    out =
        rw (out_e, back_e, same)
          (if_unequal a e e (if a == a then y else l.next a) ae ∙ if_equal a a y (l.next a) refl)

    back : after.prev y ≡ a
    back =
        rw (out_e, back_e)
          (if_unequal y e e (if y == y then a else l.prev y) ye ∙ if_equal y y a (l.prev y) refl)

    rest : IsPath after y zs
    rest =
        rw (out_e, back_e, same)
          (set_prev-IsPath _ e e y zs e_in (
            set_next-IsPath _ e e y zs e_out
              (set_next-IsPath _ a y y zs a_out (set_prev-IsPath l y a y zs y_in path))))

-- A ring without its second node.
unlink-IsRing : (l : Links) (a e : ℕ) (ys : List ℕ) → IsRing l a (e ∷ ys) → IsRing (unlink l e) a ys
unfolding IsRing Avoids Distinct
unlink-IsRing l a e [] (a0, (e0, y0), ((ea, tt), d), path) =
    (a0, tt, (tt, tt), joined l a e a [] (λ s. ea (sym s)) (λ s. ea (sym s)) tt tt tt tt path)
unlink-IsRing l a e (y ∷ ys) (a0, (e0, y0), ((ea, a_y), ((ye, e_ys), d)), path) =
    let leaves = sym (froms-append y a ys) in
    (
      a0,
      y0,
      (a_y, d),
      joined l a e y (ys ++ (a ∷ [])) (λ s. ea (sym s)) ye
          (Avoids-append y ys (a ∷ []) d.0 ((λ s. a_y.0 (sym s)), tt)) (subst (Avoids a) leaves a_y)
          (subst (Avoids e) leaves (ye, e_ys))
          (Avoids-append e ys (a ∷ []) e_ys ((λ s. ea (sym s)), tt)) path,
    )

-- The node itself is on its own afterwards.
unlink-IsAlone : (l : Links) (e : ℕ) → e ≢ 0 → IsAlone (unlink l e) e
unfolding IsAlone unlink
unlink-IsAlone l e ne = (ne, if_equal e e e _ refl, if_equal e e e _ refl)

-- A ring may be read from any node on.
IsRing-rotate_many :
    (l : Links) (p : ℕ) (xs zs : List ℕ)
    → IsRing l p (xs ++ zs)
    → IsRing l (end_of p xs) (zs ++ froms p xs)
IsRing-rotate_many l p [] zs ring = subst (IsRing l p) (sym (append-nil zs)) ring
IsRing-rotate_many l p (x ∷ xs) zs ring =
    subst (IsRing l (end_of x xs)) (append_assoc zs (p ∷ []) (froms x xs)) (
      IsRing-rotate_many l x xs (zs ++ (p ∷ []))
        (subst (IsRing l x) (append_assoc xs zs (p ∷ [])) (IsRing-rotate l p x (xs ++ zs) ring)))

froms-end_of : (x : ℕ) (xs : List ℕ) → froms x xs ++ (end_of x xs ∷ []) ≡ x ∷ xs
froms-end_of x [] = refl
froms-end_of x (y ∷ ys) = ap (λ t. x ∷ t) (froms-end_of y ys)

-- The ring without `e`, read from its last node again.
unlink-middle :
    (l : Links) (p e : ℕ) (xs ys : List ℕ)
    → IsRing l p (xs ++ (e ∷ ys))
    → IsRing (unlink l e) p (xs ++ ys)
unlink-middle l p e [] ys ring = unlink-IsRing l p e ys ring
unlink-middle l p e (x ∷ xs) ys ring =
    let a = end_of x xs in
    let there : IsRing l a (e ∷ (ys ++ (p ∷ froms x xs))) =
      IsRing-rotate_many l p (x ∷ xs) (e ∷ ys) ring in
    let out : IsRing (unlink l e) a (ys ++ (p ∷ froms x xs)) =
      unlink-IsRing l a e (ys ++ (p ∷ froms x xs)) there in
    let around : IsRing (unlink l e) a ((ys ++ (p ∷ [])) ++ froms x xs) =
      subst (IsRing (unlink l e) a) (sym (append_assoc ys (p ∷ []) (froms x xs))) out in
    let back = IsRing-rotate_many (unlink l e) a (ys ++ (p ∷ [])) (froms x xs) around in
    let here : IsRing (unlink l e) p (froms x xs ++ (a ∷ ys)) =
      subst (λ t. IsRing (unlink l e) p (froms x xs ++ t)) (froms-append a p ys)
        (subst (λ q. IsRing (unlink l e) q (froms x xs ++ froms a (ys ++ (p ∷ []))))
          (end_of-last a p ys) back) in
    subst (IsRing (unlink l e) p)
      (sym (append_assoc (froms x xs) (a ∷ []) ys) ∙ ap (λ t. t ++ ys) (froms-end_of x xs)) here

-- The ring without its last node: the node before it is the last.
unlink-last :
    (l : Links) (p x : ℕ) (xs : List ℕ)
    → IsRing l p (x ∷ xs)
    → IsRing (unlink l p) (end_of x xs) (froms x xs)
unlink-last l p x xs ring =
    unlink-IsRing l (end_of x xs) p (froms x xs)
      (IsRing-rotate_many l p (x ∷ xs) [] (subst (IsRing l p) (sym (append-nil (x ∷ xs))) ring))

IsRing-prev : (l : Links) (p x : ℕ) (xs : List ℕ) → IsRing l p (x ∷ xs) → l.prev p ≡ end_of x xs
unfolding IsRing IsPath
IsRing-prev l p x xs ring =
    let (q0, y0, d, path) =
      IsRing-rotate_many l p (x ∷ xs) [] (subst (IsRing l p) (sym (append-nil (x ∷ xs))) ring) in
    path.1

-- A list and its last entry.
init : List ℕ → List ℕ
init [] = []
init (x ∷ []) = []
init (x ∷ y ∷ xs) = x ∷ init (y ∷ xs)

init-append : (x : ℕ) (xs : List ℕ) → init (xs ++ (x ∷ [])) ≡ xs
unfolding init
init-append x [] = refl
init-append x (y ∷ []) = refl
init-append x (y ∷ z ∷ xs) = ap (λ t. y ∷ t) (init-append x (z ∷ xs))

append-injective :
    (x y : ℕ) (xs ys : List ℕ) → xs ++ (x ∷ []) ≡ ys ++ (y ∷ []) → (xs ≡ ys) × (x ≡ y)
append-injective x y xs ys e = (
  sym (init-append x xs) ∙ ap init e ∙ init-append y ys,
  sym (end_of-last 0 x xs) ∙ ap (end_of 0) e ∙ end_of-last 0 y ys,
)

pub Distinct-apart : (p e : ℕ) (xs ys : List ℕ) → Avoids p (xs ++ (e ∷ ys)) → e ≢ p
unfolding Avoids
Distinct-apart p e [] ys (ne, free) = ne
Distinct-apart p e (x ∷ xs) ys (ne, free) = Distinct-apart p e xs ys free

pub Avoids-end_of : (k x : ℕ) (xs : List ℕ) → Avoids k (x ∷ xs) → end_of x xs ≢ k
unfolding Avoids
Avoids-end_of k x [] (ne, free) = ne
Avoids-end_of k x (y ∷ xs) (ne, free) = Avoids-end_of k y xs free

module _ (l : Links) (list e : ℕ) where
  -- The last node goes.
  remove_last :
      (xs : List ℕ) → list ≡ e → IsRing l list xs → IsDll (unlink l e) (dll_remove l list e).1 xs
  unfolding IsDll dll_remove IsRing IsPath Distinct
  remove_last [] same ring = inl (
    rw same (
        if_equal e e (if l.prev e == e then 0 else l.prev e) e refl
        ∙ if_equal (l.prev e) e 0 (l.prev e) (subst (λ t. l.prev t ≡ t) same ring.3.1)),
    refl,
  )
  remove_last (x ∷ xs) same ring =
      subst (λ p. IsDll (unlink l e) p (x ∷ xs)) (sym before)
        (inr (
          froms x xs,
          sym (froms-end_of x xs),
          subst (λ t. IsRing (unlink l t) (end_of x xs) (froms x xs)) same
              (unlink-last l list x xs ring),
        ))
    where
      last_other : end_of x xs ≢ list
      last_other = Avoids-end_of list x xs ring.2.0

      before : (dll_remove l list e).1 ≡ end_of x xs
      before =
          if_equal list e (if l.prev list == list then 0 else l.prev list) list same
          ∙ if_unequal (l.prev list) list 0 (l.prev list)
              (λ s. last_other (sym (IsRing-prev l list x xs ring) ∙ s))
          ∙ IsRing-prev l list x xs ring

  -- Another node goes.
  remove_middle :
      (xs ys : List ℕ)
      → IsRing l list (xs ++ (e ∷ ys))
      → IsDll (unlink l e) (dll_remove l list e).1 (xs ++ (ys ++ (list ∷ [])))
  unfolding IsDll dll_remove IsRing Distinct
  remove_middle xs ys ring =
      subst (λ p. IsDll (unlink l e) p (xs ++ (ys ++ (list ∷ []))))
        (sym (
          if_unequal list e (if l.prev list == list then 0 else l.prev list) list
            (λ s. Distinct-apart list e xs ys ring.2.0 (sym s))))
        (inr (xs ++ ys, sym (append_assoc xs ys (list ∷ [])), unlink-middle l list e xs ys ring))

snoc_view : (xs : List ℕ) → (xs ≡ []) ⊎ ((ys : List ℕ) × (y : ℕ) × (xs ≡ ys ++ (y ∷ [])))
snoc_view [] = inl refl
snoc_view (x ∷ xs) = elim (snoc_view xs) [
  | inl e ↦ inr ([], x, ap (λ t. x ∷ t) e)
  | inr (ys, y, e) ↦ inr (x ∷ ys, y, ap (λ t. x ∷ t) e)
]

module _ (l : Links) (list e : ℕ) (xs ys ws : List ℕ) (listed : xs ++ (e ∷ ys) ≡ ws ++ (list ∷ []))
    (ring : IsRing l list ws) where
  removed-IsDll : IsDll (unlink l e) (dll_remove l list e).1 (xs ++ ys)
  removed-IsDll = elim (snoc_view ys) [
    | inl none_after ↦
        let (same, last) =
          append-injective e list xs ws
            (subst (λ t. xs ++ (e ∷ t) ≡ ws ++ (list ∷ [])) none_after listed) in
        subst (IsDll (unlink l e) (dll_remove l list e).1)
          (sym (append-nil xs) ∙ ap (λ t. xs ++ t) (sym none_after))
          (remove_last l list e xs (sym last) (subst (IsRing l list) (sym same) ring))
    | inr (cs, c, some_after) ↦
        let (same, last) =
          append-injective c list (xs ++ (e ∷ cs)) ws (
            append_assoc xs (e ∷ cs) (c ∷ [])
            ∙ ap (λ t. xs ++ (e ∷ t)) (sym some_after)
            ∙ listed) in
        subst (λ t. IsDll (unlink l e) (dll_remove l list e).1 (xs ++ t))
          (ap (λ t. cs ++ (t ∷ [])) (sym last) ∙ sym some_after)
          (remove_middle l list e xs cs (subst (IsRing l list) (sym same) ring))
  ]

  removed-nonzero : e ≢ 0
  unfolding IsRing Avoids
  removed-nonzero =
      Distinct-apart 0 e xs ys
        (subst (Avoids 0) (sym listed) (Avoids-append 0 ws (list ∷ []) ring.1 (ring.0, tt)))

-- A node of a list is taken out: the others keep their order, and the node is linked to itself
-- alone.
pub dll_remove-IsDll :
    (l : Links) (list e : ℕ) (xs ys : List ℕ)
    → IsDll l list (xs ++ (e ∷ ys))
    → IsDll (dll_remove l list e).0 (dll_remove l list e).1 (xs ++ ys)
      × IsAlone (dll_remove l list e).0 e
unfolding dll_remove IsDll
dll_remove-IsDll l list e xs ys (inl (null, empty)) =
    absurd (omega (arith, length-append xs (e ∷ ys), ap length empty))
dll_remove-IsDll l list e xs ys (inr (ws, listed, ring)) = (
  removed-IsDll l list e xs ys ws listed ring,
  unlink-IsAlone l e (removed-nonzero l list e xs ys ws listed ring),
)
