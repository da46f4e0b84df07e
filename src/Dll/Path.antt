-- ===== src/Dll/Path.antt =====
-- Nodes linked one after another, and what a write to a link leaves alone: native/blink/blink/dll.c.
use atua_computer.Base.{ℕ, ◌≡◌, ◌≢◌, refl, ◌∙◌, ap, List, [], ◌∷◌, ◌++◌, if_unequal}
use atua_computer.Dll.{Links, set_next, set_prev}

-- `a` is followed by the nodes `xs`.
unfoldable pub IsPath : Links → ℕ → List ℕ → Type 0
IsPath l a [] = Unit
IsPath l a (x ∷ xs) = (l.next a ≡ x) × (l.prev x ≡ a) × IsPath l x xs

-- `k` is none of the nodes.
unfoldable pub Avoids : ℕ → List ℕ → Type 0
Avoids k [] = Unit
Avoids k (x ∷ xs) = (x ≢ k) × Avoids k xs

-- The nodes that a path leaves: all but the last.
abbrev pub froms : ℕ → List ℕ → List ℕ
froms a [] = []
froms a (x ∷ xs) = a ∷ froms x xs

abbrev pub end_of : ℕ → List ℕ → ℕ
end_of a [] = a
end_of a (x ∷ xs) = end_of x xs

pub set_next-IsPath :
    (l : Links) (k v a : ℕ) (xs : List ℕ)
    → Avoids k (froms a xs)
    → IsPath l a xs
    → IsPath (set_next l k v) a xs
unfolding IsPath Avoids
set_next-IsPath l k v a [] free path = tt
set_next-IsPath l k v a (x ∷ xs) (ne, free) (out, back, path) =
    (if_unequal a k v (l.next a) ne ∙ out, back, set_next-IsPath l k v x xs free path)

pub set_prev-IsPath :
    (l : Links) (k v a : ℕ) (xs : List ℕ)
    → Avoids k xs
    → IsPath l a xs
    → IsPath (set_prev l k v) a xs
unfolding IsPath Avoids
set_prev-IsPath l k v a [] free path = tt
set_prev-IsPath l k v a (x ∷ xs) (ne, free) (out, back, path) =
    (out, if_unequal x k v (l.prev x) ne ∙ back, set_prev-IsPath l k v x xs free path)

-- A path is joined, and split, at any node.
pub IsPath-append :
    (l : Links) (a : ℕ) (xs ys : List ℕ)
    → IsPath l a xs
    → IsPath l (end_of a xs) ys
    → IsPath l a (xs ++ ys)
unfolding IsPath
IsPath-append l a [] ys p q = q
IsPath-append l a (x ∷ xs) ys (out, back, p) q = (out, back, IsPath-append l x xs ys p q)

pub IsPath-split :
    (l : Links) (a : ℕ) (xs ys : List ℕ)
    → IsPath l a (xs ++ ys)
    → IsPath l a xs × IsPath l (end_of a xs) ys
unfolding IsPath
IsPath-split l a [] ys p = (tt, p)
IsPath-split l a (x ∷ xs) ys (out, back, p) =
    let (q, r) = IsPath-split l x xs ys p in ((out, back, q), r)

pub Avoids-append : (k : ℕ) (xs ys : List ℕ) → Avoids k xs → Avoids k ys → Avoids k (xs ++ ys)
unfolding Avoids
Avoids-append k [] ys p q = q
Avoids-append k (x ∷ xs) ys (ne, p) q = (ne, Avoids-append k xs ys p q)

pub Avoids-split : (k : ℕ) (xs ys : List ℕ) → Avoids k (xs ++ ys) → Avoids k xs × Avoids k ys
unfolding Avoids
Avoids-split k [] ys p = (tt, p)
Avoids-split k (x ∷ xs) ys (ne, p) = let (q, r) = Avoids-split k xs ys p in ((ne, q), r)

-- The nodes of a path that ends in `z` are left, but for `z`.
pub froms-append : (a z : ℕ) (xs : List ℕ) → froms a (xs ++ (z ∷ [])) ≡ a ∷ xs
froms-append a z [] = refl
froms-append a z (x ∷ xs) = ap (λ t. a ∷ t) (froms-append x z xs)
