-- ===== src/Fds/Table.antt =====
-- The table of descriptors as a list in the order of their last use: native/blink/blink/fds.c.
use atua_computer.Base.{
  ℤ, pos, append-nil, append_assoc, if_true, if_false, ℕ, zero, suc, ◌+◌, ◌<◌, ◌≡◌, ◌≢◌, refl, sym,
  ◌∙◌, ap, subst, arith, ◌==◌, true, false, Bool, not, Option, none, some, List, [], ◌∷◌, ◌++◌,
  length, if◌then◌else◌,
}
use atua_computer.Fds.{
  Fds, ebadf, same_fildes, touch_fd, get_loop, or_ebadf, get_fd, count_loop, count_fds,
}
use atua_computer.Dll.{dll_next, dll_remove}
use atua_computer.Dll.Ring.{IsDll, nonzero, dll_make_first-IsDll}
use atua_computer.Dll.Remove.{dll_remove-IsDll}
use atua_computer.Dll.Walk.{
  first_of, IsDll-Distinct, Distinct-others, IsDll-nonzero, dll_first-first_of, dll_next-first_of,
}

-- The descriptors that the table lists, from the first on.
unfoldable pub IsFds : Fds → List ℕ → Type 0
IsFds fds items = IsDll fds.links fds.list items

-- The first descriptor of a number, 0 if there is none.
abbrev pub find_fd : Fds → ℤ → List ℕ → ℕ
find_fd fds fildes [] = 0
find_fd fds fildes (e ∷ es) =
    if same_fildes (fds.fd e).fildes fildes then e else find_fd fds fildes es

-- The list with that descriptor put first; `xs` are those before, in which it is not.
abbrev pub to_front : Fds → ℤ → List ℕ → List ℕ → List ℕ
to_front fds fildes xs [] = xs
to_front fds fildes xs (e ∷ ys) =
    if same_fildes (fds.fd e).fildes fildes
    then e ∷ (xs ++ ys)
    else to_front fds fildes (xs ++ (e ∷ [])) ys

abbrev pub is_some_list : List ℕ → Bool
is_some_list [] = false
is_some_list (x ∷ xs) = true

some_list_append : (xs : List ℕ) (e : ℕ) → is_some_list (xs ++ (e ∷ [])) ≡ true
some_list_append [] e = refl
some_list_append (x ∷ xs) e = refl

touch_fd-IsFds :
    (fds : Fds) (xs : List ℕ) (e : ℕ) (ys : List ℕ)
    → IsFds fds (xs ++ (e ∷ ys))
    → IsFds (touch_fd fds (is_some_list xs) e) (e ∷ (xs ++ ys))
      × ((touch_fd fds (is_some_list xs) e).fd ≡ fds.fd)
unfolding IsFds touch_fd
touch_fd-IsFds fds [] e ys listed = (listed, refl)
touch_fd-IsFds fds (x ∷ xs) e ys listed =
    let (rest, alone) = dll_remove-IsDll fds.links fds.list e (x ∷ xs) ys listed in
    let free =
      Distinct-others e (x ∷ xs) ys
        (IsDll-Distinct fds.links fds.list (x ∷ xs ++ (e ∷ ys)) listed) in
    (
      dll_make_first-IsDll (dll_remove fds.links fds.list e).0 (dll_remove fds.links fds.list e).1 e
          (x ∷ xs ++ ys) rest alone free,
      refl,
    )

module _ (fds : Fds) (fildes : ℤ) where
  -- What the loop of `GetFd` gives from a node on.
  Gets : Option (Fds × ℕ) → List ℕ → List ℕ → Type 0
  Gets result xs rest =
      (after : Fds) × (result ≡ some (after, find_fd fds fildes rest))
      × IsFds after (to_front fds fildes xs rest)
      × (after.fd ≡ fds.fd)

  get_loop-found :
      (fuel e : ℕ) (lru : Bool)
      → e ≢ 0
      → same_fildes (fds.fd e).fildes fildes ≡ true
      → get_loop (suc fuel) fds lru e fildes ≡ some (touch_fd fds lru e, e)
  unfolding get_loop
  get_loop-found fuel e lru ne m =
      if_true (not (e == 0))
        (if same_fildes (fds.fd e).fildes fildes then some (touch_fd fds lru e, e) else rest)
        (some (fds, 0)) (ap not (nonzero e ne))
      ∙ if_true (same_fildes (fds.fd e).fildes fildes) (some (touch_fd fds lru e, e)) rest m
    where
      rest : Option (Fds × ℕ)
      rest = get_loop fuel fds true (dll_next fds.links fds.list e) fildes

  get_loop-next :
      (fuel e : ℕ) (lru : Bool)
      → e ≢ 0
      → same_fildes (fds.fd e).fildes fildes ≡ false
      → get_loop (suc fuel) fds lru e fildes
        ≡ get_loop fuel fds true (dll_next fds.links fds.list e) fildes
  unfolding get_loop
  get_loop-next fuel e lru ne m =
      if_true (not (e == 0))
        (if same_fildes (fds.fd e).fildes fildes then some (touch_fd fds lru e, e) else rest)
        (some (fds, 0)) (ap not (nonzero e ne))
      ∙ if_false (same_fildes (fds.fd e).fildes fildes) (some (touch_fd fds lru e, e)) rest m
    where
      rest : Option (Fds × ℕ)
      rest = get_loop fuel fds true (dll_next fds.links fds.list e) fildes

  by_match :
      (fuel : ℕ) (xs : List ℕ) (e : ℕ) (ys : List ℕ)
      → e ≢ 0
      → IsFds (touch_fd fds (is_some_list xs) e) (e ∷ (xs ++ ys))
      → (touch_fd fds (is_some_list xs) e).fd ≡ fds.fd
      → Gets (get_loop fuel fds true (dll_next fds.links fds.list e) fildes) (xs ++ (e ∷ [])) ys
      → (b : Bool) → same_fildes (fds.fd e).fildes fildes ≡ b
      → (after : Fds) × (get_loop (suc fuel) fds (is_some_list xs) e fildes
          ≡ some (after, if b then e else find_fd fds fildes ys))
        × IsFds after (if b then e ∷ (xs ++ ys) else to_front fds fildes (xs ++ (e ∷ [])) ys)
        × (after.fd ≡ fds.fd)
  unfolding Gets
  by_match fuel xs e ys ne touched kept here true m = (
    touch_fd fds (is_some_list xs) e,
    get_loop-found fuel e (is_some_list xs) ne m,
    touched,
    kept,
  )
  by_match fuel xs e ys ne touched kept (after, got, order, same) false m =
      (after, get_loop-next fuel e (is_some_list xs) ne m ∙ got, order, same)

  get_loop-Gets :
      (fuel : ℕ) (xs rest : List ℕ)
      → IsFds fds (xs ++ rest)
      → length rest < fuel
      → Gets (get_loop fuel fds (is_some_list xs) (first_of rest) fildes) xs rest
  unfolding Gets get_loop IsFds
  get_loop-Gets zero xs rest listed enough = absurd (omega arith)
  get_loop-Gets (suc fuel) xs [] listed enough =
      (fds, refl, subst (IsDll fds.links fds.list) (append-nil xs) listed, refl)
  get_loop-Gets (suc fuel) xs (e ∷ ys) listed enough =
      let ne = IsDll-nonzero fds.links fds.list e xs ys listed in
      let (touched, kept) = touch_fd-IsFds fds xs e ys listed in
      let moved : IsDll fds.links fds.list ((xs ++ (e ∷ [])) ++ ys) =
        subst (IsDll fds.links fds.list) (sym (append_assoc xs (e ∷ []) ys)) listed in
      let there = get_loop-Gets fuel (xs ++ (e ∷ [])) ys moved (omega arith) in
      let here : Gets (get_loop fuel fds true (dll_next fds.links fds.list e) fildes)
          (xs ++ (e ∷ [])) ys =
        subst (λ t. Gets (get_loop fuel fds true t fildes) (xs ++ (e ∷ [])) ys)
          (sym (dll_next-first_of fds.links fds.list e xs ys listed))
          (subst (λ b. Gets (get_loop fuel fds b (first_of ys) fildes) (xs ++ (e ∷ [])) ys)
            (some_list_append xs e) there) in
      by_match fuel xs e ys ne touched kept here (same_fildes (fds.fd e).fildes fildes) refl

-- `GetFd` finds the first descriptor of the number, or sets EBADF and finds none, and leaves a list
-- in which the one found stands first and the others keep their order; no descriptor changes. A
-- round for each descriptor and one more is enough.
pub get_fd-IsFds :
    (fuel : ℕ) (fds : Fds) (fildes : ℕ) (items : List ℕ)
    → IsFds fds items
    → length items < fuel
    → (after : Fds) × (get_fd fuel fds (pos fildes)
        ≡ some (
          after,
          find_fd fds (pos fildes) items,
          if find_fd fds (pos fildes) items == 0 then some ebadf else none,
        ))
      × IsFds after (to_front fds (pos fildes) [] items)
      × (after.fd ≡ fds.fd)
unfolding get_fd IsFds Gets
get_fd-IsFds fuel fds fildes items listed enough =
    let (after, got, order, kept) = get_loop-Gets fds (pos fildes) fuel [] items listed enough in
    (
      after,
      ap (λ t. or_ebadf (get_loop fuel fds false t (pos fildes)))
            (dll_first-first_of fds.links fds.list items listed)
          ∙ ap or_ebadf got,
      order,
      kept,
    )

count_loop-length :
    (fuel : ℕ) (fds : Fds) (xs rest : List ℕ) (n : ℕ)
    → IsFds fds (xs ++ rest)
    → length rest < fuel
    → count_loop fuel fds (first_of rest) n ≡ some (n + length rest)
unfolding count_loop IsFds
count_loop-length zero fds xs rest n listed enough = absurd (omega arith)
count_loop-length (suc fuel) fds xs [] n listed enough = ap some (omega arith)
count_loop-length (suc fuel) fds xs (e ∷ ys) n listed enough =
    let moved : IsDll fds.links fds.list ((xs ++ (e ∷ [])) ++ ys) =
      subst (IsDll fds.links fds.list) (sym (append_assoc xs (e ∷ []) ys)) listed in
    let counted : n + 1 + length ys ≡ n + suc (length ys) = omega arith in
    rw
      (
        nonzero e (IsDll-nonzero fds.links fds.list e xs ys listed),
        dll_next-first_of fds.links fds.list e xs ys listed,
      )
      (count_loop-length fuel fds (xs ++ (e ∷ [])) ys (n + 1) moved (omega arith) ∙ ap some counted)

-- `CountFds` counts the descriptors, with a round for each and one more.
pub count_fds-length :
    (fuel : ℕ) (fds : Fds) (items : List ℕ)
    → IsFds fds items
    → length items < fuel
    → count_fds fuel fds ≡ some (length items)
unfolding count_fds IsFds
count_fds-length fuel fds items listed enough =
    let total : 0 + length items ≡ length items = omega arith in
    ap (λ t. count_loop fuel fds t 0) (dll_first-first_of fds.links fds.list items listed)
    ∙ count_loop-length fuel fds [] items 0 listed enough
    ∙ ap some total
