-- ===== src/Dll.antt =====
-- native/blink/blink/dll.c and dll.h: lists whose nodes are linked in a ring, in both directions. A
-- list is a pointer to its last node, and 0 if it is empty.
pub mod Path
pub mod Ring
pub mod Remove
pub mod Walk
use atua_computer.Base.{
  if_true, if_false, ℕ, zero, suc, ◌+◌, ◌-◌, ◌*◌, ◌/◌, ◌%◌, ◌^◌, ◌≤◌, ◌<◌, ◌≡◌, ◌≢◌, ◌↔◌, ◌⊎◌, inl,
  inr, refl, sym, ◌∙◌, ap, ap₂, subst, arith, bit_and, bit_or, bit_xor, ◌&&&◌, ◌|||◌, ◌^^^◌, ◌>>>◌,
  ◌<<<◌, not64, ◌==◌, ltb, leb, true, false, Bool, not, ◌&&◌, ◌||◌, Option, none, some,
  some-injective, none-ne-some, List, [], ◌∷◌, ◌++◌, length, get_or, set, take, drop, if_equal,
  if_unequal, ==_iff, Bool-cases, if◌then◌else◌, min, max,
}

-- The fields of every `struct Dll`, by address.
pub record Links : Type 0 where
  pub next : ℕ → ℕ
  pub prev : ℕ → ℕ

abbrev pub set_next : Links → ℕ → ℕ → Links
set_next l e v = record l { next = λ a. if a == e then v else l.next a }

abbrev pub set_prev : Links → ℕ → ℕ → Links
set_prev l e v = record l { prev = λ a. if a == e then v else l.prev a }

unfoldable pub dll_init : Links → ℕ → Links
dll_init l e = set_prev (set_next l e e) e e

unfoldable pub dll_is_empty : ℕ → Bool
dll_is_empty list = list == 0

unfoldable pub dll_last : ℕ → ℕ
dll_last list = list

unfoldable pub dll_first : Links → ℕ → ℕ
dll_first l list = if not (list == 0) then l.next list else 0

unfoldable pub dll_next : Links → ℕ → ℕ → ℕ
dll_next l list e = if not (e == list) then l.next e else 0

unfoldable pub dll_prev : Links → ℕ → ℕ → ℕ
dll_prev l list e = if not (e == l.next list) then l.prev e else 0

unfoldable pub dll_splice_after : Links → ℕ → ℕ → Links
dll_splice_after l elem succ =
    let tmp1 = l.next elem in
    let tmp2 = l.prev succ in
    set_prev (set_next (set_prev (set_next l elem succ) succ elem) tmp2 tmp1) tmp1 tmp2

-- The last three writes: a node takes itself out of its ring.
unfoldable pub unlink : Links → ℕ → Links
unlink l elem =
    let m = set_prev l (l.next elem) (l.prev elem) in
    let n = set_next m (m.prev elem) (m.next elem) in set_prev (set_next n elem elem) elem elem

unfoldable pub dll_remove : Links → ℕ → ℕ → Links × ℕ
unfolding unlink
dll_remove l list elem =
    let left = if list == elem then (if l.prev list == list then 0 else l.prev list) else list in
    (unlink l elem, left)

unfoldable pub dll_make_first : Links → ℕ → ℕ → Links × ℕ
unfolding dll_splice_after
dll_make_first l list elem =
    if not (elem == 0)
    then (if list == 0 then (l, l.prev elem) else (dll_splice_after l list elem, list))
    else (l, list)

unfoldable pub dll_make_last : Links → ℕ → ℕ → Links × ℕ
unfolding dll_make_first
dll_make_last l list elem =
    if not (elem == 0) then ((dll_make_first l list (l.next elem)).0, elem) else (l, list)
