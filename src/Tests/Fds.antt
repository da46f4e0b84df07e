-- ===== src/Tests/Fds.antt =====
-- A table of three descriptors: native/blink/blink/dll.c, fds.c and close.c.
use atua_computer.Memory.{Result, ok, aborted, no_fuel}
use atua_computer.Base.{
  pos, negsuc, ℕ, ◌+◌, ◌≡◌, ◌≢◌, inr, refl, arith, ◌==◌, none, some, [], ◌∷◌, if◌then◌else◌, ◌↔◌,
  true, false, List,
}
use atua_computer.Dll.{Links, dll_remove, dll_make_first, dll_make_last}
use atua_computer.Dll.Path.{IsPath, Avoids}
use atua_computer.Dll.Ring.{
  Distinct, IsRing, IsDll, IsAlone, dll_make_first-IsDll, dll_make_last-IsDll,
}
use atua_computer.Dll.Remove.{dll_remove-IsDll}
use atua_computer.Fds.{Fds, ebadf, blank_fd, add_fd, get_fd, count_fds}
use atua_computer.Fds.Close.{destroy_fds, close_fds, CloseHost, minus_one, finish_close, sys_close}
use atua_computer.Fds.Table.{IsFds, get_fd-IsFds}
use atua_computer.Fds.Adding.{add_fd-IsFds}
use atua_computer.Fds.Closing.{destroy_fds-all, AllClose, close_fds-all, sys_close-IsFds}

-- 1, 2 and 3 in a ring, and 4 alone.
abbrev three : Links
three = record {
  next = λ a. if a == 1 then 2 else (if a == 2 then 3 else (if a == 3 then 1 else a));
  prev = λ a. if a == 1 then 3 else (if a == 2 then 1 else (if a == 3 then 2 else a));
}

three-IsDll : IsDll three 3 (1 ∷ 2 ∷ 3 ∷ [])
unfolding IsDll IsRing IsPath Distinct Avoids
three-IsDll = inr (
  1 ∷ 2 ∷ [],
  refl,
  (
    (λ e. absurd (omega arith)),
    ((λ e. absurd (omega arith)), ((λ e. absurd (omega arith)), tt)),
    (
      ((λ e. absurd (omega arith)), ((λ e. absurd (omega arith)), tt)),
      (((λ e. absurd (omega arith)), tt), (tt, tt)),
    ),
    (refl, refl, (refl, refl, (refl, refl, tt))),
  ),
)

four-IsAlone : IsAlone three 4
unfolding IsAlone
four-IsAlone = ((λ e. absurd (omega arith)), refl, refl)

four_apart : Avoids 4 (1 ∷ 2 ∷ 3 ∷ [])
unfolding Avoids
four_apart =
    ((λ e. absurd (omega arith)), ((λ e. absurd (omega arith)), ((λ e. absurd (omega arith)), tt)))

dll_make_first-IsDll_example :
    IsDll (dll_make_first three 3 4).0 (dll_make_first three 3 4).1 (4 ∷ 1 ∷ 2 ∷ 3 ∷ [])
dll_make_first-IsDll_example =
    dll_make_first-IsDll three 3 4 (1 ∷ 2 ∷ 3 ∷ []) three-IsDll four-IsAlone four_apart

dll_make_last-IsDll_example :
    IsDll (dll_make_last three 3 4).0 (dll_make_last three 3 4).1 (1 ∷ 2 ∷ 3 ∷ 4 ∷ [])
dll_make_last-IsDll_example =
    dll_make_last-IsDll three 3 4 (1 ∷ 2 ∷ 3 ∷ []) three-IsDll four-IsAlone four_apart

dll_remove-IsDll_example :
    IsDll (dll_remove three 3 3).0 (dll_remove three 3 3).1 (1 ∷ 2 ∷ [])
    × IsAlone (dll_remove three 3 3).0 3
dll_remove-IsDll_example = dll_remove-IsDll three 3 3 (1 ∷ 2 ∷ []) [] three-IsDll

-- The list ends with its second node now.
removed_last : (dll_remove three 3 3).1 ≡ 2
unfolding dll_remove
removed_last = refl

-- Descriptor 5 at 1, 6 at 2, 7 at 3.
abbrev table : Fds
table = record { list = 3; links = three; fd = λ a. record blank_fd { fildes = pos (a + 4) } }

table-IsFds : IsFds table (1 ∷ 2 ∷ 3 ∷ [])
unfolding IsFds
table-IsFds = three-IsDll

get_fd-IsFds_example :
    (after : Fds) × (get_fd 4 table (pos 6) ≡ some (after, 2, none))
    × IsFds after (2 ∷ 1 ∷ 3 ∷ [])
    × (after.fd ≡ table.fd)
get_fd-IsFds_example = get_fd-IsFds 4 table 6 (1 ∷ 2 ∷ 3 ∷ []) table-IsFds (omega arith)

add_fd-IsFds_example :
    (after : Fds) × (add_fd table (pos 9) 0 4 ≡ (after, 4, none))
    × IsFds after (4 ∷ 1 ∷ 2 ∷ 3 ∷ [])
    × (after.fd 4 ≡ record blank_fd { fildes = pos 9 })
    × ((other : ℕ) → other ≢ 4 → after.fd other ≡ table.fd other)
add_fd-IsFds_example =
    add_fd-IsFds table 9 0 4 (1 ∷ 2 ∷ 3 ∷ []) table-IsFds (λ e. absurd (omega arith)) four_apart

-- The second descriptor fails with EINTR, and no signal of the guest waits.
abbrev close_host : CloseHost
close_host = record {
  close = λ e. if e == 2 then minus_one else 0;
  eintr = λ e. true;
  interrupted = λ e. false;
}

sys_close-IsFds_example :
    (after : Fds) × (sys_close 4 close_host table (pos 6) ≡ some (after, 2, 0, none))
    × IsFds after (1 ∷ 3 ∷ [])
unfolding finish_close
sys_close-IsFds_example =
    sys_close-IsFds 4 close_host table 6 (1 ∷ 2 ∷ 3 ∷ []) table-IsFds (omega arith)
      (λ e. absurd (omega arith))

destroy_fds-all_example :
    (after : Fds) × (destroy_fds 4 table ≡ ok (after, 1 ∷ 2 ∷ 3 ∷ [])) × (after.list ≡ 0)
destroy_fds-all_example = destroy_fds-all 4 table (1 ∷ 2 ∷ 3 ∷ []) table-IsFds (omega arith)

close_fds-all_example :
    (after : Links) × (rc : ℕ) × (close_fds 4 close_host three 3 ≡ ok (after, 1 ∷ 2 ∷ 3 ∷ [], rc))
    × ((rc ≡ 0) ↔ AllClose close_host.close (1 ∷ 2 ∷ 3 ∷ []))
close_fds-all_example =
    close_fds-all 4 close_host three 3 (1 ∷ 2 ∷ 3 ∷ []) three-IsDll (omega arith)

-- A failure in the middle is returned.
abbrev code_of : Result (Links × List ℕ × ℕ) → ℕ
code_of (ok r) = r.2
code_of aborted = 0
code_of no_fuel = 0

failed_close : code_of (close_fds 4 close_host three 3) ≡ minus_one
unfolding close_fds
failed_close = refl

counted : count_fds 4 table ≡ some 3
unfolding count_fds
counted = refl

-- A number that is not in the table.
refused : get_fd 4 table (negsuc 0) ≡ some (table, 0, some ebadf)
unfolding get_fd
refused = refl
