-- ===== src/Fds/Close.antt =====
-- Descriptors leave their table: `DestroyFds` of native/blink/blink/fds.c, and `CloseFds` and `SysClose`
-- of close.c. What the host closes and frees is given as the list of descriptors, in their order.
use atua_computer.Base.{
  ℤ, ℕ, zero, suc, ◌==◌, Bool, not, ◌|||◌, ◌&&◌, Option, none, some, List, [], ◌∷◌, if◌then◌else◌,
}
use atua_computer.Memory.{Result, ok, aborted, no_fuel, ◌>>=◌}
use atua_computer.Dll.{Links, dll_first, dll_next, dll_remove}
use atua_computer.Fds.{Fds, FdErrno, get_fd}

abbrev pub add_freed : ℕ → Links × ℕ × List ℕ → Result (Links × ℕ × List ℕ)
add_freed e (links, list, freed) = ok (links, list, e ∷ freed)

-- The loop of `DestroyFds`: the node after is read before a node is removed.
unfoldable pub empty_loop : ℕ → Links → ℕ → ℕ → Result (Links × ℕ × List ℕ)
unfolding dll_next dll_remove
empty_loop zero links list e = no_fuel
empty_loop (suc fuel) links list e =
    let e2 = dll_next links list e in
    let removed = dll_remove links list e in
    if not (e == 0)
    then (empty_loop fuel removed.0 removed.1 e2 >>= add_freed e)
    else ok (links, list, [])

unfoldable pub destroy_fds : ℕ → Fds → Result (Fds × List ℕ)
unfolding dll_first empty_loop
destroy_fds fuel fds = empty_loop fuel fds.links fds.list (dll_first fds.links fds.list) >>= λ r.
    if r.1 == 0 then ok (record fds { links = r.0; list = r.1 }, r.2) else aborted

-- The host and the parts of the emulator that a descriptor is closed through, by the address of the
-- descriptor: what `VfsClosedir` or `cb->close` returns, as a pattern of 32 bits, whether `errno` is
-- EINTR then, and what `CheckInterrupt` returns then.
pub record CloseHost : Type 0 where
  pub close : ℕ → ℕ
  pub eintr : ℕ → Bool
  pub interrupted : ℕ → Bool

-- -1 as a pattern of 32 bits.
abbrev pub minus_one : ℕ
minus_one = 0xffff_ffff

abbrev pub add_closed : ℕ → Links × List ℕ × ℕ → Result (Links × List ℕ × ℕ)
add_closed e (links, closed, rc) = ok (links, e ∷ closed, rc)

-- The loop of `CloseFds`, with `rc` so far.
unfoldable pub close_loop : ℕ → CloseHost → Links → ℕ → ℕ → ℕ → Result (Links × List ℕ × ℕ)
unfolding dll_next dll_remove
close_loop zero host links list e rc = no_fuel
close_loop (suc fuel) host links list e rc =
    let e2 = dll_next links list e in
    let removed = dll_remove links list e in
    if not (e == 0)
    then (close_loop fuel host removed.0 removed.1 e2 (rc ||| host.close e) >>= add_closed e)
    else ok (links, [], rc)

unfoldable pub close_fds : ℕ → CloseHost → Links → ℕ → Result (Links × List ℕ × ℕ)
unfolding dll_first close_loop
close_fds fuel host links list = close_loop fuel host links list (dll_first links list) 0

-- The descriptor that is closed, 0 for none. The loop of `GetFd` may lack fuel.
unfoldable pub remove_found : Fds × ℕ × Option FdErrno → Fds × ℕ × Option FdErrno
unfolding dll_remove
remove_found (fds, e, errno) =
    let removed = dll_remove fds.links fds.list e in
    if not (e == 0)
    then (record fds { links = removed.0; list = removed.1 }, e, errno)
    else (fds, e, errno)

unfoldable pub finish_close : CloseHost → ℕ → ℕ → ℕ
finish_close host e rc =
    if (rc == minus_one) && host.eintr e && not (host.interrupted e) then 0 else rc

-- The table, the descriptor that is closed and freed, 0 for none, what is returned, and `errno`, where
-- `GetFd` sets it.
abbrev pub close_found : CloseHost → Fds × ℕ × Option FdErrno → Fds × ℕ × ℕ × Option FdErrno
close_found host (fds, e, errno) =
    (fds, e, if e == 0 then minus_one else finish_close host e (host.close e), errno)

abbrev pub close_some :
    CloseHost → Option (Fds × ℕ × Option FdErrno) → Option (Fds × ℕ × ℕ × Option FdErrno)
close_some host none = none
close_some host (some found) = some (close_found host (remove_found found))

unfoldable pub sys_close : ℕ → CloseHost → Fds → ℤ → Option (Fds × ℕ × ℕ × Option FdErrno)
unfolding get_fd remove_found finish_close
sys_close fuel host fds fildes = close_some host (get_fd fuel fds fildes)
