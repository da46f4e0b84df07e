-- ===== src/Fds.antt =====
-- native/blink/blink/fds.c, and the calls of close.c that take descriptors out of their table. This
-- is the build without __ATUA_BROWSER__, with the lock of the table held.
pub mod Close
pub mod Adding
pub mod Table
pub mod Closing
use atua_computer.Base.{
  ℤ, pos, negsuc, replicate, length-append, append-nil, append_assoc, if_true, if_false, ℕ, zero,
  suc, ◌+◌, ◌-◌, ◌*◌, ◌/◌, ◌%◌, ◌^◌, ◌≤◌, ◌<◌, ◌≡◌, ◌≢◌, ◌↔◌, ◌⊎◌, inl, inr, refl, sym, ◌∙◌, ap,
  ap₂, subst, arith, bit_and, bit_or, bit_xor, ◌&&&◌, ◌|||◌, ◌^^^◌, ◌>>>◌, ◌<<<◌, not64, ◌==◌, ltb,
  leb, true, false, Bool, not, ◌&&◌, ◌||◌, Option, none, some, some-injective, none-ne-some, List,
  [], ◌∷◌, ◌++◌, length, get_or, set, take, drop, if_equal, if_unequal, ==_iff, Bool-cases,
  if◌then◌else◌, min, max,
}
use atua_computer.Dll.{
  Links, dll_init, dll_first, dll_next, dll_remove, dll_make_first, dll_make_last,
}

-- `errno`, where these functions set it.
pub data FdErrno : Type 0 where
  einval ebadf : FdErrno

-- `kFdCbHost` is the only table of callbacks that fds.c stores, so `cb` is left out; `saddr` are the
-- bytes of the union.
pub record Fd : Type 0 where
  pub fildes : ℤ
  pub oflags : ℕ
  pub socktype : ℕ
  pub norestart : Bool
  pub path : Option (List ℕ)
  pub saddr : List ℕ

-- The descriptors by address: a node is the descriptor that holds it.
pub record Fds : Type 0 where
  pub list : ℕ
  pub links : Links
  pub fd : ℕ → Fd

abbrev pub blank_fd : Fd
blank_fd = record {
  fildes = pos 0;
  oflags = 0;
  socktype = 0;
  norestart = false;
  path = none;
  saddr = replicate 28 0;
}

abbrev pub same_fildes : ℤ → ℤ → Bool
same_fildes (pos a) (pos b) = a == b
same_fildes (pos a) (negsuc b) = false
same_fildes (negsuc a) (pos b) = false
same_fildes (negsuc a) (negsuc b) = a == b

abbrev pub set_fd : Fds → ℕ → Fd → Fds
set_fd fds e fd = record fds { fd = λ a. if a == e then fd else fds.fd a }

unfoldable pub init_fds : Fds → Fds
init_fds fds = record fds { list = 0 }

-- What `calloc` gave for a descriptor, 0 if nothing, linked to itself and put first.
unfoldable pub link_fd : Fds → ℕ → Fd → Fds
unfolding dll_init dll_make_first
link_fd fds e fd =
    let alone = dll_init fds.links e in
    let linked = dll_make_first alone fds.list e in
    record (set_fd fds e fd) { list = linked.1; links = linked.0 }

-- The descriptor that is returned, 0 for none.
unfoldable pub add_fd : Fds → ℤ → ℕ → ℕ → Fds × ℕ × Option FdErrno
unfolding link_fd
add_fd fds (pos fildes) oflags new =
    if not (new == 0)
    then (link_fd fds new (record blank_fd { fildes = pos fildes; oflags = oflags }), new, none)
    else (fds, 0, none)
add_fd fds (negsuc fildes) oflags new = (fds, 0, some einval)

-- What a copy keeps of the descriptor at `fd`, of which 0 is none.
abbrev pub inherit : Fds → ℕ → Fd → Fd
inherit fds fd copy =
    if not (fd == 0)
    then record copy {
      path = (fds.fd fd).path;
      socktype = (fds.fd fd).socktype;
      norestart = (fds.fd fd).norestart;
      saddr = (fds.fd fd).saddr;
    }
    else copy

-- `strdup` of a path that is there is taken to succeed.
unfoldable pub fork_fd : Fds → ℕ → ℤ → ℕ → ℕ → Fds × ℕ × Option FdErrno
unfolding add_fd
fork_fd fds fd fildes oflags new =
    let added = add_fd fds fildes oflags new in
    if not (added.1 == 0)
    then (set_fd added.0 added.1 (inherit added.0 fd (added.0.fd added.1)), added.1, added.2)
    else added

-- A descriptor that was found: it becomes the first, unless it is so already.
unfoldable pub touch_fd : Fds → Bool → ℕ → Fds
unfolding dll_remove dll_make_first
touch_fd fds lru e =
    let removed = dll_remove fds.links fds.list e in
    let first = dll_make_first removed.0 removed.1 e in
    if lru then record fds { list = first.1; links = first.0 } else fds

-- The loop of `GetFd`; `none` if it is not given a round for each node and one more.
unfoldable pub get_loop : ℕ → Fds → Bool → ℕ → ℤ → Option (Fds × ℕ)
unfolding dll_next touch_fd
get_loop zero fds lru e fildes = none
get_loop (suc fuel) fds lru e fildes =
    let rest = get_loop fuel fds true (dll_next fds.links fds.list e) fildes in
    if not (e == 0)
    then (if same_fildes (fds.fd e).fildes fildes then some (touch_fd fds lru e, e) else rest)
    else some (fds, 0)

abbrev pub or_ebadf : Option (Fds × ℕ) → Option (Fds × ℕ × Option FdErrno)
or_ebadf none = none
or_ebadf (some (fds, e)) = some (fds, e, if e == 0 then some ebadf else none)

unfoldable pub get_fd : ℕ → Fds → ℤ → Option (Fds × ℕ × Option FdErrno)
unfolding dll_first get_loop
get_fd fuel fds (pos fildes) =
    or_ebadf (get_loop fuel fds false (dll_first fds.links fds.list) (pos fildes))
get_fd fuel fds (negsuc fildes) = some (fds, 0, some ebadf)

unfoldable pub count_loop : ℕ → Fds → ℕ → ℕ → Option ℕ
unfolding dll_next
count_loop zero fds e n = none
count_loop (suc fuel) fds e n =
    let rest = count_loop fuel fds (dll_next fds.links fds.list e) (n + 1) in
    if not (e == 0) then rest else some n

unfoldable pub count_fds : ℕ → Fds → Option ℕ
unfolding dll_first count_loop
count_fds fuel fds = count_loop fuel fds (dll_first fds.links fds.list) 0
