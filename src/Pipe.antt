-- ===== src/Pipe.antt =====
-- native/blink/blink/pipe_internal.c: a pipe inside the emulator, as a ring buffer. `int` fields
-- are numbers below `capacity`, so none of the sums below passes the range of `int`.
pub mod Ring
pub mod Fifo
pub mod Laws
pub mod Trace
pub mod Reading
pub mod Writing
use atua_computer.Base.{
  ℕ, zero, suc, ◌+◌, ◌-◌, ◌*◌, ◌/◌, ◌%◌, ◌^◌, ◌≤◌, ◌<◌, min, max, bit_and, bit_or, bit_xor, ◌≡◌,
  refl, sym, ap, ap₂, ◌∙◌, subst, ◌≢◌, ◌↔◌, ◌⊎◌, inl, inr, Bool, true, false, not, ◌&&◌, ◌||◌,
  Option, none, some, List, [], ◌∷◌, ◌++◌, arith, ltb, leb, ◌==◌, if◌then◌else◌, length, get_or,
  set, take, drop,
}
use native.Mathlib.Decide.{ℕ_discrete}

pub record PipeInternal : Type 0 where
  pub buffer : List ℕ
  pub capacity : ℕ
  pub read_pos : ℕ
  pub write_pos : ℕ
  pub write_closed : Bool
  pub read_closed : Bool

abbrev pub pipe_buf_size : ℕ
pipe_buf_size = 64 * 1024

-- What `calloc` and `malloc` give is an argument: whether there was room for the structure, and
-- the bytes that the new buffer happens to hold.
unfoldable pub create_pipe_internal : Bool → Option (List ℕ) → Option PipeInternal
create_pipe_internal false block = none
create_pipe_internal true none = none
create_pipe_internal true (some block) = some record {
  buffer = block;
  capacity = pipe_buf_size;
  read_pos = 0;
  write_pos = 0;
  write_closed = false;
  read_closed = false;
}

-- `(pos + 1) % p->capacity`
unfoldable pub next_pos : ℕ → ℕ → ℕ
next_pos capacity pos = (pos + 1) % capacity

-- The loop of `PipeInternalRead`, over the room that `buf` still has. All three ways out of an
-- empty buffer return what was read. The bytes put in `buf` are given back as a list.
unfoldable pub read_loop : ℕ → PipeInternal → PipeInternal × List ℕ
unfolding next_pos
read_loop zero p = (p, [])
read_loop (suc room) p =
    let rest = read_loop room (record p { read_pos = next_pos p.capacity p.read_pos }) in
    if p.read_pos == p.write_pos then (p, []) else (rest.0, get_or p.buffer p.read_pos 0 ∷ rest.1)

-- A negative `len` reads nothing, as 0 does.
unfoldable pub pipe_internal_read : PipeInternal → ℕ → PipeInternal × List ℕ
unfolding read_loop
pipe_internal_read p len = read_loop len p

-- The loop of `PipeInternalWrite`, over what is left of `buf`, with the bytes it took.
unfoldable pub write_loop : List ℕ → PipeInternal → PipeInternal × ℕ
unfolding next_pos
write_loop [] p = (p, 0)
write_loop (byte ∷ bytes) p =
    let next = next_pos p.capacity p.write_pos in
    let rest =
      write_loop bytes (record p { buffer = set p.buffer p.write_pos byte; write_pos = next }) in
    if next == p.read_pos then (p, 0) else (rest.0, suc rest.1)

-- -1 with `errno` set to EPIPE, or the bytes taken.
pub data WriteResult : Type 0 where
  epipe : WriteResult
  written : ℕ → WriteResult

unfoldable pub pipe_internal_write : PipeInternal → List ℕ → PipeInternal × WriteResult
unfolding write_loop
pipe_internal_write p bytes =
    if p.read_closed
    then (p, epipe)
    else (let done = write_loop bytes p in (done.0, written done.1))

-- The ends as `PipeInternalClose` tells them apart.
pub data End : Type 0 where
  read_end write_end : End

-- The marks that `PipeInternalClose` makes.
unfoldable pub mark_closed : PipeInternal → End → PipeInternal
mark_closed p write_end = record p { write_closed = true }
mark_closed p read_end = record p { read_closed = true }

-- `none` once the memory has been freed.
unfoldable pub pipe_internal_close : PipeInternal → End → Option PipeInternal
unfolding mark_closed
pipe_internal_close p end =
    let q = mark_closed p end in if q.write_closed && q.read_closed then none else some q
