-- ===== src/Pipe/Laws.antt =====
-- The operations of native/blink/blink/pipe_internal.c refine a bounded queue of bytes.
use atua_computer.Base.{
  if◌then◌else◌, take-length, ℕ, ◌<◌, ◌≡◌, refl, sym, ap, ap₂, ◌∙◌, subst, List, [], ◌++◌, arith,
  length, take, Option, some, none, Bool, true, false,
}
use atua_computer.Pipe.{
  write_loop, PipeInternal, pipe_internal_read, pipe_internal_write, pipe_internal_close,
  WriteResult, epipe, written, End, read_end, write_end, mark_closed,
}
use atua_computer.Pipe.Reading.{read_loop_lem}
use atua_computer.Pipe.Writing.{write_loop_lem}
use atua_computer.Pipe.Fifo.{IsPipe, contents, ReadAs, WrittenAs}

-- `PipeInternalRead` gives the oldest bytes held, as many as asked for or all there are, leaves the
-- rest in order, and keeps the pipe well formed and its ends as they were.
pub pipe_internal_read_lem :
    (p : PipeInternal) (len : ℕ) → IsPipe p → ReadAs p len (pipe_internal_read p len)
unfolding pipe_internal_read
pipe_internal_read_lem p len ok = read_loop_lem len p ok

-- What a write gives: EPIPE and no change when the read end is closed, otherwise a count.
pub record IsWrite (p : PipeInternal) (bytes : List ℕ) (r : PipeInternal × WriteResult)
    : Type 0 where
  pub refused : p.read_closed ≡ true → r ≡ (p, epipe)
  pub accepted :
      p.read_closed ≡ false → (count : ℕ) × (r.1 ≡ written count) × WrittenAs p bytes (r.0, count)

module _ (p : PipeInternal) (bytes : List ℕ) where
  pipe_internal_write-closed : p.read_closed ≡ true → pipe_internal_write p bytes ≡ (p, epipe)
  unfolding pipe_internal_write
  pipe_internal_write-closed e =
      ap (λ b. if b then (p, epipe) else ((write_loop bytes p).0, written (write_loop bytes p).1)) e

  pipe_internal_write-open :
      p.read_closed ≡ false
      → pipe_internal_write p bytes ≡ ((write_loop bytes p).0, written (write_loop bytes p).1)
  unfolding pipe_internal_write
  pipe_internal_write-open e =
      ap (λ b. if b then (p, epipe) else ((write_loop bytes p).0, written (write_loop bytes p).1)) e

-- `PipeInternalWrite` refuses with EPIPE and changes nothing when the read end is closed; otherwise
-- it appends a prefix of the bytes, as long as the free space allows, and tells its length.
pub pipe_internal_write_lem :
    (p : PipeInternal) (bytes : List ℕ) → IsPipe p → IsWrite p bytes (pipe_internal_write p bytes)
pipe_internal_write_lem p bytes ok = record {
  refused = pipe_internal_write-closed p bytes;
  accepted = λ e.
      let count = (write_loop bytes p).1 in
      let same = pipe_internal_write-open p bytes e in
      (
        count,
        ap (λ r. r.1) same,
        subst (λ r. WrittenAs p bytes (r.0, count)) (sym same) (write_loop_lem bytes p ok),
      );
}

-- Bytes that an empty, open pipe has room for come back from one read as they were written.
pub pipe_internal_read-write :
    (p : PipeInternal) (bytes : List ℕ)
    → IsPipe p
    → p.read_closed ≡ false
    → contents p ≡ []
    → length bytes < p.capacity
    → (pipe_internal_read (pipe_internal_write p bytes).0 (length bytes)).1 ≡ bytes
pipe_internal_read-write p bytes ok is_open empty fits =
    let w = (pipe_internal_write_lem p bytes ok).accepted is_open in
    let q = (pipe_internal_write p bytes).0 in
    let count : w.0 ≡ length bytes = omega (arith, w.2.count, ap length empty) in
    let now : contents q ≡ bytes =
      w.2.appended ∙ ap₂ (λ s t. s ++ take t bytes) empty count ∙ take-length bytes in
    (pipe_internal_read_lem q (length bytes) w.2.valid).bytes
    ∙ ap (take (length bytes)) now
    ∙ take-length bytes

abbrev pub closed : End → PipeInternal → Bool
closed read_end p = p.read_closed
closed write_end p = p.write_closed

abbrev pub other_end : End → End
other_end read_end = write_end
other_end write_end = read_end

-- A pipe after one end was closed: the bytes held are still there.
pub record ClosedAs (p : PipeInternal) (end : End) (q : PipeInternal) : Type 0 where
  pub marked : closed end q ≡ true
  pub other : closed (other_end end) q ≡ closed (other_end end) p
  pub capacity_kept : q.capacity ≡ p.capacity
  pub kept : contents q ≡ contents p
  pub valid : IsPipe p → IsPipe q

pub record IsClose (p : PipeInternal) (end : End) (r : Option PipeInternal) : Type 0 where
  pub freed : closed (other_end end) p ≡ true → r ≡ none
  pub alive :
      closed (other_end end) p ≡ false → (q : PipeInternal) × (r ≡ some q) × ClosedAs p end q

-- `PipeInternalClose` frees the pipe exactly when the other end is closed already; otherwise it
-- marks this end alone, and the bytes held stay readable.
pub pipe_internal_close_lem :
    (p : PipeInternal) (end : End) → IsClose p end (pipe_internal_close p end)
unfolding pipe_internal_close mark_closed
pipe_internal_close_lem p read_end = record {
  freed = λ e. rw e refl;
  alive = λ e. (
    record p { read_closed = true },
    rw e refl,
    record {
      marked = refl;
      other = refl;
      capacity_kept = refl;
      kept = refl;
      valid = λ ok. record {
        allocated = ok.allocated;
        read_inside = ok.read_inside;
        write_inside = ok.write_inside;
      };
    },
  );
}
pipe_internal_close_lem p write_end = record {
  freed = λ e. rw e refl;
  alive = λ e. (
    record p { write_closed = true },
    rw e refl,
    record {
      marked = refl;
      other = refl;
      capacity_kept = refl;
      kept = refl;
      valid = λ ok. record {
        allocated = ok.allocated;
        read_inside = ok.read_inside;
        write_inside = ok.write_inside;
      };
    },
  );
}
