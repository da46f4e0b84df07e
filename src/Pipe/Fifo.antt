-- ===== src/Pipe/Fifo.antt =====
-- native/blink/blink/pipe_internal.c against a queue of bytes: what a pipe holds, and what its
-- operations are to do to that.
use atua_computer.Base.{ℕ, ◌-◌, ◌<◌, min, ◌≡◌, refl, List, ◌++◌, length, take, drop}
use atua_computer.Pipe.Ring.{length-segment, distance, segment}
use atua_computer.Pipe.{PipeInternal}

-- The buffer is allocated in full, and both positions stay inside.
pub record IsPipe (p : PipeInternal) : Type 0 where
  pub allocated : length p.buffer ≡ p.capacity
  pub read_inside : p.read_pos < p.capacity
  pub write_inside : p.write_pos < p.capacity

-- The bytes written and not read yet, oldest first.
abbrev pub held : PipeInternal → ℕ
held p = distance p.capacity p.read_pos p.write_pos

abbrev pub contents : PipeInternal → List ℕ
contents p = segment p.buffer p.capacity p.read_pos (held p)

-- One byte always stays free, so that a full ring is not taken for an empty one.
abbrev pub free_space : PipeInternal → ℕ
free_space p = p.capacity - 1 - length (contents p)

-- What neither reading nor writing changes.
pub record SameEnds (p q : PipeInternal) : Type 0 where
  pub capacity_kept : q.capacity ≡ p.capacity
  pub write_end_kept : q.write_closed ≡ p.write_closed
  pub read_end_kept : q.read_closed ≡ p.read_closed

pub record ReadAs (p : PipeInternal) (len : ℕ) (r : PipeInternal × List ℕ) : Type 0 where
  pub valid : IsPipe r.0
  pub bytes : r.1 ≡ take len (contents p)
  pub left : contents r.0 ≡ drop len (contents p)
  pub ends : SameEnds p r.0

pub record WrittenAs (p : PipeInternal) (xs : List ℕ) (r : PipeInternal × ℕ) : Type 0 where
  pub valid : IsPipe r.0
  pub count : r.1 ≡ min (length xs) (free_space p)
  pub appended : contents r.0 ≡ contents p ++ take r.1 xs
  pub ends : SameEnds p r.0

pub SameEnds-refl : (p : PipeInternal) → SameEnds p p
SameEnds-refl p = record { capacity_kept = refl; write_end_kept = refl; read_end_kept = refl }

module _ (p : PipeInternal) (ok : IsPipe p) where
  pub length-contents : length (contents p) ≡ held p
  length-contents = length-segment p.buffer p.capacity p.read_pos (held p)
