-- ===== src/Pipe/Reading.antt =====
-- `PipeInternalRead` of native/blink/blink/pipe_internal.c takes bytes from the front of the queue.
use atua_computer.Pipe.Fifo.{SameEnds-refl, ReadAs, contents, IsPipe}
use atua_computer.Base.{
  ℕ, zero, suc, ◌≡◌, refl, sym, ap, ◌∙◌, subst, ◌≢◌, List, [], ◌∷◌, get_or, take, drop, if_equal,
  if_unequal,
}
use atua_computer.Pipe.Ring.{distance-next_pos, distance-same, next_pos-lt, segment}
use native.Mathlib.Decide.{ℕ_discrete}
use atua_computer.Pipe.{PipeInternal, next_pos, read_loop}

module _ (p : PipeInternal) (ok : IsPipe p) where
  stepped : PipeInternal
  stepped = record p { read_pos = next_pos p.capacity p.read_pos }

  stepped-IsPipe : IsPipe stepped
  unfolding stepped
  stepped-IsPipe = record {
    allocated = ok.allocated;
    read_inside = next_pos-lt p.capacity p.read_pos ok.read_inside;
    write_inside = ok.write_inside;
  }

  contents-empty : p.read_pos ≡ p.write_pos → contents p ≡ []
  unfolding segment
  contents-empty e = rw (sym e, distance-same p.capacity p.read_pos) refl

  contents-next :
      p.read_pos ≢ p.write_pos → contents p ≡ get_or p.buffer p.read_pos 0 ∷ contents stepped
  unfolding stepped segment
  contents-next ne =
      rw (distance-next_pos p.capacity p.read_pos p.write_pos ok.read_inside ok.write_inside ne)
        refl

module _ (len : ℕ) (p : PipeInternal) (ok : IsPipe p) where
  read_loop-empty : p.read_pos ≡ p.write_pos → read_loop (suc len) p ≡ (p, [])
  unfolding read_loop
  read_loop-empty e = if_equal p.read_pos p.write_pos _ _ e

  read_loop-more :
      p.read_pos ≢ p.write_pos
      → read_loop (suc len) p ≡ (
        (read_loop len (stepped p ok)).0,
        get_or p.buffer p.read_pos 0 ∷ (read_loop len (stepped p ok)).1,
      )
  unfolding read_loop stepped
  read_loop-more ne = if_unequal p.read_pos p.write_pos _ _ ne

  ReadAs-empty : p.read_pos ≡ p.write_pos → ReadAs p (suc len) (p, [])
  ReadAs-empty e =
      let nothing = contents-empty p ok e in
      record {
        valid = ok;
        bytes = rw nothing refl;
        left = nothing ∙ rw nothing refl;
        ends = SameEnds-refl p;
      }

  ReadAs-more :
      p.read_pos ≢ p.write_pos
      → (r : PipeInternal × List ℕ) → ReadAs (stepped p ok) len r
      → ReadAs p (suc len) (r.0, get_or p.buffer p.read_pos 0 ∷ r.1)
  unfolding stepped
  ReadAs-more ne r rest =
      let first = contents-next p ok ne in
      record {
        valid = rest.valid;
        bytes =
            ap (λ t. get_or p.buffer p.read_pos 0 ∷ t) rest.bytes ∙ sym (ap (take (suc len)) first);
        left = rest.left ∙ sym (ap (drop (suc len)) first);
        ends = record {
          capacity_kept = rest.ends.capacity_kept;
          write_end_kept = rest.ends.write_end_kept;
          read_end_kept = rest.ends.read_end_kept;
        };
      }

pub read_loop_lem : (len : ℕ) (p : PipeInternal) → IsPipe p → ReadAs p len (read_loop len p)
unfolding read_loop
read_loop_lem zero p ok = record { valid = ok; bytes = refl; left = refl; ends = SameEnds-refl p }
read_loop_lem (suc len) p ok = elim (ℕ_discrete p.read_pos p.write_pos) [
  | yes same ↦
      subst (ReadAs p (suc len)) (sym (read_loop-empty len p ok same)) (ReadAs-empty len p ok same)
  | no differ ↦
      subst (ReadAs p (suc len)) (sym (read_loop-more len p ok differ))
        (ReadAs-more len p ok differ _ (read_loop_lem len (stepped p ok) (stepped-IsPipe p ok)))
]
