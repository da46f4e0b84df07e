-- ===== src/Pipe/Writing.antt =====
-- `PipeInternalWrite` of native/blink/blink/pipe_internal.c adds bytes at the back of the queue.
use atua_computer.Pipe.Fifo.{
  held, length-contents, SameEnds-refl, WrittenAs, contents, free_space, IsPipe,
}
use atua_computer.Base.{
  ℕ, suc, ◌<◌, ◌≡◌, refl, sym, ap, ap₂, ◌∙◌, subst, ◌≢◌, List, [], ◌∷◌, ◌++◌, arith, set, take,
  get_or-set_self, append-nil, append_assoc, if_equal, if_unequal, length-set,
}
use atua_computer.Pipe.Ring.{
  segment-set, distance-lt, segment-suc, distance-full, distance-to-next_pos, next_pos-lt,
}
use native.Mathlib.Decide.{ℕ_discrete}
use atua_computer.Pipe.{PipeInternal, next_pos, write_loop}

-- Writing one byte.
module _ (p : PipeInternal) (ok : IsPipe p) (byte : ℕ) where
  grown : PipeInternal
  grown = record p {
    buffer = set p.buffer p.write_pos byte;
    write_pos = next_pos p.capacity p.write_pos;
  }

  grown-IsPipe : IsPipe grown
  unfolding grown
  grown-IsPipe = record {
    allocated = length-set p.buffer p.write_pos byte ∙ ok.allocated;
    read_inside = ok.read_inside;
    write_inside = next_pos-lt p.capacity p.write_pos ok.write_inside;
  }

  contents-grown :
      next_pos p.capacity p.write_pos ≢ p.read_pos → contents grown ≡ contents p ++ (byte ∷ [])
  unfolding grown
  contents-grown ne =
      let changed = set p.buffer p.write_pos byte in
      let longer =
        distance-to-next_pos p.capacity p.read_pos p.write_pos ok.read_inside ok.write_inside ne in
      let split =
        segment-suc changed p.capacity p.read_pos p.write_pos (held p) ok.read_inside
          ok.write_inside refl in
      let old =
        segment-set p.buffer p.capacity p.read_pos p.write_pos byte (held p) ok.read_inside
          ok.write_inside (omega arith) in
      let new =
        get_or-set_self p.buffer p.write_pos byte 0
          (subst (λ t. p.write_pos < t) (sym ok.allocated) ok.write_inside) in
      rw longer (split ∙ ap₂ (λ s t. s ++ (t ∷ [])) old new)

  free_space-full : next_pos p.capacity p.write_pos ≡ p.read_pos → free_space p ≡ 0
  free_space-full e = omega (
    arith,
    length-contents p ok,
    distance-full p.capacity p.read_pos p.write_pos ok.read_inside ok.write_inside e,
  )

  free_space-grown :
      next_pos p.capacity p.write_pos ≢ p.read_pos → free_space p ≡ suc (free_space grown)
  unfolding grown
  free_space-grown ne = omega (
    arith,
    length-contents p ok,
    length-contents grown grown-IsPipe,
    distance-to-next_pos p.capacity p.read_pos p.write_pos ok.read_inside ok.write_inside ne,
    distance-lt p.capacity p.read_pos (next_pos p.capacity p.write_pos) ok.read_inside
        (next_pos-lt p.capacity p.write_pos ok.write_inside),
  )

  module _ (bytes : List ℕ) where
    WrittenAs-full :
        next_pos p.capacity p.write_pos ≡ p.read_pos → WrittenAs p (byte ∷ bytes) (p, 0)
    WrittenAs-full e = record {
      valid = ok;
      count = omega (arith, free_space-full e);
      appended = sym (append-nil (contents p));
      ends = SameEnds-refl p;
    }

    WrittenAs-more :
        next_pos p.capacity p.write_pos ≢ p.read_pos
        → (r : PipeInternal × ℕ) → WrittenAs grown bytes r
        → WrittenAs p (byte ∷ bytes) (r.0, suc r.1)
    unfolding grown
    WrittenAs-more ne r rest = record {
      valid = rest.valid;
      count = omega (arith, rest.count, free_space-grown ne);
      appended =
          rest.appended
          ∙ ap (λ t. t ++ take r.1 bytes) (contents-grown ne)
          ∙ append_assoc (contents p) (byte ∷ []) (take r.1 bytes);
      ends = record {
        capacity_kept = rest.ends.capacity_kept;
        write_end_kept = rest.ends.write_end_kept;
        read_end_kept = rest.ends.read_end_kept;
      };
    }

    write_loop-full :
        next_pos p.capacity p.write_pos ≡ p.read_pos → write_loop (byte ∷ bytes) p ≡ (p, 0)
    unfolding write_loop
    write_loop-full e = if_equal (next_pos p.capacity p.write_pos) p.read_pos _ _ e

    write_loop-more :
        next_pos p.capacity p.write_pos ≢ p.read_pos
        → write_loop (byte ∷ bytes) p ≡ ((write_loop bytes grown).0, suc (write_loop bytes grown).1)
    unfolding write_loop grown
    write_loop-more ne = if_unequal (next_pos p.capacity p.write_pos) p.read_pos _ _ ne

pub write_loop_lem : (xs : List ℕ) (p : PipeInternal) → IsPipe p → WrittenAs p xs (write_loop xs p)
unfolding write_loop
write_loop_lem [] p ok = record {
  valid = ok;
  count = omega arith;
  appended = sym (append-nil (contents p));
  ends = SameEnds-refl p;
}
write_loop_lem (byte ∷ bytes) p ok =
    elim (ℕ_discrete (next_pos p.capacity p.write_pos) p.read_pos) [
      | yes full ↦
          subst (WrittenAs p (byte ∷ bytes)) (sym (write_loop-full p ok byte bytes full))
            (WrittenAs-full p ok byte bytes full)
      | no room ↦ subst (WrittenAs p (byte ∷ bytes)) (sym (write_loop-more p ok byte bytes room)) (
          WrittenAs-more p ok byte bytes room _
            (write_loop_lem bytes (grown p ok byte) (grown-IsPipe p ok byte)))
    ]
