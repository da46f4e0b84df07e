-- ===== src/Pipe/Trace.antt =====
-- Runs of native/blink/blink/pipe_internal.c: any interleaving of reads, writes and closes.
use atua_computer.Base.{
  inr, append-nil, none-ne-some, inl, Bool-cases, take-append-drop, append_assoc, some-injective, ℕ,
  ◌<◌, ◌≡◌, refl, sym, ap, ap₂, ◌∙◌, subst, List, [], ◌++◌, arith, length, take, some, true,
}
use atua_computer.Pipe.Laws.{
  IsClose, IsWrite, pipe_internal_read_lem, pipe_internal_write_lem, pipe_internal_close_lem,
  closed, other_end, ClosedAs,
}
use atua_computer.Pipe.Ring.{distance, segment, distance-lt}
use atua_computer.Pipe.Fifo.{length-contents, IsPipe, contents, WrittenAs}
use atua_computer.Pipe.{
  PipeInternal, pipe_internal_read, pipe_internal_write, pipe_internal_close, create_pipe_internal,
  pipe_buf_size, WriteResult, epipe, written, End,
}

-- The bytes that a write took over, by what it returned.
abbrev pub taken : List ℕ → WriteResult → List ℕ
taken bytes epipe = []
taken bytes (written count) = take count bytes

-- `Run p ins outs`: `p` comes from a new pipe after writes that took `ins` and reads that gave
-- `outs`, in any order, and it has not been freed.
pub data Run : PipeInternal → List ℕ → List ℕ → Type 0 where
  created :
      {p : PipeInternal} (block : List ℕ)
      → length block ≡ pipe_buf_size
      → create_pipe_internal true (some block) ≡ some p
      → Run p [] []
  read :
      {p : PipeInternal} {ins outs : List ℕ} (len : ℕ)
      → Run p ins outs
      → Run (pipe_internal_read p len).0 ins (outs ++ (pipe_internal_read p len).1)
  write :
      {p : PipeInternal} {ins outs : List ℕ} (bytes : List ℕ)
      → Run p ins outs
      → Run
          (pipe_internal_write p bytes).0
          (ins ++ taken bytes (pipe_internal_write p bytes).1)
          outs
  close :
      {p q : PipeInternal} {ins outs : List ℕ} (end : End)
      → Run p ins outs
      → pipe_internal_close p end ≡ some q
      → Run q ins outs

pub record IsStream (p : PipeInternal) (ins outs : List ℕ) : Type 0 where
  pub valid : IsPipe p
  pub size : p.capacity ≡ pipe_buf_size
  pub stream : outs ++ contents p ≡ ins
  pub bound : length (contents p) < pipe_buf_size

IsStream-created :
    (block : List ℕ) (p : PipeInternal)
    → length block ≡ pipe_buf_size
    → create_pipe_internal true (some block) ≡ some p
    → IsStream p [] []
unfolding create_pipe_internal segment distance
IsStream-created block p full e =
    subst (λ t. IsStream t [] []) (some-injective _ _ e)
      (record {
        valid = record { allocated = full; read_inside = omega arith; write_inside = omega arith };
        size = refl;
        stream = refl;
        bound = omega arith;
      })

bounded :
    (p : PipeInternal) → IsPipe p → p.capacity ≡ pipe_buf_size → length (contents p) < pipe_buf_size
bounded p ok size = omega (
  arith,
  length-contents p ok,
  size,
  distance-lt p.capacity p.read_pos p.write_pos ok.read_inside ok.write_inside,
)

module _ (p : PipeInternal) (ins outs : List ℕ) (was : IsStream p ins outs) where
  IsStream-read :
      (len : ℕ) → IsStream (pipe_internal_read p len).0 ins (outs ++ (pipe_internal_read p len).1)
  IsStream-read len =
      let r = pipe_internal_read_lem p len was.valid in
      let size = r.ends.capacity_kept ∙ was.size in
      record {
        valid = r.valid;
        size = size;
        stream =
            append_assoc outs _ _
            ∙ ap (λ t. outs ++ t)
                (ap₂ (λ s t. s ++ t) r.bytes r.left ∙ take-append-drop len (contents p))
            ∙ was.stream;
        bound = bounded _ r.valid size;
      }

  IsStream-write :
      (bytes : List ℕ)
      → IsStream
          (pipe_internal_write p bytes).0
          (ins ++ taken bytes (pipe_internal_write p bytes).1)
          outs
  IsStream-write bytes = elim (Bool-cases p.read_closed) [
    | inl e ↦
        subst (λ r. IsStream r.0 (ins ++ taken bytes r.1) outs) (sym (w.refused e))
          (record {
            valid = was.valid;
            size = was.size;
            stream = was.stream ∙ sym (append-nil ins);
            bound = was.bound;
          })
    | inr e ↦ grows (w.accepted e)
  ]
    where
      w : IsWrite p bytes (pipe_internal_write p bytes)
      w = pipe_internal_write_lem p bytes was.valid

      r : PipeInternal × WriteResult
      r = pipe_internal_write p bytes

      grows :
          (count : ℕ) × (r.1 ≡ written count) × WrittenAs p bytes (r.0, count)
          → IsStream r.0 (ins ++ taken bytes r.1) outs
      grows a =
          let size = a.2.ends.capacity_kept ∙ was.size in
          record {
            valid = a.2.valid;
            size = size;
            stream =
                ap (λ t. outs ++ t) a.2.appended
                ∙ sym (append_assoc outs (contents p) (take a.0 bytes))
                ∙ ap₂ (λ s t. s ++ taken bytes t) was.stream (sym a.1);
            bound = bounded _ a.2.valid size;
          }

  IsStream-close :
      (end : End) (q : PipeInternal) → pipe_internal_close p end ≡ some q → IsStream q ins outs
  IsStream-close end q e = elim (Bool-cases (closed (other_end end) p)) [
    | inl shut ↦ absurd (none-ne-some q (sym (c.freed shut) ∙ e))
    | inr yet ↦
        let a = c.alive yet in
        subst (λ t. IsStream t ins outs) (some-injective _ _ (sym a.1 ∙ e)) (marked a.0 a.2)
  ]
    where
      c : IsClose p end (pipe_internal_close p end)
      c = pipe_internal_close_lem p end

      marked : (q : PipeInternal) → ClosedAs p end q → IsStream q ins outs
      marked q k = record {
        valid = k.valid was.valid;
        size = k.capacity_kept ∙ was.size;
        stream = ap (λ t. outs ++ t) k.kept ∙ was.stream;
        bound = subst (λ t. length t < pipe_buf_size) (sym k.kept) was.bound;
      }

-- Whatever the order of reads, writes and closes, the bytes read and then the bytes still held are
-- exactly the bytes taken by the writes, in order; the pipe stays well formed and never holds its
-- full 64 KiB.
pub Run-IsStream : {p : PipeInternal} {ins outs : List ℕ} → Run p ins outs → IsStream p ins outs
Run-IsStream (created block full e) = IsStream-created block _ full e
Run-IsStream (read len run) = IsStream-read _ _ _ (Run-IsStream run) len
Run-IsStream (write bytes run) = IsStream-write _ _ _ (Run-IsStream run) bytes
Run-IsStream (close {p} {q} end run e) = IsStream-close p _ _ (Run-IsStream run) end q e
