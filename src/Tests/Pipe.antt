-- ===== src/Tests/Pipe.antt =====
-- Runs of native/blink/blink/pipe_internal.c on small buffers.
use atua_computer.Base.{◌≡◌, refl, [], ◌∷◌, ◌++◌, arith, true, false, replicate, length-replicate}
use atua_computer.Pipe.{
  PipeInternal, pipe_internal_read, pipe_internal_write, pipe_internal_close, create_pipe_internal,
  epipe, written, write_end,
}
use atua_computer.Pipe.Ring.{segment, distance}
use atua_computer.Pipe.Fifo.{contents, IsPipe, ReadAs}
use atua_computer.Pipe.Laws.{
  IsWrite, IsClose, pipe_internal_read_lem, pipe_internal_write_lem, pipe_internal_close_lem,
}
use atua_computer.Pipe.Trace.{taken, created, write, Run, IsStream, Run-IsStream}

-- Four bytes of room, of which 6 and then 7 are held.
abbrev wrapped : PipeInternal
wrapped = record {
  buffer = 7 ∷ 8 ∷ 9 ∷ 6 ∷ [];
  capacity = 4;
  read_pos = 3;
  write_pos = 1;
  write_closed = false;
  read_closed = false;
}

abbrev drained : PipeInternal
drained = record wrapped { read_pos = 1 }

wrapped-IsPipe : IsPipe wrapped
wrapped-IsPipe = record { allocated = refl; read_inside = omega arith; write_inside = omega arith }

drained-IsPipe : IsPipe drained
drained-IsPipe = record { allocated = refl; read_inside = omega arith; write_inside = omega arith }

read_wrapped : (pipe_internal_read wrapped 5).1 ≡ 6 ∷ 7 ∷ []
unfolding pipe_internal_read
read_wrapped = refl

write_wrapped : (pipe_internal_write wrapped (1 ∷ 2 ∷ [])).1 ≡ written 1
unfolding pipe_internal_write
write_wrapped = refl

write_refused :
    pipe_internal_write (record wrapped { read_closed = true }) (1 ∷ [])
    ≡ (record wrapped { read_closed = true }, epipe)
unfolding pipe_internal_write
write_refused = refl

pipe_internal_read_lem_example : ReadAs wrapped 1 (pipe_internal_read wrapped 1)
pipe_internal_read_lem_example = pipe_internal_read_lem wrapped 1 wrapped-IsPipe

pipe_internal_write_lem_example :
    IsWrite wrapped (1 ∷ 2 ∷ []) (pipe_internal_write wrapped (1 ∷ 2 ∷ []))
pipe_internal_write_lem_example = pipe_internal_write_lem wrapped (1 ∷ 2 ∷ []) wrapped-IsPipe

drained_empty : contents drained ≡ []
unfolding segment distance
drained_empty = refl

pipe_internal_close_lem_example : IsClose wrapped write_end (pipe_internal_close wrapped write_end)
pipe_internal_close_lem_example = pipe_internal_close_lem wrapped write_end

abbrev fresh : PipeInternal
fresh = record {
  buffer = replicate 65536 0;
  capacity = 65536;
  read_pos = 0;
  write_pos = 0;
  write_closed = false;
  read_closed = false;
}

started : Run fresh [] []
unfolding create_pipe_internal
started = created (replicate 65536 0) (length-replicate 65536 0) refl

Run-IsStream_example :
    IsStream
      (pipe_internal_write fresh (4 ∷ 5 ∷ [])).0
      ([] ++ taken (4 ∷ 5 ∷ []) (pipe_internal_write fresh (4 ∷ 5 ∷ [])).1)
      []
Run-IsStream_example = Run-IsStream (write (4 ∷ 5 ∷ []) started)
