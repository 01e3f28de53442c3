-- ===== src/Pipe/Tests.antt =====
-- A pipe with three bytes for the theorems on src/native_pipe.c; task 1 has its ends at 3 and 4.
use atmkoala.Base.{
  ◌↔◌, ◌%◌, ◌≢◌, ◌+◌, ◌≡◌, refl, none, some, true, false, ◌==◌, if◌then◌else◌, [], ◌∷◌, arith,
}
use atmkoala.Kernel.{zero_task, zero_pipe, Pipe, TaskState, Kernel}
use atmkoala.Pipe.{pipe_decode, PipeEnd}
use atmkoala.Pipe.Stream.{native_pipe_read, native_pipe_write}
use atmkoala.Pipe.Ring.{IsPipe, contents}
use atmkoala.Pipe.Poll.{
  pollin, pollout, is_wait, native_pipe_poll, native_pipe_poll_read, native_pipe_poll_write,
}
use atmkoala.Pipe.Fifo.{
  view, after, fifo_read, fifo_write, native_pipe_read_refines, native_pipe_write_refines,
}

abbrev test_pipe : Pipe
test_pipe = record zero_pipe {
  buffer = λ i. i + 65;
  head = 1;
  tail = 1022;
  count = 3;
  read_refs = 1;
  write_refs = 1;
  used = true;
}

abbrev test_kernel : Kernel
test_kernel = record {
  tasks = λ i.
      if i == 1
      then record zero_task {
        pid = 11;
        state = TaskState.running;
        fd_table_ready = true;
        pipe_map = λ fd. if fd == 3 then some 0 else if fd == 4 then some 1 else none;
      }
      else zero_task;
  current = some 1;
  run_queue_head = none;
  next_pid = 15;
  uptime_ticks = 100;
  idle_ticks = 0;
  quantum_counter = 0;
  sleep_meta = λ i. record { deadline = 0; active = false };
  released = [];
  pipe_pool = λ i. if i == 0 then test_pipe else zero_pipe;
}

test_pipe-IsPipe : IsPipe test_pipe
test_pipe-IsPipe = record { tail_in = omega arith; count_in = omega arith; head_at = refl }

decode_read : pipe_decode test_kernel 1 3 ≡ some (0, PipeEnd.read_end)
unfolding pipe_decode
decode_read = refl

decode_write : pipe_decode test_kernel 1 4 ≡ some (0, PipeEnd.write_end)
unfolding pipe_decode
decode_write = refl

native_pipe_read_refines_example :
    (view 0 (native_pipe_read 1 3 2 true test_kernel) ≡ fifo_read (contents test_pipe) true 2 true)
    × IsPipe ((after (native_pipe_read 1 3 2 true test_kernel)).pipe_pool 0)
native_pipe_read_refines_example =
    native_pipe_read_refines 1 3 0 2 true test_kernel decode_read (omega arith) test_pipe-IsPipe

native_pipe_write_refines_example :
    (view 0 (native_pipe_write 1 4 (7 ∷ 8 ∷ []) true test_kernel)
      ≡ fifo_write (contents test_pipe) true (7 ∷ 8 ∷ []) true)
    × IsPipe ((after (native_pipe_write 1 4 (7 ∷ 8 ∷ []) true test_kernel)).pipe_pool 0)
native_pipe_write_refines_example =
    native_pipe_write_refines 1 4 0 (7 ∷ 8 ∷ []) true test_kernel decode_write (omega arith)
      test_pipe-IsPipe

native_pipe_poll_read_example :
    native_pipe_poll 1 3 pollin test_kernel % 2 ≡ 1
    ↔ is_wait (native_pipe_read 1 3 5 false test_kernel) ≡ false
native_pipe_poll_read_example = native_pipe_poll_read 1 3 0 5 test_kernel decode_read (omega arith)

native_pipe_poll_write_example :
    native_pipe_poll 1 4 pollout test_kernel ≢ 0
    ↔ is_wait (native_pipe_write 1 4 (7 ∷ []) false test_kernel) ≡ false
native_pipe_poll_write_example =
    native_pipe_poll_write 1 4 0 (7 ∷ []) test_kernel decode_write (omega arith)
