-- ===== src/Pipe/Stream.antt =====
-- Reading and writing of src/native_pipe.c: the byte ring, and one round of each blocking loop.
use atmkoala.Base.{
  ℕ, zero, suc, ◌+◌, ◌-◌, ◌%◌, Option, none, some, Bool, ◌==◌, if◌then◌else◌, ltb, is_some,
  points_to, update, List, [], ◌∷◌, length, take, ℤ, pos, neg, min,
}
use atmkoala.Kernel.{Pipe, Kernel, set_pipe, u32_mod}
use atmkoala.Sched.Switch.{task_block, task_block_from_syscall}
use atmkoala.Pipe.{
  pipe_cap, eagain, epipe, PipeEnd, pipe_decode, pipe_wake_reader, pipe_wake_writer,
}

-- `n` rounds of the copy out of the ring: the bytes, and the pipe with its new tail.
unfoldable pub copy_out : ℕ → Pipe → List ℕ × Pipe
copy_out zero p = ([], p)
copy_out (suc n) p =
    let (xs, p') = copy_out n (record p { tail = ((p.tail + 1) % u32_mod) % pipe_cap }) in
    (p.buffer p.tail ∷ xs, p')

-- The copy of bytes into the ring.
unfoldable pub copy_in : List ℕ → Pipe → Pipe
copy_in [] p = p
copy_in (x ∷ xs) p =
    copy_in xs
      (record p { buffer = update p.buffer p.head x; head = ((p.head + 1) % u32_mod) % pipe_cap })

-- A round of a loop returns a number with the bytes read, or publishes the task as waiter and
-- blocks; it starts again when the task runs next.
pub data Round : Type 0 where
  returns : ℤ → List ℕ → Kernel → Round
  waits : Kernel → Round

-- `if(pipe->reader_waiter==task) pipe->reader_waiter=0;`
abbrev pub forget : Option ℕ → ℕ → Option ℕ
forget w t = if points_to w t then none else w

abbrev pub clear_reader : Pipe → ℕ → Pipe
clear_reader p t = record p { reader_waiter = forget p.reader_waiter t }

abbrev pub clear_writer : Pipe → ℕ → Pipe
clear_writer p t = record p { writer_waiter = forget p.writer_waiter t }

-- The pipe after `n` bytes have left it, with those bytes.
unfoldable pub take_bytes : ℕ → Pipe → List ℕ × Pipe
take_bytes n p = let (xs, p') = copy_out n p in (xs, record p' { count = p'.count - n })

unfoldable pub put_bytes : List ℕ → Pipe → Pipe
put_bytes xs p = let p' = copy_in xs p in record p' { count = (p'.count + length xs) % u32_mod }

-- The body of the loop of `native_pipe_read`, for the task `t` at the pipe `i`.
unfoldable pub read_round : (t i count : ℕ) (nonblock : Bool) → Kernel → Round
read_round t i count nonblock k =
    let p = k.pipe_pool i in
    if ltb 0 p.count
    then (let (xs, p') = take_bytes (min count p.count) p in
        Round.returns (pos (min count p.count)) xs
          (pipe_wake_writer i (set_pipe k i (clear_reader p' t))))
    else if p.write_refs == 0
    then Round.returns (pos 0) [] (set_pipe k i (clear_reader p t))
    else if nonblock
    then Round.returns (neg eagain) [] k
    else Round.waits (set_pipe k i (record p { reader_waiter = some t }))

-- `buf` is not null.
unfoldable pub native_pipe_read : (t fd count : ℕ) (nonblock : Bool) → Kernel → Round
native_pipe_read t fd count nonblock k = elim (pipe_decode k t fd) [
  | none ↦ Round.returns (neg 1) [] k
  | some (i, PipeEnd.write_end) ↦ Round.returns (neg 1) [] k
  | some (i, PipeEnd.read_end) ↦
      if count == 0 then Round.returns (pos 0) [] k else read_round t i count nonblock k
]

-- The body of the loop of `native_pipe_write`. The bytes that `buf` and `count` stand for are `xs`.
unfoldable pub write_round : (t i : ℕ) → List ℕ → (nonblock : Bool) → Kernel → Round
write_round t i xs nonblock k =
    let p = k.pipe_pool i in
    if p.read_refs == 0
    then Round.returns (neg epipe) [] (set_pipe k i (clear_writer p t))
    else if ltb p.count pipe_cap
    then (let n = min (length xs) (pipe_cap - p.count) in
        Round.returns (pos n) []
          (pipe_wake_reader i (set_pipe k i (clear_writer (put_bytes (take n xs) p) t))))
    else if nonblock
    then Round.returns (neg eagain) [] k
    else Round.waits (set_pipe k i (record p { writer_waiter = some t }))

unfoldable pub native_pipe_write : (t fd : ℕ) → List ℕ → (nonblock : Bool) → Kernel → Round
native_pipe_write t fd xs nonblock k = elim (pipe_decode k t fd) [
  | none ↦ Round.returns (neg 1) [] k
  | some (i, PipeEnd.read_end) ↦ Round.returns (neg 1) [] k
  | some (i, PipeEnd.write_end) ↦
      if length xs == 0 then Round.returns (pos 0) [] k else write_round t i xs nonblock k
]

-- How a task that waits leaves the CPU. `none` is a fault of the tick that the wait raises.
unfoldable pub wait_for_pipe : ℕ → Kernel → Option Kernel
wait_for_pipe t k =
    if is_some (k.tasks t).address_space then some (task_block_from_syscall k) else task_block k
