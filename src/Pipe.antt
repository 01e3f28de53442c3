-- ===== src/Pipe.antt =====
-- The anonymous pipes of src/native_pipe.c over the shared state of `Kernel`. A descriptor is a
-- number: a negative one is refused by every function here, as one below 3 is.
pub mod Stream
pub mod Ring
pub mod Fifo
pub mod Poll
mod Tests
use atmkoala.Base.{
  ℕ, zero, suc, ◌+◌, ◌*◌, ◌-◌, ◌/◌, ◌%◌, Option, none, some, Bool, true, false, ◌==◌, ◌&&◌, ◌||◌,
  not, if◌then◌else◌, ltb, leb, is_some, points_to, update, find_from, List, [], ◌∷◌, length, take,
  ℤ, pos, negsuc, neg, min,
}
use atmkoala.Kernel.{
  Task, is_blocked, Pipe, zero_pipe, Kernel, set_task, set_pipe, task_fd_max, u32_mod,
}
use atmkoala.Sched.Queue.{task_unblock}
use atmkoala.Sched.Switch.{task_block, task_block_from_syscall}

abbrev pub pipe_max : ℕ
pipe_max = 8

abbrev pub pipe_cap : ℕ
pipe_cap = 1024

abbrev pub eagain : ℕ
eagain = 11

abbrev pub epipe : ℕ
epipe = 32

-- The end that a descriptor stands for, the low bit of its entry in `pipe_map`.
pub data PipeEnd : Type 0 where
  read_end write_end : PipeEnd

abbrev pub decode_end : ℕ → PipeEnd
decode_end e = if e % 2 == 0 then PipeEnd.read_end else PipeEnd.write_end

abbrev pub encode : ℕ → PipeEnd → ℕ
encode slot PipeEnd.read_end = slot * 2
encode slot PipeEnd.write_end = slot * 2 + 1

-- The slot and the end behind a descriptor of the task `t`.
unfoldable pub pipe_decode : Kernel → (t fd : ℕ) → Option (ℕ × PipeEnd)
pipe_decode k t fd =
    if not (k.tasks t).fd_table_ready || ltb fd 3 || leb task_fd_max fd
    then none
    else (elim ((k.tasks t).pipe_map fd) [
      | none ↦ none
      | some e ↦
          if leb pipe_max (e / 2) || not (k.pipe_pool (e / 2)).used
          then none
          else some (e / 2, decode_end e)
    ])

unfoldable pub pipe_fd_free : Kernel → (t fd : ℕ) → Bool
pipe_fd_free k t fd =
    leb 3 fd
    && ltb fd task_fd_max
    && not (is_some ((k.tasks t).fd_map fd))
    && not (is_some ((k.tasks t).socket_map fd))
    && not (is_some ((k.tasks t).pipe_map fd))

-- `task_unblock` of the waiter, if there is one and it is blocked.
unfoldable pub wake_waiter : Option ℕ → Kernel → Kernel
wake_waiter none k = k
wake_waiter (some w) k = if is_blocked (k.tasks w).state then task_unblock w k else k

unfoldable pub pipe_wake_reader : ℕ → Kernel → Kernel
pipe_wake_reader i k = wake_waiter (k.pipe_pool i).reader_waiter k

unfoldable pub pipe_wake_writer : ℕ → Kernel → Kernel
pipe_wake_writer i k = wake_waiter (k.pipe_pool i).writer_waiter k

unfoldable pub pipe_maybe_free : ℕ → Kernel → Kernel
pipe_maybe_free i k =
    if (k.pipe_pool i).read_refs == 0 && (k.pipe_pool i).write_refs == 0
    then set_pipe k i zero_pipe
    else k

abbrev pub set_pipe_map : Kernel → (t fd : ℕ) → Option ℕ → Kernel
set_pipe_map k t fd e =
    set_task k t (record (k.tasks t) { pipe_map = update (k.tasks t).pipe_map fd e })

unfoldable pub native_pipe_task_init : ℕ → Kernel → Kernel
native_pipe_task_init t k = set_task k t (record (k.tasks t) { pipe_map = λ i. none })

abbrev pub is_pipe_fd : Kernel → (t fd : ℕ) → Bool
is_pipe_fd k t fd = is_some (pipe_decode k t fd)

-- `read_fd`, `write_fd` and the slot that `native_pipe_create` finds. The second search goes on
-- from `read_fd + 1`, which is 0 where the first one failed.
abbrev pub create_search : ℕ → Kernel → Option (ℕ × ℕ × ℕ)
create_search t k = elim (find_from (pipe_fd_free k t) 3 (task_fd_max - 3)) [
  | none ↦ none
  | some r ↦ elim (find_from (pipe_fd_free k t) (r + 1) (task_fd_max - (r + 1))) [
    | none ↦ none
    | some w ↦ elim (find_from (λ i. not (k.pipe_pool i).used) 0 pipe_max) [
      | none ↦ none
      | some s ↦ some (r, w, s)
    ]
  ]
]

-- The descriptors of the two ends, and the kernel behind the call.
unfoldable pub native_pipe_create : ℕ → Kernel → Option (ℕ × ℕ × Kernel)
native_pipe_create t k =
    if not (k.tasks t).fd_table_ready then none else (elim (create_search t k) [
      | none ↦ none
      | some (r, w, s) ↦
          let k1 = set_pipe k s (record zero_pipe { used = true; read_refs = 1; write_refs = 1 }) in
          let k2 = set_pipe_map k1 t r (some (encode s PipeEnd.read_end)) in
          some (r, w, set_pipe_map k2 t w (some (encode s PipeEnd.write_end)))
    ])

-- A reference to an end is dropped, and the waiter at the other end woken.
unfoldable pub drop_end : ℕ → PipeEnd → Kernel → Kernel
drop_end i PipeEnd.read_end k =
    pipe_wake_writer i
      (set_pipe k i (record (k.pipe_pool i) { read_refs = (k.pipe_pool i).read_refs - 1 }))
drop_end i PipeEnd.write_end k =
    pipe_wake_reader i
      (set_pipe k i (record (k.pipe_pool i) { write_refs = (k.pipe_pool i).write_refs - 1 }))

unfoldable pub native_pipe_close : (t fd : ℕ) → Kernel → Option Kernel
native_pipe_close t fd k = elim (pipe_decode k t fd) [
  | none ↦ none
  | some (i, end) ↦ some (pipe_maybe_free i (drop_end i end (set_pipe_map k t fd none)))
]

-- The descriptors from `fd` on, `n` of them.
unfoldable pub cleanup_from : (n fd t : ℕ) → Kernel → Kernel
cleanup_from zero fd t k = k
cleanup_from (suc n) fd t k = cleanup_from n (fd + 1) t (
    if is_some ((k.tasks t).pipe_map fd)
    then elim (native_pipe_close t fd k) [ some k1 ↦ k1 | none ↦ k ]
    else k)

unfoldable pub native_pipe_task_cleanup : ℕ → Kernel → Kernel
native_pipe_task_cleanup t k = cleanup_from (task_fd_max - 3) 3 t k

-- One more reference to an end.
unfoldable pub add_ref : ℕ → PipeEnd → Kernel → Kernel
add_ref i PipeEnd.read_end k =
    set_pipe k i (record (k.pipe_pool i) { read_refs = ((k.pipe_pool i).read_refs + 1) % u32_mod })
add_ref i PipeEnd.write_end k =
    set_pipe k i
      (record (k.pipe_pool i) { write_refs = ((k.pipe_pool i).write_refs + 1) % u32_mod })

unfoldable pub native_pipe_dup : (t oldfd newfd : ℕ) → Kernel → Option Kernel
native_pipe_dup t oldfd newfd k = elim (pipe_decode k t oldfd) [
  | none ↦ none
  | some (i, end) ↦
      if pipe_fd_free k t newfd
      then some (set_pipe_map (add_ref i end k) t newfd ((k.tasks t).pipe_map oldfd))
      else none
]

unfoldable pub native_pipe_inherit : (child parent fd : ℕ) → Kernel → Option Kernel
native_pipe_inherit child parent fd k =
    if leb task_fd_max fd || not (pipe_fd_free k child fd)
    then none
    else (elim (pipe_decode k parent fd) [
      | none ↦ none
      | some (i, end) ↦
          some (set_pipe_map (add_ref i end k) child fd ((k.tasks parent).pipe_map fd))
    ])
