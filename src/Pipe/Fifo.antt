-- ===== src/Pipe/Fifo.antt =====
-- `native_pipe_read` and `native_pipe_write` against a bounded queue of bytes.
use atmkoala.Base.{
  ℕ, zero, suc, ◌-◌, ◌<◌, ◌≡◌, ◌≢◌, refl, ap, ◌∙◌, Option, none, some, Bool, true, false, not, ◌&&◌,
  ◌==◌, if◌then◌else◌, Bool-cases, Option-cases, inl, inr, ltb, List, [], ◌∷◌, ◌++◌, length,
  length-take, take, drop, ℤ, pos, neg, min, arith,
}
use atmkoala.Kernel.{Pipe, Kernel, set_pipe, set_state, task_max, TaskState}
use atmkoala.Sched.Queue.{add_walk, queue_add, task_unblock}
use atmkoala.Pipe.{
  pipe_cap, eagain, epipe, PipeEnd, pipe_decode, wake_waiter, pipe_wake_reader, pipe_wake_writer,
}
use atmkoala.Pipe.Stream.{
  Round, take_bytes, put_bytes, clear_reader, clear_writer, read_round, native_pipe_read,
  write_round, native_pipe_write,
}
use atmkoala.Pipe.Ring.{IsPipe, window, contents, length-window, take_bytes_lem, put_bytes_lem}

-- What a client sees of a call: the number and the bytes that it returns, or `none` for a wait;
-- and the bytes in the pipe behind it.
abbrev pub Seen : Type 0
Seen = Option (ℤ × List ℕ) × List ℕ

-- A read of `count` bytes from a queue, which may have writers.
unfoldable pub fifo_read : List ℕ → (writers : Bool) → (count : ℕ) → (nonblock : Bool) → Seen
fifo_read [] writers count nonblock =
    (if writers then if nonblock then some (neg eagain, []) else none else some (pos 0, []), [])
fifo_read (x ∷ q) writers count nonblock = (
  some (pos (min count (length (x ∷ q))), take (min count (length (x ∷ q))) (x ∷ q)),
  drop (min count (length (x ∷ q))) (x ∷ q),
)

-- A write of `xs` to a queue of at most `pipe_cap` bytes, which may have readers.
unfoldable pub fifo_write : List ℕ → (readers : Bool) → List ℕ → (nonblock : Bool) → Seen
fifo_write q readers xs nonblock =
    if readers
    then if ltb (length q) pipe_cap
      then (
        some (pos (min (length xs) (pipe_cap - length q)), []),
        q ++ take (min (length xs) (pipe_cap - length q)) xs,
      )
      else (if nonblock then some (neg eagain, []) else none, q)
    else (some (neg epipe, []), q)

-- The client's view of a call at the pipe `i`.
abbrev pub view : ℕ → Round → Seen
view i (Round.returns r xs k) = (some (r, xs), contents (k.pipe_pool i))
view i (Round.waits k) = (none, contents (k.pipe_pool i))

abbrev pub after : Round → Kernel
after (Round.returns r xs k) = k
after (Round.waits k) = k

-- Waking a task changes no pipe.
add_walk_pipes :
    (n : ℕ) (k : Kernel) (t head tail : ℕ) {k' : Kernel}
    → add_walk n k t head tail ≡ some k'
    → k'.pipe_pool ≡ k.pipe_pool
unfolding add_walk
add_walk_pipes zero k t head tail h = cc
add_walk_pipes (suc n) k t head tail {k'} h = elim (Option-cases (k.tasks tail).next) [
  | inl e ↦ ground arith
  | inr (m, e) ↦ elim (Bool-cases (m == head)) [
    | inl p ↦ ground arith
    | inr p ↦ add_walk_pipes n k t head m {k' = k'} (ground arith)
  ]
]

queue_add_pipes :
    (t : ℕ) (k : Kernel) {k' : Kernel} → queue_add t k ≡ some k' → k'.pipe_pool ≡ k.pipe_pool
unfolding queue_add
queue_add_pipes t k {k'} h = elim (Option-cases k.run_queue_head) [
  | inl e ↦ ground arith
  | inr (x, e) ↦ add_walk_pipes task_max k t x x {k' = k'} (ground arith)
]

pub task_unblock_pipes : (t : ℕ) (k : Kernel) → (task_unblock t k).pipe_pool ≡ k.pipe_pool
unfolding task_unblock
task_unblock_pipes t k = elim (Option-cases (queue_add t (set_state k t TaskState.ready))) [
  | inl e ↦ ground arith
  | inr (k', e) ↦ ground (arith, queue_add_pipes t (set_state k t TaskState.ready) {k' = k'} e)
]

pub wake_waiter_pipes : (w : Option ℕ) (k : Kernel) → (wake_waiter w k).pipe_pool ≡ k.pipe_pool
unfolding wake_waiter
wake_waiter_pipes none k = refl
wake_waiter_pipes (some w) k = ground (arith, task_unblock_pipes w k)

fifo_read_bytes :
    (q : List ℕ) (w : Bool) (c : ℕ) (nb : Bool)
    → 0 < length q
    → fifo_read q w c nb
      ≡ (some (pos (min c (length q)), take (min c (length q)) q), drop (min c (length q)) q)
unfolding fifo_read
fifo_read_bytes [] w c nb h = absurd (omega arith)
fifo_read_bytes (x ∷ q) w c nb h = refl

-- The waiters play no part in what a pipe holds.
kept : (p : Pipe) → IsPipe p → {w : Option ℕ} → IsPipe (record p { reader_waiter = w })
kept p v = record { tail_in = v.tail_in; count_in = v.count_in; head_at = v.head_at }

pub pipe_wake_writer_pipes : (i : ℕ) (k : Kernel) → (pipe_wake_writer i k).pipe_pool ≡ k.pipe_pool
unfolding pipe_wake_writer
pipe_wake_writer_pipes i k = wake_waiter_pipes (k.pipe_pool i).writer_waiter k

pub pipe_wake_reader_pipes : (i : ℕ) (k : Kernel) → (pipe_wake_reader i k).pipe_pool ≡ k.pipe_pool
unfolding pipe_wake_reader
pipe_wake_reader_pipes i k = wake_waiter_pipes (k.pipe_pool i).reader_waiter k

-- A write at `i` and a wake-up leave the written pipe at `i`.
woken_writer :
    (i : ℕ) (k : Kernel) (p : Pipe) → (pipe_wake_writer i (set_pipe k i p)).pipe_pool i ≡ p
woken_writer i k p = ap (λ f. f i) (pipe_wake_writer_pipes i (set_pipe k i p)) ∙ ground arith

woken_reader :
    (i : ℕ) (k : Kernel) (p : Pipe) → (pipe_wake_reader i (set_pipe k i p)).pipe_pool i ≡ p
woken_reader i k p = ap (λ f. f i) (pipe_wake_reader_pipes i (set_pipe k i p)) ∙ ground arith

-- What a call is to show and to keep, as a statement about its outcome.
abbrev Refines : ℕ → Round → Seen → Type 0
Refines i r s = (view i r ≡ s) × IsPipe ((after r).pipe_pool i)

returns-Refines :
    (i : ℕ) (n : ℤ) (xs : List ℕ) (k : Kernel) (p : Pipe) (q : List ℕ)
    → k.pipe_pool i ≡ p
    → contents p ≡ q
    → IsPipe p
    → Refines i (Round.returns n xs k) (some (n, xs), q)
returns-Refines i n xs k p q e c v = rw e (ap (λ r. (some (n, xs), r)) c, v)

contents_empty : (p : Pipe) → p.count ≡ 0 → contents p ≡ []
contents_empty p e = ap (window p.buffer p.tail) e

module _ (t i c : ℕ) (nb : Bool) (k : Kernel) (v : IsPipe (k.pipe_pool i)) where
  read_some :
      ltb 0 (k.pipe_pool i).count ≡ true
      → Refines i
          (read_round t i c nb k)
          (fifo_read (contents (k.pipe_pool i)) (not ((k.pipe_pool i).write_refs == 0)) c nb)
  unfolding read_round
  read_some e =
      let p = k.pipe_pool i in
      let n = min c p.count in
      let (out, left, v') = take_bytes_lem n p v (omega arith) in
      let p' = clear_reader (take_bytes n p).1 t in
      let same = length-window p.buffer p.tail p.count in
      rw (e, read_round)
        (rw
          (
            fifo_read_bytes (contents p) (not (p.write_refs == 0)) c nb (ground arith),
            same,
            ← out,
            ← left,
          )
          (rw (woken_writer i k p') (refl, kept (take_bytes n p).1 v')))

  read_none :
      ltb 0 (k.pipe_pool i).count ≡ false
      → Refines i
          (read_round t i c nb k)
          (fifo_read (contents (k.pipe_pool i)) (not ((k.pipe_pool i).write_refs == 0)) c nb)
  unfolding read_round fifo_read
  read_none e =
      let z : contents (k.pipe_pool i) ≡ [] = contents_empty (k.pipe_pool i) (ground arith) in
      (ground (arith, z), ground arith)

-- `native_pipe_read` of at least one byte, on a descriptor of a read end, shows what a read of the
-- queue of the pipe's bytes shows: the oldest bytes, as many as are asked for and there; 0 at the
-- end of the file; -EAGAIN or a wait while the pipe is empty and has writers. The bytes left in
-- the pipe are those of the queue, and the pipe is sound.
pub native_pipe_read_refines :
    (t fd i c : ℕ) (nb : Bool) (k : Kernel)
    → pipe_decode k t fd ≡ some (i, PipeEnd.read_end)
    → c ≢ 0
    → IsPipe (k.pipe_pool i)
    → (view i (native_pipe_read t fd c nb k)
        ≡ fifo_read (contents (k.pipe_pool i)) (not ((k.pipe_pool i).write_refs == 0)) c nb)
      × IsPipe ((after (native_pipe_read t fd c nb k)).pipe_pool i)
native_pipe_read_refines t fd i c nb k d pos_c v =
    let called : native_pipe_read t fd c nb k ≡ read_round t i c nb k =
      unfold native_pipe_read in ground arith in
    rw called (elim (Bool-cases (ltb 0 (k.pipe_pool i).count)) [
      | inl e ↦ read_some t i c nb k v e
      | inr e ↦ read_none t i c nb k v e
    ])

module _ (t i : ℕ) (xs : List ℕ) (nb : Bool) (k : Kernel) (v : IsPipe (k.pipe_pool i)) where
  write_some :
      ((k.pipe_pool i).read_refs == 0) ≡ false
      → ltb (k.pipe_pool i).count pipe_cap ≡ true
      → Refines i
          (write_round t i xs nb k)
          (fifo_write (contents (k.pipe_pool i)) (not ((k.pipe_pool i).read_refs == 0)) xs nb)
  unfolding write_round fifo_write
  write_some r e =
      let p = k.pipe_pool i in
      let n = min (length xs) (pipe_cap - p.count) in
      let (put, v') = put_bytes_lem (take n xs) p v (omega (arith, length-take {0} n xs)) in
      let p' = clear_writer (put_bytes (take n xs) p) t in
      let same = length-window p.buffer p.tail p.count in
      rw (r, e, write_round)
        (rw (same, e, ← put, woken_reader i k p')
          (refl, record { tail_in = v'.tail_in; count_in = v'.count_in; head_at = v'.head_at }))

  write_none :
      (not ((k.pipe_pool i).read_refs == 0) && ltb (k.pipe_pool i).count pipe_cap) ≡ false
      → Refines i
          (write_round t i xs nb k)
          (fifo_write (contents (k.pipe_pool i)) (not ((k.pipe_pool i).read_refs == 0)) xs nb)
  unfolding write_round fifo_write
  write_none e =
      let same = length-window (k.pipe_pool i).buffer (k.pipe_pool i).tail (k.pipe_pool i).count in
      (ground (arith, same), ground arith)

-- `native_pipe_write` of at least one byte, on a descriptor of a write end, shows what a write to
-- the queue of the pipe's bytes shows: as many bytes as fit are put behind those that are there,
-- and counted; -EPIPE with no reader left; -EAGAIN or a wait while the pipe is full. The pipe is
-- sound afterwards.
pub native_pipe_write_refines :
    (t fd i : ℕ) (xs : List ℕ) (nb : Bool) (k : Kernel)
    → pipe_decode k t fd ≡ some (i, PipeEnd.write_end)
    → length xs ≢ 0
    → IsPipe (k.pipe_pool i)
    → (view i (native_pipe_write t fd xs nb k)
        ≡ fifo_write (contents (k.pipe_pool i)) (not ((k.pipe_pool i).read_refs == 0)) xs nb)
      × IsPipe ((after (native_pipe_write t fd xs nb k)).pipe_pool i)
native_pipe_write_refines t fd i xs nb k d pos_n v =
    let called : native_pipe_write t fd xs nb k ≡ write_round t i xs nb k =
      unfold native_pipe_write in ground arith in
    rw called
      (elim (Bool-cases
        (not ((k.pipe_pool i).read_refs == 0) && ltb (k.pipe_pool i).count pipe_cap)) [
          | inl e ↦ write_some t i xs nb k v (ground arith) (ground arith)
          | inr e ↦ write_none t i xs nb k v e
        ])
