-- ===== src/Pipe/Poll.antt =====
-- `native_pipe_poll` of src/native_pipe.c, against the waits of reading and writing.
use atmkoala.Base.{
  ℕ, ◌+◌, ◌/◌, ◌%◌, ◌≡◌, ◌≢◌, ◌↔◌, refl, ap, ◌∙◌, inl, inr, none, some, Bool, true, false, ◌==◌,
  ◌&&◌, ◌||◌, not, if◌then◌else◌, ltb, List, length, arith, Bool-cases,
}
use atmkoala.Kernel.{Kernel}
use atmkoala.Pipe.{pipe_cap, PipeEnd, pipe_decode}
use atmkoala.Pipe.Stream.{Round, native_pipe_read, native_pipe_write, read_round, write_round}

abbrev pub pollin : ℕ
pollin = 1

abbrev pub pollout : ℕ
pollout = 4

abbrev pub pollerr : ℕ
pollerr = 8

abbrev pub pollhup : ℕ
pollhup = 16

abbrev pub pollnval : ℕ
pollnval = 32

-- `events & flag` for a power of two.
abbrev pub has_flag : (events flag : ℕ) → Bool
has_flag events flag = (events / flag) % 2 == 1

-- The flags are distinct bits, so a sum stands for their union.
unfoldable pub native_pipe_poll : (t fd events : ℕ) → Kernel → ℕ
native_pipe_poll t fd events k = elim (pipe_decode k t fd) [
  | none ↦ pollnval
  | some (i, PipeEnd.read_end) ↦
      let p = k.pipe_pool i in
      (if has_flag events pollin && (ltb 0 p.count || p.write_refs == 0) then pollin else 0)
      + (if p.write_refs == 0 then pollhup else 0)
  | some (i, PipeEnd.write_end) ↦
      let p = k.pipe_pool i in
      if p.read_refs == 0
      then pollerr
      else if has_flag events pollout && ltb p.count pipe_cap
      then pollout
      else 0
]

abbrev pub is_wait : Round → Bool
is_wait (Round.returns n xs k) = false
is_wait (Round.waits k) = true

-- When a round waits.
read_round-waits :
    (t i c : ℕ) (k : Kernel)
    → is_wait (read_round t i c false k)
      ≡ not (ltb 0 (k.pipe_pool i).count || (k.pipe_pool i).write_refs == 0)
unfolding read_round
read_round-waits t i c k = elim (Bool-cases (ltb 0 (k.pipe_pool i).count)) [
  | inl e ↦ rw e refl
  | inr e ↦ elim (Bool-cases ((k.pipe_pool i).write_refs == 0)) [
    | inl f ↦ rw (e, f) refl
    | inr f ↦ rw (e, f) refl
  ]
]

write_round-waits :
    (t i : ℕ) (xs : List ℕ) (k : Kernel)
    → is_wait (write_round t i xs false k)
      ≡ not ((k.pipe_pool i).read_refs == 0 || ltb (k.pipe_pool i).count pipe_cap)
unfolding write_round
write_round-waits t i xs k = elim (Bool-cases ((k.pipe_pool i).read_refs == 0)) [
  | inl e ↦ rw e refl
  | inr e ↦ elim (Bool-cases (ltb (k.pipe_pool i).count pipe_cap)) [
    | inl f ↦ rw (e, f) refl
    | inr f ↦ rw (e, f) refl
  ]
]

-- On a descriptor of a read end, a poll for POLLIN reports POLLIN exactly if a blocking read of at
-- least one byte would return at once.
pub native_pipe_poll_read :
    (t fd i c : ℕ) (k : Kernel)
    → pipe_decode k t fd ≡ some (i, PipeEnd.read_end)
    → c ≢ 0
    → native_pipe_poll t fd pollin k % 2 ≡ 1 ↔ is_wait (native_pipe_read t fd c false k) ≡ false
native_pipe_poll_read t fd i c k d pos_c =
    let called : native_pipe_read t fd c false k ≡ read_round t i c false k =
      unfold native_pipe_read in ground arith in
    let polled : native_pipe_poll t fd pollin k
        ≡ (if ltb 0 (k.pipe_pool i).count || (k.pipe_pool i).write_refs == 0 then pollin else 0)
          + (if (k.pipe_pool i).write_refs == 0 then pollhup else 0) =
      unfold native_pipe_poll in ground arith in
    let waits = ap is_wait called ∙ read_round-waits t i c k in
    ((λ e. ground arith), (λ e. ground arith))

-- On a descriptor of a write end, a poll for POLLOUT reports POLLOUT or POLLERR exactly if a blocking
-- write of at least one byte would return at once.
pub native_pipe_poll_write :
    (t fd i : ℕ) (xs : List ℕ) (k : Kernel)
    → pipe_decode k t fd ≡ some (i, PipeEnd.write_end)
    → length xs ≢ 0
    → native_pipe_poll t fd pollout k ≢ 0 ↔ is_wait (native_pipe_write t fd xs false k) ≡ false
native_pipe_poll_write t fd i xs k d pos_n =
    let called : native_pipe_write t fd xs false k ≡ write_round t i xs false k =
      unfold native_pipe_write in ground arith in
    let polled : native_pipe_poll t fd pollout k ≡ (
        if (k.pipe_pool i).read_refs == 0
        then pollerr
        else if ltb (k.pipe_pool i).count pipe_cap
        then pollout
        else 0) =
      unfold native_pipe_poll in ground arith in
    let waits = ap is_wait called ∙ write_round-waits t i xs k in
    ((λ e. ground arith), (λ e. ground arith))
