-- ===== src/Sched/Block.antt =====
-- The switch of src/sched.c to another task, and `task_block_from_syscall`.
use atmkoala.Base.{
  ℕ, zero, suc, ◌≡◌, refl, ◌⊎◌, inl, inr, some, true, ◌==◌, if◌then◌else◌, Bool-cases, Option-cases,
  List, erase, arith,
}
use atmkoala.Kernel.{TaskState, is_ready, task_max, Kernel}
use atmkoala.Sched.Switch.{
  scan_ready, next_runnable, switch_to, block_task, task_block_from_syscall,
}
use atmkoala.Sched.Invariant.{is_runnable, IsScheduled, IsQueue-same, queue_remove-IsScheduled}

-- The CPU goes to the idle task or to one that may run.
pub switch_to-IsScheduled :
    (n : ℕ) (k : Kernel) (q : List ℕ)
    → (n ≡ 0) ⊎ (is_runnable (k.tasks n).state ≡ true)
    → IsScheduled k q
    → IsScheduled (switch_to n k) q
unfolding switch_to
switch_to-IsScheduled n k q may v = record {
  ring = IsQueue-same k (switch_to n k) q refl (λ i. ground arith) v.ring;
  listed = λ i h. ground (arith, v.listed i);
  queued = λ i a b h. ground (arith, v.queued i a b);
}

scan_ready_runs :
    (n : ℕ) (k : Kernel) (head scan : ℕ) {m : ℕ}
    → scan_ready n k head scan ≡ some m
    → is_ready (k.tasks m).state ≡ true
unfolding scan_ready
scan_ready_runs zero k head scan h = cc
scan_ready_runs (suc n) k head scan {m} h = elim (Bool-cases (is_ready (k.tasks scan).state)) [
  | inl e ↦ ground arith
  | inr e ↦ elim (Option-cases (k.tasks scan).next) [
    | inl o ↦ ground arith
    | inr (s, o) ↦ elim (Bool-cases (s == head)) [
      | inl p ↦ ground arith
      | inr p ↦ scan_ready_runs n k head s (ground arith)
    ]
  ]
]

-- The task chosen behind a block is the idle task or a ready one.
next_runnable_may :
    (k : Kernel) → (next_runnable k ≡ 0) ⊎ (is_runnable (k.tasks (next_runnable k)).state ≡ true)
unfolding next_runnable
next_runnable_may k = elim (Option-cases k.run_queue_head) [
  | inl e ↦ inl (ground arith)
  | inr (h, e) ↦ elim (Option-cases (scan_ready task_max k h h)) [
    | inl o ↦ inl (ground arith)
    | inr (m, o) ↦ inr (ground (arith, scan_ready_runs task_max k h h {m = m} o))
  ]
]

-- On a sound run queue `task_block_from_syscall` takes the current task out of the queue, unless
-- its pid is 0, and the run queue is sound afterwards.
pub task_block_from_syscall-IsScheduled :
    (k : Kernel) (q : List ℕ) (c : ℕ)
    → k.current ≡ some c
    → IsScheduled k q
    → IsScheduled (task_block_from_syscall k) (if (k.tasks c).pid == 0 then q else erase c q)
unfolding task_block_from_syscall block_task
task_block_from_syscall-IsScheduled k q c cur v = elim (Bool-cases ((k.tasks c).pid == 0)) [
  | inl e ↦ rw (cur, task_block_from_syscall) (rw e v)
  | inr e ↦
      let w = queue_remove-IsScheduled c k q TaskState.blocked refl v in
      rw (cur, task_block_from_syscall)
        (rw e (
          switch_to-IsScheduled (next_runnable (block_task c k)) (block_task c k) (erase c q)
            (next_runnable_may (block_task c k)) w))
]
