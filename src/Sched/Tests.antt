-- ===== src/Sched/Tests.antt =====
-- A small machine for the theorems on src/sched.c: the idle task in slot 0, the tasks 1 and 2 in the
-- run queue, task 3 blocked, and task 4 a dead child of task 1.
use atmkoala.Base.{
  ℕ, ◌≡◌, refl, Option, none, some, false, ◌==◌, if◌then◌else◌, List, [], ◌∷◌, arith,
}
use atmkoala.Kernel.{Task, zero_task, zero_pipe, TaskState, Kernel}
use atmkoala.Sched.Queue.{queue_add, queue_remove, task_unblock}
use atmkoala.Sched.Queue.Add.{IsQueue, OnlyLinks, queue_add-append}
use atmkoala.Sched.Queue.Remove.{queue_remove-erase}
use atmkoala.Sched.Invariant.{IsScheduled, task_unblock-IsScheduled}
use atmkoala.Sched.Switch.{task_block_from_syscall, sched_tick}
use atmkoala.Sched.Block.{task_block_from_syscall-IsScheduled}
use atmkoala.Sched.Tick.{IsRunning, sched_tick-IsRunning}

abbrev test_task : (pid ppid : ℕ) → TaskState → Option ℕ → Task
test_task pid ppid state next = record zero_task {
  pid = pid;
  ppid = ppid;
  state = state;
  next = next;
}

abbrev test_tasks : ℕ → Task
test_tasks i =
    if i == 1
    then test_task 11 0 TaskState.running (some 2)
    else if i == 2
    then test_task 12 0 TaskState.ready (some 1)
    else if i == 3
    then test_task 13 0 TaskState.blocked none
    else if i == 4
    then record (test_task 14 11 TaskState.zombie none) { exit_code = 7 }
    else if i == 0
    then test_task 0 0 TaskState.ready none
    else zero_task

abbrev test_kernel : Kernel
test_kernel = record {
  tasks = test_tasks;
  current = some 1;
  run_queue_head = some 1;
  next_pid = 15;
  uptime_ticks = 100;
  idle_ticks = 0;
  quantum_counter = 0;
  sleep_meta = λ i. record { deadline = 0; active = false };
  released = [];
  pipe_pool = λ i. zero_pipe;
}

test_kernel-IsQueue : IsQueue test_kernel (1 ∷ 2 ∷ [])
test_kernel-IsQueue = (refl, (refl, refl), (refl, (refl, tt)))

test_kernel-IsScheduled : IsScheduled test_kernel (1 ∷ 2 ∷ [])
test_kernel-IsScheduled = record {
  ring = test_kernel-IsQueue;
  listed = λ i h. ground arith;
  queued = λ i lo hi r. ground arith;
}

queue_add-append_example :
    (k' : Kernel) × (queue_add 3 test_kernel ≡ some k')
    × IsQueue k' (1 ∷ 2 ∷ 3 ∷ [])
    × OnlyLinks test_kernel k'
queue_add-append_example =
    queue_add-append 3 test_kernel (1 ∷ 2 ∷ []) test_kernel-IsQueue refl (omega arith)

queue_remove-erase_example :
    IsQueue (queue_remove 1 test_kernel) (2 ∷ [])
    × OnlyLinks test_kernel (queue_remove 1 test_kernel)
queue_remove-erase_example =
    queue_remove-erase 1 test_kernel (1 ∷ 2 ∷ []) test_kernel-IsQueue (omega arith)

task_unblock-IsScheduled_example : IsScheduled (task_unblock 3 test_kernel) (1 ∷ 2 ∷ 3 ∷ [])
task_unblock-IsScheduled_example =
    task_unblock-IsScheduled 3 test_kernel (1 ∷ 2 ∷ []) (omega arith) test_kernel-IsScheduled

task_block_from_syscall-IsScheduled_example :
    IsScheduled (task_block_from_syscall test_kernel) (2 ∷ [])
task_block_from_syscall-IsScheduled_example =
    task_block_from_syscall-IsScheduled test_kernel (1 ∷ 2 ∷ []) 1 refl test_kernel-IsScheduled

test_kernel-IsRunning : IsRunning test_kernel (1 ∷ 2 ∷ []) 1
test_kernel-IsRunning = record {
  scheduled = test_kernel-IsScheduled;
  current = refl;
  in_table = omega arith;
}

sched_tick-IsRunning_example :
    (k' : Kernel) × (q' : List ℕ) × (c' : ℕ) × (sched_tick test_kernel ≡ some k')
    × IsRunning k' q' c'
sched_tick-IsRunning_example = sched_tick-IsRunning test_kernel (1 ∷ 2 ∷ []) 1 test_kernel-IsRunning
