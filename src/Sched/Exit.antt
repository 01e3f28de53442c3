-- ===== src/Sched/Exit.antt =====
-- Child ownership and termination of src/sched.c. `task_mark_zombie` calls the descriptor layer,
-- which calls back into the scheduler: it comes as the parameter `cleanup`, for
-- `native_fd_task_cleanup`.
use atmkoala.Base.{
  ℕ, zero, suc, ◌+◌, ◌*◌, ◌%◌, Option, none, some, Bool, true, false, ◌==◌, ◌&&◌, ◌||◌, not,
  if◌then◌else◌, points_to, find_from, ℤ, pos, neg,
}
use atmkoala.Kernel.{
  Task, zero_task, TaskState, is_unused, is_blocked, is_zombie, Kernel, set_task, set_state,
  task_max, task_no_parent, task_wait_any,
}
use atmkoala.Sched.Queue.{queue_remove, task_unblock}
use atmkoala.Sched.Pool.{sleep_cancel_task, release_zombie_slot, task_lookup_pid, is_unstarted}
use atmkoala.Sched.Switch.{next_runnable, switch_to, sched_tick}

abbrev pub einval : ℕ
einval = 22

abbrev pub echild : ℕ
echild = 10

abbrev pub esrch : ℕ
esrch = 3

-- A `pid` argument of `task_waitpid` that has passed its guard: -1, or a positive number.
pub data WaitFor : Type 0 where
  any_child : WaitFor
  child : ℕ → WaitFor

abbrev pub pid_matches : WaitFor → ℕ → Bool
pid_matches WaitFor.any_child pid = true
pid_matches (WaitFor.child p) pid = pid == p

unfoldable pub task_is_direct_child : Kernel → (parent child : ℕ) → WaitFor → Bool
task_is_direct_child k parent i w =
    not (is_unused (k.tasks i).state)
    && (k.tasks i).ppid == (k.tasks parent).pid
    && pid_matches w (k.tasks i).pid

-- `exit_code` is the bit pattern of an `int`.
unfoldable pub task_wait_status : Task → ℕ
task_wait_status t =
    if t.exit_signal == 0 then (t.exit_code % 0x100) * 0x100 else t.exit_signal % 0x80

-- One round of the loop of `task_orphan_children`.
unfoldable pub orphan_child : (i parent : ℕ) → Kernel → Kernel
orphan_child i parent k =
    if is_unused (k.tasks i).state || not ((k.tasks i).ppid == (k.tasks parent).pid)
    then k
    else (let k1 = set_task k i (record (k.tasks i) { ppid = task_no_parent }) in
        if is_zombie (k1.tasks i).state then release_zombie_slot i k1 else k1)

unfoldable pub orphan_from : (n i parent : ℕ) → Kernel → Kernel
orphan_from zero i parent k = k
orphan_from (suc n) i parent k = orphan_from n (i + 1) parent (orphan_child i parent k)

unfoldable pub task_orphan_children : ℕ → Kernel → Kernel
task_orphan_children parent k = orphan_from 15 1 parent k

-- The task that `waitpid` would have to be waiting in, if there is one.
abbrev pub is_waiting_for : Task → (pid : ℕ) → Bool
is_waiting_for p pid =
    is_blocked p.state && p.wait_active && (p.wait_target == task_wait_any || p.wait_target == pid)

unfoldable pub task_wake_waiting_parent : ℕ → Kernel → Kernel
task_wake_waiting_parent c k =
    if (k.tasks c).ppid == task_no_parent
    then k
    else (elim (find_from
        (λ i. not (is_unused (k.tasks i).state) && (k.tasks i).pid == (k.tasks c).ppid) 0
        task_max) [
          | none ↦ k
          | some p ↦
              if is_waiting_for (k.tasks p) (k.tasks c).pid
              then task_unblock p (set_task k p (record (k.tasks p) { wait_active = false }))
              else k
        ])

-- A slot that `task_mark_zombie` leaves alone.
abbrev pub is_spared : Task → Bool
is_spared t = t.pid == 0 || is_unused t.state || is_zombie t.state

-- The writes of `task_mark_zombie` before it calls the other layers. The cell that a Linux thread
-- asks to have cleared lies in user memory, which this state does not hold.
unfoldable pub enter_zombie : (t code signal : ℕ) → Kernel → Kernel
enter_zombie t code signal k =
    let k1 = set_state (sleep_cancel_task t k) t TaskState.zombie in
    set_task k1 t (record (k1.tasks t) { exit_code = code; exit_signal = signal })

module _ (cleanup : ℕ → Kernel → Kernel) where
  unfoldable pub task_mark_zombie : (t code signal : ℕ) → Kernel → Kernel
  task_mark_zombie t code signal k =
      if is_spared (k.tasks t)
      then k
      else task_orphan_children t
          (task_wake_waiting_parent t (queue_remove t (cleanup t (enter_zombie t code signal k))))

  -- The `task_yield` behind it is the tick.
  unfoldable pub task_exit : ℕ → Kernel → Option Kernel
  task_exit code k = elim k.current [
    | none ↦ some k
    | some c ↦ if (k.tasks c).pid == 0 then some k else sched_tick (task_mark_zombie c code 0 k)
  ]

  -- `none` is the endless `hlt` of a caller that is no task.
  unfoldable pub task_exit_from_syscall : ℕ → Kernel → Option Kernel
  task_exit_from_syscall code k = elim k.current [
    | none ↦ none
    | some c ↦
        if (k.tasks c).pid == 0
        then none
        else (let k1 = task_mark_zombie c code 0 k in some (switch_to (next_runnable k1) k1))
  ]

  -- `none` is the return of -1.
  unfoldable pub task_kill : (pid code : ℕ) → Kernel → Option Kernel
  task_kill pid code k = if pid == 0 then none else (elim (task_lookup_pid pid k) [
    | none ↦ none
    | some t ↦ if points_to k.current t then none else some (task_mark_zombie t code 0 k)
  ])

  unfoldable pub task_discard_unstarted : ℕ → Kernel → Option Kernel
  task_discard_unstarted t k =
      if is_unstarted t k
      then some (set_task (sleep_cancel_task t (cleanup t (queue_remove t k))) t zero_task)
      else none

  -- `kill(pid, 0)` for a positive `pid`.
  unfoldable pub task_signal_probe : ℕ → Kernel → ℤ
  task_signal_probe pid k = elim k.current [
    | none ↦ neg einval
    | some c ↦ if pid == 0 then neg einval else (elim (task_lookup_pid pid k) [
      | none ↦ neg esrch
      | some t ↦
          if is_zombie (k.tasks t).state
          then neg esrch
          else if t == c || (k.tasks t).ppid == (k.tasks c).pid
          then pos 0
          else neg 1
    ])
  ]

  unfoldable pub task_send_signal : (pid sig : ℕ) → Kernel → ℤ × Kernel
  task_send_signal pid sig k =
      if sig == 0
      then (task_signal_probe pid k, k)
      else if pid == 0 || not (sig == 15 || sig == 9)
      then (neg einval, k)
      else (elim k.current [
        | none ↦ (neg esrch, k)
        | some c ↦ elim (task_lookup_pid pid k) [
          | none ↦ (neg esrch, k)
          | some t ↦
              if is_zombie (k.tasks t).state
              then (neg esrch, k)
              else if t == c || not ((k.tasks t).ppid == (k.tasks c).pid)
              then (neg 1, k)
              else (
                pos 0,
                task_mark_zombie t 0 sig
                    (set_task k t (record (k.tasks t) { pending_signal = sig })),
              )
        ]
      ])
