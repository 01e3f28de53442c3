-- ===== src/Sched/Switch.antt =====
-- Blocking, switching and the timer tick of src/sched.c. `context_switch` exchanges the CPU's
-- registers and no data of the kernel, so a switch is the change of `current_task`.
use atmkoala.Base.{
  ℕ, zero, suc, ◌+◌, ◌*◌, ◌-◌, ◌%◌, Option, none, some, Bool, true, false, ◌==◌, ◌&&◌, ◌||◌, not,
  if◌then◌else◌, ltb, is_some, update,
}
use atmkoala.Kernel.{
  TaskState, is_ready, is_running, is_blocked, is_zombie, Kernel, set_task, set_state, task_max,
  u32_mod, u64_mod,
}
use atmkoala.Sched.Queue.{queue_remove, task_unblock}

-- `for (seen …) { if (scan->state == TASK_READY) …; scan = scan->next; … }`
unfoldable pub scan_ready : ℕ → Kernel → (head scan : ℕ) → Option ℕ
scan_ready zero k head scan = none
scan_ready (suc n) k head scan = elim (is_ready (k.tasks scan).state) [
  | true ↦ some scan
  | false ↦ elim (k.tasks scan).next [
    | none ↦ none
    | some m ↦ let rest = scan_ready n k head m in if m == head then none else rest
  ]
]

-- The first ready task of the run queue, or else the idle task.
unfoldable pub next_runnable : Kernel → ℕ
next_runnable k = elim k.run_queue_head [
  | none ↦ 0
  | some head ↦ elim (scan_ready task_max k head head) [ some n ↦ n | none ↦ 0 ]
]

-- The lines from `current_task=next` to `context_switch`.
unfoldable pub switch_to : ℕ → Kernel → Kernel
switch_to n k =
    set_task (record k { current = some n }) n
      (record (k.tasks n) {
        state = TaskState.running;
        state_changed_ticks = k.uptime_ticks;
        context_switches = ((k.tasks n).context_switches + 1) % u32_mod;
      })

-- The lines of `task_block` and `task_block_from_syscall` that take the task off the CPU.
unfoldable pub block_task : ℕ → Kernel → Kernel
block_task t k = queue_remove t (set_state k t TaskState.blocked)

unfoldable pub task_block_from_syscall : Kernel → Kernel
task_block_from_syscall k = elim k.current [
  | none ↦ k
  | some t ↦
      if (k.tasks t).pid == 0
      then k
      else (let k1 = block_task t k in switch_to (next_runnable k1) k1)
]

-- `(int32_t)(now - deadline) >= 0`
abbrev pub tick_reached : (now deadline : ℕ) → Bool
tick_reached now deadline = ltb ((now + u32_mod - deadline) % u32_mod) 0x8000_0000

-- One round of the loop that wakes sleeping tasks.
unfoldable pub wake_sleeper : ℕ → Kernel → Kernel
wake_sleeper i k =
    if (k.sleep_meta i).active
      && is_blocked (k.tasks i).state
      && tick_reached k.uptime_ticks (k.sleep_meta i).deadline
    then task_unblock i (record k {
      sleep_meta = update k.sleep_meta i (record (k.sleep_meta i) { active = false });
    })
    else k

-- The rounds from `i` on, `n` of them.
unfoldable pub wake_sleepers : (n i : ℕ) → Kernel → Kernel
wake_sleepers zero i k = k
wake_sleepers (suc n) i k = wake_sleepers n (i + 1) (wake_sleeper i k)

-- `do { … } while (next != start)`. The result is `next` behind the loop; `none` is a null link,
-- or a walk that does not come back to `start` in the rounds given.
unfoldable pub pick_next : ℕ → Kernel → (start scan current : ℕ) → Option ℕ
pick_next zero k start scan current = none
pick_next (suc n) k start scan current =
    elim (is_ready (k.tasks scan).state && not (scan == current)) [
      | true ↦ some scan
      | false ↦ elim (k.tasks scan).next [
        | none ↦ none
        | some m ↦
            let rest = pick_next n k start m current in if m == start then some start else rest
      ]
    ]

-- The counters of a tick.
unfoldable pub count_tick : Kernel → Kernel
count_tick k =
    let k1 = record k { uptime_ticks = (k.uptime_ticks + 1) % u32_mod } in
    elim k.current [
      | none ↦ record k1 { idle_ticks = (k1.idle_ticks + 1) % u32_mod }
      | some c ↦
          let k2 =
            set_task k1 c (record (k1.tasks c) { ticks = ((k1.tasks c).ticks + 1) % u64_mod }) in
          if (k2.tasks c).pid == 0
          then record k2 { idle_ticks = (k2.idle_ticks + 1) % u32_mod }
          else k2
    ]

-- The hand-over to the idle task when the run queue is empty.
unfoldable pub tick_empty : Kernel → Kernel
tick_empty k = elim k.current [
  | none ↦ k
  | some c ↦
      if not ((k.tasks c).pid == 0) && (is_zombie (k.tasks c).state || is_blocked (k.tasks c).state)
      then switch_to 0 k
      else k
]

-- `if (old->state == TASK_RUNNING) old->state = TASK_READY;`
unfoldable pub demote : ℕ → Kernel → Kernel
demote c k =
    if is_running (k.tasks c).state
    then set_task k c (record (k.tasks c) { state = TaskState.ready })
    else k

-- The lines of `sched_tick` behind its walk, from the task `c` to the task `n` that it found.
unfoldable pub dispatch : (n c : ℕ) → Kernel → Kernel
dispatch n c k = if n == c || not (is_ready (k.tasks n).state) then k else switch_to n (demote c k)

-- The quantum test and the switch, on a run queue with the given head and current task.
unfoldable pub tick_queue : (head current : ℕ) → Kernel → Option Kernel
tick_queue head c k =
    let counter = (k.quantum_counter + 1) % u32_mod in
    if ltb counter (((k.tasks c).priority * 2) % u32_mod)
    then some (record k { quantum_counter = counter })
    else (let k1 = record k { quantum_counter = 0 } in
        elim (pick_next (suc task_max) k1 head head c) [
          | none ↦ none
          | some n ↦ some (dispatch n c k1)
        ])

-- The lines of `sched_tick` behind the loop that wakes.
unfoldable pub tick_rest : Kernel → Option Kernel
tick_rest k = elim k.run_queue_head [
  | none ↦ some (tick_empty k)
  | some head ↦ elim k.current [ none ↦ none | some c ↦ tick_queue head c k ]
]

-- `none` is a null pointer followed, or a walk without end.
unfoldable pub sched_tick : Kernel → Option Kernel
sched_tick k = tick_rest (wake_sleepers 15 1 (count_tick k))

-- `task_yield` raises the timer interrupt, whose handler calls `sched_tick`.
unfoldable pub task_block : Kernel → Option Kernel
task_block k = elim k.current [ none ↦ sched_tick k | some t ↦ sched_tick (block_task t k) ]

unfoldable pub task_sleep_ticks_from_syscall : ℕ → Kernel → Option Kernel
task_sleep_ticks_from_syscall ticks k = elim k.current [
  | none ↦ none
  | some t ↦
      if (k.tasks t).pid == 0 || not (is_some (k.tasks t).address_space) || not (ltb t task_max)
      then none
      else if ticks == 0
      then some k
      else if (k.sleep_meta t).active
      then none
      else some (
          task_block_from_syscall (record k {
            sleep_meta =
                update k.sleep_meta t
                  (record { deadline = (k.uptime_ticks + ticks) % u32_mod; active = true });
          }))
]
