-- ===== src/Sched/Pool.antt =====
-- The task table of src/sched.c: finding, filling and clearing a slot.
use atmkoala.Base.{
  ℕ, ◌+◌, ◌%◌, Option, none, some, Bool, false, ◌==◌, ◌&&◌, ◌||◌, not, if◌then◌else◌, ltb,
  points_to, update, find_from, List, [], ◌∷◌, ◌++◌,
}
use atmkoala.Kernel.{
  Task, zero_task, TaskState, is_unused, is_ready, is_zombie, Release, Kernel, set_task, set_state,
  task_max, task_no_parent, task_wait_any, task_stack_size, u32_mod,
}
use atmkoala.Sched.Queue.{queue_add, queue_remove}

unfoldable pub sleep_cancel_task : ℕ → Kernel → Kernel
sleep_cancel_task t k =
    if ltb t task_max
    then record k { sleep_meta = update k.sleep_meta t (record { deadline = 0; active = false }) }
    else k

-- The calls of `release_zombie_slot` that hand memory back.
abbrev pub releases : Task → List Release
releases t =
    (elim t.address_space [
      | none ↦ []
      | some a ↦ Release.destroy_space a ∷ Release.free_block a ∷ []
    ])
    ++ (elim t.stack_base [ none ↦ [] | some b ↦ Release.free_block b ∷ [] ])

unfoldable pub release_zombie_slot : ℕ → Kernel → Kernel
release_zombie_slot t k =
    if points_to k.current t || not (is_zombie (k.tasks t).state)
    then k
    else set_task (sleep_cancel_task t (record k { released = k.released ++ releases (k.tasks t) }))
        t zero_task

abbrev pub is_orphan : Kernel → ℕ → Bool
is_orphan k i = is_zombie (k.tasks i).state && (k.tasks i).ppid == task_no_parent

-- The slot, and the kernel after the orphan in it has been reclaimed.
unfoldable pub alloc_task_slot : Kernel → Option ℕ × Kernel
alloc_task_slot k = elim (find_from (λ i. is_unused (k.tasks i).state) 0 task_max) [
  | some i ↦ (some i, k)
  | none ↦ elim (find_from (is_orphan k) 1 15) [
    | some i ↦ (some i, release_zombie_slot i k)
    | none ↦ (none, k)
  ]
]

-- `uid` and `gid` are what `vfs_current_uid` and `vfs_current_gid` return. "idle" and "/" in ASCII.
unfoldable pub idle_task : (uid gid : ℕ) → Task
idle_task uid gid = record zero_task {
  uid = uid;
  gid = gid;
  cwd = 47 ∷ [];
  umask_value = 18;
  name = 105 ∷ 100 ∷ 108 ∷ 101 ∷ [];
  state = TaskState.ready;
  priority = 1;
}

-- `quantum_counter` and the pipes are not reset.
unfoldable pub sched_init : (uid gid : ℕ) → Kernel → Kernel
sched_init uid gid k = record k {
  tasks = update (λ i. zero_task) 0 (idle_task uid gid);
  current = some 0;
  run_queue_head = none;
  next_pid = 1;
  uptime_ticks = 0;
  idle_ticks = 0;
  sleep_meta = λ i. record { deadline = 0; active = false };
}

abbrev pub clamp_priority : ℕ → ℕ
clamp_priority p = if ltb p 1 then 1 else if ltb 10 p then 10 else p

-- The slot `t` as `task_create` fills it. `by` is the creator, and `uid` and `gid` stand for the
-- VFS credentials that a kernel with no current task would use.
unfoldable pub fresh_task : Kernel → (by : Option ℕ) (uid gid : ℕ) → ℕ → List ℕ → ℕ → ℕ → Task
fresh_task k by uid gid t name priority stack =
    let pid = k.next_pid in
    record (k.tasks t) {
      pid = pid;
      ppid = elim by [ some c ↦ (k.tasks c).pid | none ↦ 0 ];
      pgid = elim by [
        | some c ↦ if (k.tasks c).pid == 0 then pid else (k.tasks c).pgid
        | none ↦ pid
      ];
      sid = elim by [ some c ↦ if (k.tasks c).pid == 0 then pid else (k.tasks c).sid | none ↦ pid ];
      uid = elim by [ some c ↦ (k.tasks c).uid | none ↦ uid ];
      gid = elim by [ some c ↦ (k.tasks c).gid | none ↦ gid ];
      cwd = elim by [ some c ↦ (k.tasks c).cwd | none ↦ 47 ∷ [] ];
      umask_value = elim by [ some c ↦ (k.tasks c).umask_value | none ↦ 18 ];
      name = name;
      state = TaskState.ready;
      priority = clamp_priority priority;
      stack_base = some stack;
      stack_size = task_stack_size;
      ticks = 0;
      created_ticks = k.uptime_ticks;
      state_changed_ticks = k.uptime_ticks;
      resident_bytes = task_stack_size;
      context_switches = 0;
      exit_code = 0;
      exit_signal = 0;
      pending_signal = 0;
      wait_target = task_wait_any;
      wait_active = false;
    }

-- `stack` is the answer of `kmalloc(TASK_STACK_SIZE)`.
unfoldable pub task_create : (uid gid : ℕ) → Option ℕ → List ℕ → ℕ → Kernel → Option ℕ × Kernel
task_create uid gid stack name priority k =
    let (slot, k1) = alloc_task_slot k in
    elim slot [
      | none ↦ (none, k1)
      | some t ↦ elim stack [
        | none ↦ (none, k1)
        | some b ↦
            let k2 =
              set_task (record k1 { next_pid = (k1.next_pid + 1) % u32_mod }) t
                (fresh_task k1 k1.current uid gid t name priority b) in
            let k3 = sleep_cancel_task t k2 in
            elim (queue_add t k3) [
              | some k4 ↦ (some t, k4)
              | none ↦ (
                none,
                set_task (record k3 { released = k3.released ++ (Release.free_block b ∷ []) }) t
                    zero_task,
              )
            ]
      ]
    ]

unfoldable pub task_lookup_pid : ℕ → Kernel → Option ℕ
task_lookup_pid pid k =
    find_from (λ i. not (is_unused (k.tasks i).state) && (k.tasks i).pid == pid) 0 task_max

-- The guard of the two functions on an unstarted task.
abbrev pub is_unstarted : ℕ → Kernel → Bool
is_unstarted t k =
    not (points_to k.current t) && not ((k.tasks t).pid == 0) && is_ready (k.tasks t).state

unfoldable pub task_suspend_unstarted : ℕ → Kernel → Option Kernel
task_suspend_unstarted t k =
    if is_unstarted t k then some (set_state (queue_remove t k) t TaskState.blocked) else none
