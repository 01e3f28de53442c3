-- ===== src/Sched/Wait.antt =====
-- `task_waitpid`, process groups and sessions of src/sched.c.
use atmkoala.Base.{
  ℕ, zero, suc, ◌+◌, Option, none, some, Bool, true, false, ◌==◌, ◌&&◌, ◌||◌, not, if◌then◌else◌,
  ltb, is_some, ℤ, pos, neg,
}
use atmkoala.Kernel.{is_zombie, Kernel, set_task, task_wait_any}
use atmkoala.Sched.Pool.{release_zombie_slot, task_lookup_pid}
use atmkoala.Sched.Switch.{task_block, task_block_from_syscall}
use atmkoala.Sched.Exit.{WaitFor, task_is_direct_child, task_wait_status, einval, echild}

-- What one pass over the children comes to.
pub data Scan : Type 0 where
  zombie_at : ℕ → Scan
  alive : Scan
  childless : Scan

abbrev pub saw_child : Bool → Scan
saw_child true = Scan.alive
saw_child false = Scan.childless

-- The rounds from the slot `i` on, with `have_child`.
unfoldable pub scan_children : (n i : ℕ) → Kernel → (parent : ℕ) → WaitFor → Bool → Scan
scan_children zero i k parent w have = saw_child have
scan_children (suc n) i k parent w have =
    let rest = scan_children n (i + 1) k parent w in
    elim (task_is_direct_child k parent i w) [
      | false ↦ rest have
      | true ↦ elim (is_zombie (k.tasks i).state) [ true ↦ Scan.zombie_at i | false ↦ rest true ]
    ]

-- The result of a pass of the loop: a number with the status of the child that was reaped, or the
-- kernel in which the parent blocks before the next pass.
pub data Waited : Type 0 where
  returned : ℤ → Option ℕ → Kernel → Waited
  blocks : Kernel → Waited

abbrev pub set_wait : Kernel → ℕ → Bool → Kernel
set_wait k t b = set_task k t (record (k.tasks t) { wait_active = b })

unfoldable pub wait_target_of : WaitFor → ℕ
wait_target_of WaitFor.any_child = task_wait_any
wait_target_of (WaitFor.child p) = p

-- One pass of the loop of `task_waitpid`, for the current task `parent`.
unfoldable pub wait_pass : (parent : ℕ) → WaitFor → (nohang : Bool) → Kernel → Waited
wait_pass parent w nohang k = elim (scan_children 15 1 k parent w false) [
  | Scan.zombie_at i ↦
      Waited.returned (pos (k.tasks i).pid) (some (task_wait_status (k.tasks i)))
        (release_zombie_slot i (set_wait k parent false))
  | Scan.childless ↦ Waited.returned (neg echild) none (set_wait k parent false)
  | Scan.alive ↦
      if nohang
      then Waited.returned (pos 0) none k
      else Waited.blocks (
          set_task k parent
            (record (k.tasks parent) { wait_target = wait_target_of w; wait_active = true }))
]

-- `none` is a `pid` of 0 or below -1, and `options` is the word of that name.
unfoldable pub task_waitpid : Option WaitFor → (options : ℕ) → Kernel → Waited
task_waitpid w options k = elim k.current [
  | none ↦ Waited.returned (neg einval) none k
  | some parent ↦ elim w [
    | none ↦ Waited.returned (neg einval) none k
    | some f ↦
        if ltb 1 options
        then Waited.returned (neg einval) none k
        else wait_pass parent f (options == 1) k
  ]
]

-- How the parent leaves the CPU, and what it does when it runs again.
unfoldable pub wait_block : (parent : ℕ) → Kernel → Option Kernel
wait_block parent k =
    if is_some (k.tasks parent).address_space
    then some (task_block_from_syscall k)
    else task_block k

unfoldable pub wait_resumed : (parent : ℕ) → Kernel → Kernel
wait_resumed parent k = set_wait k parent false

-- `pid` is 0 or positive; the source returns a null pointer for a negative one.
unfoldable pub task_visible_target : (caller pid : ℕ) → Kernel → Option ℕ
task_visible_target caller pid k = if pid == 0 then some caller else (elim (task_lookup_pid pid k) [
  | none ↦ none
  | some t ↦
      if not (t == caller) && not ((k.tasks t).ppid == (k.tasks caller).pid) then none else some t
])

unfoldable pub task_getpgid : (caller pid : ℕ) → Kernel → Option ℕ
task_getpgid caller pid k = elim (task_visible_target caller pid k) [
  | none ↦ none
  | some t ↦ some (k.tasks t).pgid
]

unfoldable pub task_getsid : (caller pid : ℕ) → Kernel → Option ℕ
task_getsid caller pid k = elim (task_visible_target caller pid k) [
  | none ↦ none
  | some t ↦ some (k.tasks t).sid
]

-- The group may be the target's own, or that of a leader in the target's session.
unfoldable pub may_join : (target pgid : ℕ) → Kernel → Bool
may_join t g k =
    g == (k.tasks t).pid
    || (elim (task_lookup_pid g k) [ none ↦ false | some l ↦ (k.tasks l).sid == (k.tasks t).sid ])

unfoldable pub task_setpgid : (caller pid pgid : ℕ) → Kernel → Option Kernel
task_setpgid caller pid pgid k = elim (task_visible_target caller pid k) [
  | none ↦ none
  | some t ↦
      let g : ℕ = if pgid == 0 then (k.tasks t).pid else pgid in
      if is_zombie (k.tasks t).state || not (may_join t g k)
      then none
      else some (set_task k t (record (k.tasks t) { pgid = g }))
]

unfoldable pub task_setsid : (caller : ℕ) → Kernel → Option Kernel
task_setsid t k =
    if (k.tasks t).pid == 0 || (k.tasks t).pgid == (k.tasks t).pid
    then none
    else some (set_task k t (record (k.tasks t) { sid = (k.tasks t).pid; pgid = (k.tasks t).pid }))
