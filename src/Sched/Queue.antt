-- ===== src/Sched/Queue.antt =====
-- The run queue of src/sched.c: a circular list through the `next` links of the tasks.
-- Each walk is bounded by `TASK_MAX` rounds, as in the source.
pub mod Ring
pub mod Add
pub mod Remove
use atmkoala.Base.{
  ℕ, zero, suc, Option, none, some, Bool, true, false, ◌==◌, ◌&&◌, ◌||◌, if◌then◌else◌, points_to,
}
use atmkoala.Kernel.{Task, TaskState, is_blocked, task_max, Kernel, set_task, set_state}

abbrev pub set_next : Kernel → ℕ → Option ℕ → Kernel
set_next k t n = set_task k t (record (k.tasks t) { next = n })

-- The loop of `queue_add`, at `tail`. `none` is the return of -1.
unfoldable pub add_walk : ℕ → Kernel → (t head tail : ℕ) → Option Kernel
add_walk zero k t head tail = none
add_walk (suc n) k t head tail = elim (k.tasks tail).next [
  | none ↦ none
  | some m ↦
      let rest = add_walk n k t head m in
      if m == head then some (set_next (set_next k tail (some t)) t (some head)) else rest
]

unfoldable pub queue_add : ℕ → Kernel → Option Kernel
unfolding add_walk
queue_add t k = elim k.run_queue_head [
  | none ↦ some (set_next (record k { run_queue_head = some t }) t (some t))
  | some head ↦ add_walk task_max k t head head
]

-- What `queue_remove` writes once `prev->next` is `t`.
unfoldable pub unlinked : Kernel → (t head prev : ℕ) → Kernel
unlinked k t head prev =
    let k1 = set_next k prev (k.tasks t).next in
    let k2 : Kernel = if head == t then record k1 { run_queue_head = (k1.tasks t).next } else k1 in
    set_next k2 t none

-- The loop of `queue_remove`, at `prev`.
unfoldable pub remove_walk : ℕ → Kernel → (t head prev : ℕ) → Kernel
remove_walk zero k t head prev = k
remove_walk (suc n) k t head prev = elim (k.tasks prev).next [
  | none ↦ k
  | some m ↦
      let rest = remove_walk n k t head m in
      if m == t then unlinked k t head prev else if m == head then k else rest
]

-- `!t->next || t->next == t`
abbrev pub last_link : Kernel → ℕ → Bool
last_link k t = elim (k.tasks t).next [ none ↦ true | some m ↦ m == t ]

unfoldable pub queue_remove : ℕ → Kernel → Kernel
unfolding remove_walk
queue_remove t k = elim k.run_queue_head [
  | none ↦ k
  | some head ↦
      if head == t && last_link k t
      then set_next (record k { run_queue_head = none }) t none
      else remove_walk task_max k t head head
]

-- `task_unblock`
unfoldable pub task_unblock : ℕ → Kernel → Kernel
task_unblock t k =
    if is_blocked (k.tasks t).state
    then (let k1 = set_state k t TaskState.ready in
        elim (queue_add t k1) [ some k2 ↦ k2 | none ↦ set_state k1 t TaskState.blocked ])
    else k
