-- ===== src/Sched/Invariant.antt =====
-- The invariant that ties the run queue of src/sched.c to the states of the tasks.
use atmkoala.Base.{
  ℕ, ◌≤◌, ◌<◌, ◌≡◌, refl, ap, some, Bool, true, false, ◌||◌, if◌then◌else◌, inl, inr, Bool-cases,
  List, [], ◌∷◌, ◌++◌, has, erase, Distinct, length, has-append, has-erase, length_of_below, arith,
}
use atmkoala.Kernel.{TaskState, is_ready, is_running, is_blocked, task_max, Kernel, set_state}
use atmkoala.Sched.Queue.{queue_add, queue_remove, task_unblock}
use atmkoala.Sched.Queue.Ring.{IsRing-same}
use atmkoala.Sched.Queue.Add.{nexts, IsQueue, OnlyLinks, queue_add-append}
use atmkoala.Sched.Queue.Remove.{queue_remove-erase}

abbrev pub is_runnable : TaskState → Bool
is_runnable s = is_ready s || is_running s

-- `q` is the run queue. It holds only tasks of the table that are ready or running, and every such
-- task but the idle one, which is slot 0.
pub record IsScheduled (k : Kernel) (q : List ℕ) : Type 0 where
  pub ring : IsQueue k q
  pub listed : (i : ℕ) → has i q ≡ true → (i < task_max) × (is_runnable (k.tasks i).state ≡ true)
  pub queued :
      (i : ℕ) → 0 < i → i < task_max → is_runnable (k.tasks i).state ≡ true → has i q ≡ true

pub IsQueue-Distinct : (k : Kernel) (q : List ℕ) → IsQueue k q → Distinct q
IsQueue-Distinct k [] r = tt
IsQueue-Distinct k (x ∷ xs) r = r.2

-- The queue fits the table, so the bounded walks of the source go all the way round.
pub length-le-task_max : (k : Kernel) (q : List ℕ) → IsScheduled k q → length q ≤ task_max
length-le-task_max k q v =
    length_of_below task_max q (IsQueue-Distinct k q v.ring) (λ a i. (v.listed a i).0)

-- The run queue is read off the head and the links alone.
pub IsQueue-same :
    (k k' : Kernel) (q : List ℕ)
    → k'.run_queue_head ≡ k.run_queue_head
    → ((i : ℕ) → nexts k' i ≡ nexts k i)
    → IsQueue k q
    → IsQueue k' q
IsQueue-same k k' q e same r =
    IsRing-same k.run_queue_head k'.run_queue_head (nexts k) (nexts k') q e same r

-- A change that spares the head, the links and who is runnable keeps the invariant.
pub IsScheduled-same :
    (k k' : Kernel) (q : List ℕ)
    → k'.run_queue_head ≡ k.run_queue_head
    → ((i : ℕ) → nexts k' i ≡ nexts k i)
    → ((i : ℕ) → is_runnable (k'.tasks i).state ≡ is_runnable (k.tasks i).state)
    → IsScheduled k q
    → IsScheduled k' q
IsScheduled-same k k' q e same run v = record {
  ring = IsQueue-same k k' q e same v.ring;
  listed = λ i h. ground (arith, run i, v.listed i);
  queued = λ i a b h. ground (arith, run i, v.queued i a b);
}

-- Taking a queued or unqueued task off the run queue while its state changes to one that is not
-- runnable, in the order of the source: the state first.
pub queue_remove-IsScheduled :
    (t : ℕ) (k : Kernel) (q : List ℕ) (s : TaskState)
    → is_runnable s ≡ false
    → IsScheduled k q
    → IsScheduled (queue_remove t (set_state k t s)) (erase t q)
queue_remove-IsScheduled t k q s off v =
    let k1 = set_state k t s in
    let ring1 : IsQueue k1 q = IsQueue-same k k1 q refl (λ i. ground arith) v.ring in
    let d = IsQueue-Distinct k q v.ring in
    let (ring, same) = queue_remove-erase t k1 q ring1 (length-le-task_max k q v) in
    record {
      ring = ring;
      listed = λ i h. ground (arith, same.task i, v.listed i, has-erase t i q d);
      queued = λ i a b h. ground (arith, same.task i, v.queued i a b, has-erase t i q d);
    }

-- Putting a task that is not queued on the run queue once its state is runnable.
pub queue_add-IsScheduled :
    (t : ℕ) (k : Kernel) (q : List ℕ) (s : TaskState)
    → t < task_max
    → is_runnable s ≡ true
    → has t q ≡ false
    → IsScheduled k q
    → (k' : Kernel) × (queue_add t (set_state k t s) ≡ some k')
      × IsScheduled k' (q ++ (t ∷ []))
      × OnlyLinks (set_state k t s) k'
queue_add-IsScheduled t k q s small on out v =
    let k1 = set_state k t s in
    let ring1 : IsQueue k1 q = IsQueue-same k k1 q refl (λ i. ground arith) v.ring in
    let (k', added, ring, same) = queue_add-append t k1 q ring1 out (length-le-task_max k q v) in
    (
      k',
      added,
      record {
        ring = ring;
        listed = λ i h. ground (arith, same.task i, v.listed i, has-append i q (t ∷ []));
        queued = λ i a b h. ground (arith, same.task i, v.queued i a b, has-append i q (t ∷ []));
      },
      same,
    )

-- A blocked task is not on the run queue.
pub blocked-not_queued :
    (t : ℕ) (k : Kernel) (q : List ℕ)
    → IsScheduled k q
    → is_runnable (k.tasks t).state ≡ false
    → has t q ≡ false
blocked-not_queued t k q v off = elim (Bool-cases (has t q)) [
  | inl i ↦ ground (arith, v.listed t i)
  | inr o ↦ o
]

-- On a sound run queue `task_unblock` of a task of the table that is blocked puts it at the end
-- of the queue, and of any other task of the table leaves the queue as it was; the run queue is
-- sound afterwards.
pub task_unblock-IsScheduled :
    (t : ℕ) (k : Kernel) (q : List ℕ)
    → t < task_max
    → IsScheduled k q
    → IsScheduled (task_unblock t k) (if is_blocked (k.tasks t).state then q ++ (t ∷ []) else q)
unfolding task_unblock
task_unblock-IsScheduled t k q small v = elim (Bool-cases (is_blocked (k.tasks t).state)) [
  | inl b ↦
      let out = blocked-not_queued t k q v (ground arith) in
      let (k', added, v', same) = queue_add-IsScheduled t k q TaskState.ready small refl out v in
      rw (b, added) v'
  | inr o ↦ rw o v
]

-- Unblocking leaves the CPU where it is.
pub task_unblock-current :
    (t : ℕ) (k : Kernel) (q : List ℕ)
    → t < task_max
    → IsScheduled k q
    → (task_unblock t k).current ≡ k.current
unfolding task_unblock
task_unblock-current t k q small v = elim (Bool-cases (is_blocked (k.tasks t).state)) [
  | inl b ↦
      let out = blocked-not_queued t k q v (ground arith) in
      let (k', added, v', same) = queue_add-IsScheduled t k q TaskState.ready small refl out v in
      rw (b, added) (ap (λ x. x.current) same.rest)
  | inr o ↦ rw o
]
