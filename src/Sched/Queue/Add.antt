-- ===== src/Sched/Queue/Add.antt =====
-- `queue_add` of src/sched.c on the ring of tasks.
use atmkoala.Base.{
  ℕ, zero, suc, ◌≤◌, ◌<◌, ◌≡◌, refl, Option, some, false, List, [], ◌∷◌, ◌++◌, has, length, update,
  Distinct-snoc, arith,
}
use atmkoala.Kernel.{task_max, Kernel}
use atmkoala.Sched.Queue.{set_next, add_walk, queue_add}
use atmkoala.Sched.Queue.Ring.{
  Links, IsRing, last_of, Links-same, Links-update, Links-append, Links-last,
}

abbrev pub nexts : Kernel → ℕ → Option ℕ
nexts k i = (k.tasks i).next

-- The run queue holds the tasks `q`, head first.
abbrev pub IsQueue : Kernel → List ℕ → Type 0
IsQueue k q = IsRing k.run_queue_head (nexts k) q

-- `k'` differs from `k` at most in the links and the head of the run queue.
pub record OnlyLinks (k k' : Kernel) : Type 0 where
  pub task : (i : ℕ) → k'.tasks i ≡ record (k.tasks i) { next = (k'.tasks i).next }
  pub rest : k' ≡ record k { tasks = k'.tasks; run_queue_head = k'.run_queue_head }

-- The kernel after `t` has been linked in behind the queue `q`.
pub appended : Kernel → ℕ → List ℕ → Kernel
appended k t [] = set_next (record k { run_queue_head = some t }) t (some t)
appended k t (x ∷ xs) = set_next (set_next k (last_of x xs) (some t)) t (some x)

add_walk_lem :
    (n : ℕ) (k : Kernel) (t head x : ℕ) (xs : List ℕ)
    → Links (nexts k) x xs head
    → has head xs ≡ false
    → length xs < n
    → add_walk n k t head x ≡ some (set_next (set_next k (last_of x xs) (some t)) t (some head))
unfolding add_walk
add_walk_lem zero k t head x xs l d h = absurd (omega arith)
add_walk_lem (suc n) k t head x [] l d h = ground arith
add_walk_lem (suc n) k t head x (y ∷ ys) l d h = ground (arith, add_walk_lem n k t head y ys l.1)

queue_add-appended :
    (t : ℕ) (k : Kernel) (q : List ℕ)
    → IsQueue k q
    → length q ≤ task_max
    → queue_add t k ≡ some (appended k t q)
unfolding queue_add appended
queue_add-appended t k [] r h = ground arith
queue_add-appended t k (x ∷ xs) r h = ground (arith, add_walk_lem task_max k t x x xs r.1)

appended-IsQueue :
    (t : ℕ) (k : Kernel) (q : List ℕ)
    → IsQueue k q
    → has t q ≡ false
    → IsQueue (appended k t q) (q ++ (t ∷ []))
unfolding appended
appended-IsQueue t k [] r h = ground arith
appended-IsQueue t k (x ∷ xs) r h = (
  r.0,
  Links-same linked (nexts (appended k t (x ∷ xs))) x (xs ++ (t ∷ [])) x (λ a _. ground arith)
      (Links-append linked x xs t [] x
        (Links-update redirected t (some x) x xs t h (Links-last (nexts k) x xs x t r.2 r.1))
        (ground arith)),
  Distinct-snoc (x ∷ xs) t r.2 h,
)
  where
    redirected : ℕ → Option ℕ
    redirected = update (nexts k) (last_of x xs) (some t)

    linked : ℕ → Option ℕ
    linked = update redirected t (some x)

appended-OnlyLinks : (t : ℕ) (k : Kernel) (q : List ℕ) → OnlyLinks k (appended k t q)
unfolding appended
appended-OnlyLinks t k [] = record { task = λ i. ground arith; rest = refl }
appended-OnlyLinks t k (x ∷ xs) = record { task = λ i. ground arith; rest = refl }

-- On a ring of at most `TASK_MAX` tasks that lacks `t`, `queue_add` succeeds, the queue gets `t` at
-- its end, and nothing but links has changed.
pub queue_add-append :
    (t : ℕ) (k : Kernel) (q : List ℕ)
    → IsQueue k q
    → has t q ≡ false
    → length q ≤ task_max
    → (k' : Kernel) × (queue_add t k ≡ some k') × IsQueue k' (q ++ (t ∷ [])) × OnlyLinks k k'
queue_add-append t k q r h fits = (
  appended k t q,
  queue_add-appended t k q r fits,
  appended-IsQueue t k q r h,
  appended-OnlyLinks t k q,
)
