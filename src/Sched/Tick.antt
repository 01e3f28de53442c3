-- ===== src/Sched/Tick.antt =====
-- The timer tick of src/sched.c and the run queue.
use atmkoala.Base.{
  ℕ, ◌*◌, ◌%◌, ltb, ap, zero, suc, ◌+◌, ◌≤◌, ◌<◌, ◌≡◌, refl, ◌∙◌, update, inl, inr, some, Bool,
  true, false, ◌==◌, ◌&&◌, ◌||◌, not, if◌then◌else◌, Bool-cases, List, [], ◌∷◌, ◌++◌, has, length,
  arith,
}
use atmkoala.Kernel.{is_ready, is_blocked, is_zombie, task_max, u32_mod, Kernel}
use atmkoala.Sched.Queue.{task_unblock}
use atmkoala.Sched.Queue.Ring.{Links}
use atmkoala.Sched.Queue.Add.{nexts}
use atmkoala.Sched.Switch.{
  switch_to, wake_sleeper, wake_sleepers, pick_next, count_tick, tick_empty, demote, dispatch,
  tick_queue, tick_rest, sched_tick, tick_reached,
}
use atmkoala.Sched.Invariant.{
  is_runnable, IsScheduled, IsScheduled-same, length-le-task_max, task_unblock-IsScheduled,
  task_unblock-current,
}
use atmkoala.Sched.Block.{switch_to-IsScheduled}

-- A kernel with its run queue, and its current task in the table.
pub record IsRunning (k : Kernel) (q : List ℕ) (c : ℕ) : Type 0 where
  pub scheduled : IsScheduled k q
  pub current : k.current ≡ some c
  pub in_table : c < task_max

wake_sleeper-IsRunning :
    (i : ℕ) (k : Kernel) (q : List ℕ) (c : ℕ)
    → i < task_max
    → IsRunning k q c
    → (q' : List ℕ) × IsRunning (wake_sleeper i k) q' c
unfolding wake_sleeper
wake_sleeper-IsRunning i k q c small v =
    elim (Bool-cases (
      (k.sleep_meta i).active
      && is_blocked (k.tasks i).state
      && tick_reached k.uptime_ticks (k.sleep_meta i).deadline)) [
        | inl e ↦
            rw (e, wake_sleeper)
              (woken (disarmed k i)
                (IsScheduled-same k (disarmed k i) q refl (λ j. refl) (λ j. refl) v.scheduled)
                v.current)
        | inr e ↦ (q, rw (e, wake_sleeper) v)
      ]
  where
    disarmed : Kernel → ℕ → Kernel
    disarmed k i = record k {
      sleep_meta = update k.sleep_meta i (record (k.sleep_meta i) { active = false });
    }

    woken :
        (k1 : Kernel)
        → IsScheduled k1 q
        → k1.current ≡ some c
        → (q' : List ℕ) × IsRunning (task_unblock i k1) q' c
    woken k1 w cur = (
      if is_blocked (k1.tasks i).state then q ++ (i ∷ []) else q,
      record {
        scheduled = task_unblock-IsScheduled i k1 q small w;
        current = task_unblock-current i k1 q small w ∙ cur;
        in_table = v.in_table;
      },
    )

wake_sleepers-IsRunning :
    (n i : ℕ) (k : Kernel) (q : List ℕ) (c : ℕ)
    → i + n ≤ task_max
    → IsRunning k q c
    → (q' : List ℕ) × IsRunning (wake_sleepers n i k) q' c
unfolding wake_sleepers
wake_sleepers-IsRunning zero i k q c small v = (q, v)
wake_sleepers-IsRunning (suc n) i k q c small v =
    let (q', v') = wake_sleeper-IsRunning i k q c (omega arith) v in
    wake_sleepers-IsRunning n (i + 1) (wake_sleeper i k) q' c (omega arith) v'

-- The walk that picks the next task comes to an end on a ring, at a task of it.
pick_next_ends :
    (n : ℕ) (k : Kernel) (start scan c : ℕ) (xs : List ℕ)
    → Links (nexts k) scan xs start
    → length xs < n
    → (m : ℕ) × (pick_next n k start scan c ≡ some m) × (has m (start ∷ scan ∷ xs) ≡ true)
unfolding pick_next
pick_next_ends zero k start scan c xs l h = absurd (omega arith)
pick_next_ends (suc n) k start scan c [] l h =
    elim (Bool-cases (is_ready (k.tasks scan).state && not (scan == c))) [
      | inl e ↦ (scan, rw (e, pick_next) refl, ground arith)
      | inr e ↦ (start, ground arith, ground arith)
    ]
pick_next_ends (suc n) k start scan c (y ∷ ys) l h =
    elim (Bool-cases (is_ready (k.tasks scan).state && not (scan == c))) [
      | inl e ↦ (scan, rw (e, pick_next) refl, ground arith)
      | inr e ↦ elim (Bool-cases (y == start)) [
        | inl p ↦ (start, ground arith, ground arith)
        | inr p ↦
            let (m, r, i) = pick_next_ends n k start y c ys l.1 (omega arith) in
            (m, ground arith, ground arith)
      ]
    ]

demote-IsScheduled :
    (c : ℕ) (k : Kernel) (q : List ℕ) → IsScheduled k q → IsScheduled (demote c k) q
unfolding demote
demote-IsScheduled c k q v =
    IsScheduled-same k (demote c k) q (ground arith) (λ i. ground arith) (λ i. ground arith) v

-- The counters of a tick change no task's state or link.
count_tick-IsRunning :
    (k : Kernel) (q : List ℕ) (c : ℕ) → IsRunning k q c → IsRunning (count_tick k) q c
unfolding count_tick
count_tick-IsRunning k q c v = record {
  scheduled =
      IsScheduled-same k (count_tick k) q (ground arith) (λ i. ground arith) (λ i. ground arith)
        v.scheduled;
  current = ground arith;
  in_table = v.in_table;
}

-- A switch from `c` to another task that is ready.
switch_away :
    (n c : ℕ) (k : Kernel) (q : List ℕ)
    → n < task_max
    → (n == c || not (is_ready (k.tasks n).state)) ≡ false
    → IsRunning k q c
    → IsRunning (switch_to n (demote c k)) q n
unfolding demote switch_to
switch_away n c k q small e v = record {
  scheduled =
      switch_to-IsScheduled n (demote c k) q (inr (ground arith))
        (demote-IsScheduled c k q v.scheduled);
  current = refl;
  in_table = small;
}

dispatch-IsRunning :
    (n c : ℕ) (k : Kernel) (q : List ℕ)
    → n < task_max
    → IsRunning k q c
    → (c' : ℕ) × IsRunning (dispatch n c k) q c'
unfolding dispatch
dispatch-IsRunning n c k q small v =
    elim (Bool-cases (n == c || not (is_ready (k.tasks n).state))) [
      | inl e ↦ (c, rw e v)
      | inr e ↦ (n, rw e (switch_away n c k q small e v))
    ]

-- The tick's choice on a queue that is not empty.
tick_queue-IsRunning :
    (k : Kernel) (x : ℕ) (xs : List ℕ) (c : ℕ)
    → IsRunning k (x ∷ xs) c
    → (k' : Kernel) × (c' : ℕ) × (tick_queue x c k ≡ some k') × IsRunning k' (x ∷ xs) c'
unfolding tick_queue
tick_queue-IsRunning k x xs c v = elim (Bool-cases early) [
  | inl e ↦ (ticked, c, ground arith, still ticked refl (λ i. refl) (ground arith))
  | inr e ↦
      let (n, picked, i) = pick_next_ends (suc task_max) cleared x x c xs v.scheduled.ring.1 fits in
      let n_in = (v.scheduled.listed n (ground arith)).0 in
      let (c', v') =
        dispatch-IsRunning n c cleared (x ∷ xs) n_in
          (still cleared refl (λ i. refl) (ground arith)) in
      (dispatch n c cleared, c', ground arith, v')
]
  where
    early : Bool
    early = ltb ((k.quantum_counter + 1) % u32_mod) (((k.tasks c).priority * 2) % u32_mod)

    ticked : Kernel
    ticked = record k { quantum_counter = (k.quantum_counter + 1) % u32_mod }

    cleared : Kernel
    cleared = record k { quantum_counter = 0 }

    fits : length xs < suc task_max
    fits = omega (arith, length-le-task_max k (x ∷ xs) v.scheduled)

    still :
        (k' : Kernel)
        → k'.run_queue_head ≡ k.run_queue_head
        → ((i : ℕ) → k'.tasks i ≡ k.tasks i)
        → k'.current ≡ k.current
        → IsRunning k' (x ∷ xs) c
    still k' e same cur = record {
      scheduled =
          IsScheduled-same k k' (x ∷ xs) e (λ i. ap (λ t. t.next) (same i))
            (λ i. ap (λ t. is_runnable t.state) (same i)) v.scheduled;
      current = cur ∙ v.current;
      in_table = v.in_table;
    }

tick_empty-IsRunning :
    (k : Kernel) (c : ℕ) → IsRunning k [] c → (c' : ℕ) × IsRunning (tick_empty k) [] c'
unfolding tick_empty
tick_empty-IsRunning k c v =
    let idle : IsRunning (switch_to 0 k) [] 0 = to_idle in
    elim (Bool-cases (
      not ((k.tasks c).pid == 0)
      && (is_zombie (k.tasks c).state || is_blocked (k.tasks c).state))) [
        | inl e ↦ (0, rw (v.current, tick_empty) (rw e idle))
        | inr e ↦ (c, rw (v.current, tick_empty) (rw e v))
      ]
  where
    to_idle : IsRunning (switch_to 0 k) [] 0
    to_idle = record {
      scheduled = switch_to-IsScheduled 0 k [] (inl refl) v.scheduled;
      current = unfold switch_to in refl;
      in_table = omega arith;
    }

-- From a kernel whose run queue is sound, a timer tick comes to an end with no null pointer
-- followed, and leaves a sound run queue and a current task of the table.
pub sched_tick-IsRunning :
    (k : Kernel) (q : List ℕ) (c : ℕ)
    → IsRunning k q c
    → (k' : Kernel) × (q' : List ℕ) × (c' : ℕ) × (sched_tick k ≡ some k') × IsRunning k' q' c'
unfolding sched_tick tick_rest
sched_tick-IsRunning k q c v =
    let (q', v') =
      wake_sleepers-IsRunning 15 1 (count_tick k) q c (omega arith)
        (count_tick-IsRunning k q c v) in
    behind (wake_sleepers 15 1 (count_tick k)) q' v'
  where
    behind :
        (k1 : Kernel) (q1 : List ℕ)
        → IsRunning k1 q1 c
        → (k' : Kernel) × (q' : List ℕ) × (c' : ℕ) × (tick_rest k1 ≡ some k') × IsRunning k' q' c'
    behind k1 [] w =
        let (c', w') = tick_empty-IsRunning k1 c w in (tick_empty k1, [], c', ground arith, w')
    behind k1 (x ∷ xs) w =
        let (k', c', r, w') = tick_queue-IsRunning k1 x xs c w in (k', x ∷ xs, c', ground arith, w')
