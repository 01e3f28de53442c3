-- ===== src/Sched/Queue/Remove.antt =====
-- `queue_remove` of src/sched.c on the ring of tasks.
use atmkoala.Base.{
  ℕ, zero, suc, ◌≤◌, ◌<◌, ◌≡◌, ◌≢◌, refl, sym, Option, none, some, true, false, ◌==◌, if◌then◌else◌,
  inl, inr, Bool-cases, List, [], ◌∷◌, has, erase, Distinct, length, update, Distinct-erase,
  has-erase, arith,
}
use mathlib.Core.Path.{subst}
use atmkoala.Kernel.{task_max, Kernel}
use atmkoala.Sched.Queue.{set_next, unlinked, remove_walk, queue_remove}
use atmkoala.Sched.Queue.Ring.{Links, last_of, has-last, Links-same, Links-update, Links-last}
use atmkoala.Sched.Queue.Add.{nexts, IsQueue, OnlyLinks}

-- The task before `t` on the path from `x` through `xs` to `t` or past it.
abbrev before : ℕ → ℕ → List ℕ → ℕ
before t x [] = x
before t x (y ∷ ys) = if y == t then x else before t y ys

-- `t` is met inside the path.
remove_walk-has :
    (n : ℕ) (k : Kernel) (t head x : ℕ) (xs : List ℕ)
    → Links (nexts k) x xs head
    → has t xs ≡ true
    → has head xs ≡ false
    → length xs < n
    → remove_walk n k t head x ≡ unlinked k t head (before t x xs)
unfolding remove_walk
remove_walk-has zero k t head x xs l i o h = absurd (omega arith)
remove_walk-has (suc n) k t head x [] l i o h = cc
remove_walk-has (suc n) k t head x (y ∷ ys) l i o h =
    ground (arith, remove_walk-has n k t head y ys l.1)

-- `t` is the head, and is met at the end.
remove_walk-head :
    (n : ℕ) (k : Kernel) (head x : ℕ) (xs : List ℕ)
    → Links (nexts k) x xs head
    → has head xs ≡ false
    → length xs < n
    → remove_walk n k head head x ≡ unlinked k head head (last_of x xs)
unfolding remove_walk
remove_walk-head zero k head x xs l o h = absurd (omega arith)
remove_walk-head (suc n) k head x [] l o h = ground arith
remove_walk-head (suc n) k head x (y ∷ ys) l o h =
    ground (arith, remove_walk-head n k head y ys l.1)

-- `t` is not in the ring.
remove_walk-absent :
    (n : ℕ) (k : Kernel) (t head x : ℕ) (xs : List ℕ)
    → Links (nexts k) x xs head
    → has t xs ≡ false
    → t ≢ head
    → remove_walk n k t head x ≡ k
unfolding remove_walk
remove_walk-absent zero k t head x xs l o h = refl
remove_walk-absent (suc n) k t head x [] l o h = ground arith
remove_walk-absent (suc n) k t head x (y ∷ ys) l o h =
    ground (arith, remove_walk-absent n k t head y ys l.1)

has-before : (t x : ℕ) (xs : List ℕ) → has (before t x xs) (x ∷ xs) ≡ true
has-before t x [] = ground arith
has-before t x (y ∷ ys) = ground (arith, has-before t y ys)

-- Leading the path past `t`.
Links-skip :
    (f : ℕ → Option ℕ) (t x : ℕ) (ys : List ℕ) (z : ℕ)
    → Links f t ys z
    → has x ys ≡ false
    → Links (update f x (f t)) x ys z
Links-skip f t x [] z l o = ground arith
Links-skip f t x (w ∷ ws) z l o = (ground arith, Links-update f x (f t) w ws z o l.1)

Links-erase :
    (f : ℕ → Option ℕ) (t x : ℕ) (xs : List ℕ) (z : ℕ)
    → Links f x xs z
    → Distinct (x ∷ xs)
    → has t xs ≡ true
    → Links (update f (before t x xs) (f t)) x (erase t xs) z
Links-erase f t x [] z l d i = cc
Links-erase f t x (y ∷ ys) z l d i = elim (Bool-cases (y == t)) [
  | inl e ↦
      let same : y ≡ t = ground arith in
      let sym_e : (t == y) ≡ true = ground arith in
      rw (e, sym_e) (Links-skip f t x ys z (ground arith) (ground arith))
  | inr e ↦
      let sym_e : (t == y) ≡ false = ground arith in
      rw (e, sym_e)
        (ground (arith, has-before t y ys), Links-erase f t y ys z l.1 d.1 (ground arith))
]

-- The ring without `t`, from the path without it and the writes of `unlinked`.
unlinked-Links :
    (k : Kernel) (t head prev x : ℕ) (xs : List ℕ) (z : ℕ)
    → Links (update (nexts k) prev (nexts k t)) x xs z
    → has t (x ∷ xs) ≡ false
    → Links (nexts (unlinked k t head prev)) x xs z
unfolding unlinked
unlinked-Links k t head prev x xs z l o =
    Links-same skipped (nexts (unlinked k t head prev)) x xs z (λ a h. ground arith) l
  where
    skipped : ℕ → Option ℕ
    skipped = update (nexts k) prev (nexts k t)

unlinked-OnlyLinks : (k : Kernel) (t head prev : ℕ) → OnlyLinks k (unlinked k t head prev)
unfolding unlinked
unlinked-OnlyLinks k t head prev = record { task = λ i. ground arith; rest = ground arith }

-- The kernel `k'` holds the queue `q`, and differs from `k` at most in links.
abbrev Relinked : Kernel → List ℕ → Kernel → Type 0
Relinked k q k' = IsQueue k' q × OnlyLinks k k'

OnlyLinks-refl : (k : Kernel) → OnlyLinks k k
OnlyLinks-refl k = record { task = λ i. refl; rest = refl }

erase_absent : (t : ℕ) (q : List ℕ) → has t q ≡ false → erase t q ≡ q
erase_absent t [] h = refl
erase_absent t (x ∷ xs) h = ground (arith, erase_absent t xs)

-- The head pointer after the writes.
unlinked-head :
    (k : Kernel) (t head prev : ℕ)
    → (unlinked k t head prev).run_queue_head
      ≡ (if head == t then update (nexts k) prev (nexts k t) t else k.run_queue_head)
unfolding unlinked
unlinked-head k t head prev = ground arith

-- The head of a ring of two tasks or more is taken out.
remove_head :
    (k : Kernel) (x y : ℕ) (ys : List ℕ)
    → IsQueue k (x ∷ y ∷ ys)
    → Relinked k (y ∷ ys) (unlinked k x x (last_of y ys))
remove_head k x y ys r =
    let moved : nexts k x ≡ some y = r.1.0 in
    (
      (
        ground (arith, unlinked-head k x x (last_of y ys), has-last y ys),
        unlinked-Links k x x (last_of y ys) y ys y
            (rw moved (Links-last (nexts k) y ys x y r.2.1 r.1.1)) r.2.0,
        r.2.1,
      ),
      unlinked-OnlyLinks k x x (last_of y ys),
    )

-- A task behind the head `x` is taken out.
remove_behind :
    (t : ℕ) (k : Kernel) (x : ℕ) (xs : List ℕ)
    → IsQueue k (x ∷ xs)
    → (t == x) ≡ false
    → has t xs ≡ true
    → Relinked k (x ∷ erase t xs) (unlinked k t x (before t x xs))
remove_behind t k x xs r ne i = (
  (
    ground (arith, unlinked-head k t x (before t x xs)),
    unlinked-Links k t x (before t x xs) x (erase t xs) x (Links-erase (nexts k) t x xs x r.1 r.2 i)
        (ground (arith, has-erase t t xs r.2.1)),
    (ground (arith, has-erase t x xs r.2.1), Distinct-erase t xs r.2.1),
  ),
  unlinked-OnlyLinks k t x (before t x xs),
)

module _ (t : ℕ) (k : Kernel) where
  queue_remove-single :
      IsQueue k (t ∷ []) → queue_remove t k ≡ set_next (record k { run_queue_head = none }) t none
  unfolding queue_remove
  queue_remove-single r = ground arith

  queue_remove-head :
      (y : ℕ) (ys : List ℕ)
      → IsQueue k (t ∷ y ∷ ys)
      → suc (length ys) < task_max
      → queue_remove t k ≡ unlinked k t t (last_of y ys)
  unfolding queue_remove
  queue_remove-head y ys r h = ground (arith, remove_walk-head task_max k t t (y ∷ ys) r.1 r.2.0)

  queue_remove-behind :
      (x : ℕ) (xs : List ℕ)
      → IsQueue k (x ∷ xs)
      → (t == x) ≡ false
      → has t xs ≡ true
      → length xs < task_max
      → queue_remove t k ≡ unlinked k t x (before t x xs)
  unfolding queue_remove
  queue_remove-behind x xs r ne i h = ground (arith, remove_walk-has task_max k t x x xs r.1)

  queue_remove-absent :
      (x : ℕ) (xs : List ℕ)
      → IsQueue k (x ∷ xs)
      → (t == x) ≡ false
      → has t xs ≡ false
      → queue_remove t k ≡ k
  unfolding queue_remove
  queue_remove-absent x xs r ne o = ground (arith, remove_walk-absent task_max k t x x xs r.1)

  remove_from_cons :
      (x : ℕ) (xs : List ℕ)
      → (t == x) ≡ true
      → IsQueue k (x ∷ xs)
      → length xs < task_max
      → Relinked k xs (queue_remove t k)
  remove_from_cons x xs e r h = let same : x ≡ t = ground arith in go xs (rw same at r) h
    where
      go :
          (ys : List ℕ)
          → IsQueue k (t ∷ ys)
          → length ys < task_max
          → Relinked k ys (queue_remove t k)
      go [] q l =
          rw (queue_remove-single q) (refl, record { task = λ i. ground arith; rest = refl })
      go (y ∷ ys) q l = rw (queue_remove-head y ys q l) (remove_head k t y ys q)

-- On a ring of at most `TASK_MAX` tasks `queue_remove` takes `t` out of the queue, keeps the order
-- of the others, and touches nothing but links.
pub queue_remove-erase :
    (t : ℕ) (k : Kernel) (q : List ℕ)
    → IsQueue k q
    → length q ≤ task_max
    → IsQueue (queue_remove t k) (erase t q) × OnlyLinks k (queue_remove t k)
unfolding queue_remove
queue_remove-erase t k [] r h =
    let e : queue_remove t k ≡ k = ground arith in
    subst (Relinked k []) (sym e) (r, OnlyLinks-refl k)
queue_remove-erase t k (x ∷ xs) r h = elim (Bool-cases (t == x)) [
  | inl e ↦ rw e (remove_from_cons t k x xs e r h)
  | inr e ↦ elim (Bool-cases (has t xs)) [
    | inl i ↦ rw (e, queue_remove-behind t k x xs r e i h) (remove_behind t k x xs r e i)
    | inr o ↦ rw (e, queue_remove-absent t k x xs r e o, erase_absent t xs o) (r, OnlyLinks-refl k)
  ]
]
