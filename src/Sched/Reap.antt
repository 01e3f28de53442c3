-- ===== src/Sched/Reap.antt =====
-- `task_waitpid` of src/sched.c: the pass over the children, and reaping.
use atmkoala.Base.{
  ℕ, zero, suc, ◌+◌, ◌/◌, ◌%◌, ◌≤◌, ◌<◌, ◌≡◌, ◌≢◌, refl, Bool, true, false, ◌==◌, inl, inr,
  Bool-cases, points_to, arith,
}
use mathlib.Core.Path.{subst}
use atmkoala.Kernel.{Task, zero_task, is_zombie, Kernel}
use atmkoala.Sched.Pool.{release_zombie_slot, sleep_cancel_task}
use atmkoala.Sched.Exit.{WaitFor, task_is_direct_child, task_wait_status}
use atmkoala.Sched.Wait.{Scan, scan_children}

-- `j` is a slot that the pass covers and holds a child that it waits for.
abbrev pub Candidate : Kernel → ℕ → WaitFor → ℕ → ℕ → ℕ → Type 0
Candidate k parent w lo hi j = (lo ≤ j) × (j < hi) × (task_is_direct_child k parent j w ≡ true)

-- What each outcome of a pass from `lo` to `hi` says of the table.
abbrev pub ScanMeans : Kernel → ℕ → WaitFor → ℕ → ℕ → Bool → Scan → Type 0
ScanMeans k parent w lo hi have (Scan.zombie_at i) =
    Candidate k parent w lo hi i
    × (is_zombie (k.tasks i).state ≡ true)
    × ((j : ℕ) → j < i → Candidate k parent w lo hi j → is_zombie (k.tasks j).state ≡ false)
ScanMeans k parent w lo hi have Scan.alive =
    ((have ≡ false) → (j : ℕ) × Candidate k parent w lo hi j)
    × ((j : ℕ) → Candidate k parent w lo hi j → is_zombie (k.tasks j).state ≡ false)
ScanMeans k parent w lo hi have Scan.childless =
    (have ≡ false) × ((j : ℕ) → Candidate k parent w lo hi j → false ≡ true)

-- The outcomes of the places behind `lo`, with the place `lo` put before them.
module _ (k : Kernel) (parent : ℕ) (w : WaitFor) (lo hi : ℕ) where
  -- A claim about every candidate, from those behind `lo` and from `lo` itself.
  from_lo :
      (P : ℕ → Type 0)
      → ((j : ℕ) → Candidate k parent w (lo + 1) hi j → P j)
      → (task_is_direct_child k parent lo w ≡ true → P lo)
      → (j : ℕ) → Candidate k parent w lo hi j
      → P j
  from_lo P behind here j (a, b, c) = elim (Bool-cases (j == lo)) [
    | inl e ↦ let same : lo ≡ j = ground arith in subst P same (here (ground arith))
    | inr e ↦ behind j (ground arith, b, c)
  ]

  skip_other :
      (have : Bool) (s : Scan)
      → task_is_direct_child k parent lo w ≡ false
      → ScanMeans k parent w (lo + 1) hi have s
      → ScanMeans k parent w lo hi have s
  skip_other have (Scan.zombie_at i) no_child (c, z, first) = (
    (omega arith, c.1, c.2),
    z,
    λ j below c'.
        from_lo (λ j. j < i → is_zombie (k.tasks j).state ≡ false) (λ j c h. first j h c)
          (λ e _. cc) j c' below,
  )
  skip_other have Scan.alive no_child m = (
    λ e. let (j, c) = m.0 e in (j, (omega arith, c.1, c.2)),
    from_lo (λ j. is_zombie (k.tasks j).state ≡ false) m.1 (λ e. cc),
  )
  skip_other have Scan.childless no_child m = (m.0, from_lo (λ j. false ≡ true) m.1 (λ e. cc))

  skip_alive :
      (have : Bool) (s : Scan)
      → lo < hi
      → task_is_direct_child k parent lo w ≡ true
      → is_zombie (k.tasks lo).state ≡ false
      → ScanMeans k parent w (lo + 1) hi true s
      → ScanMeans k parent w lo hi have s
  skip_alive have (Scan.zombie_at i) h is_child z (c, z', first) = (
    (omega arith, c.1, c.2),
    z',
    λ j below c'.
        from_lo (λ j. j < i → is_zombie (k.tasks j).state ≡ false) (λ j c h. first j h c) (λ _ _. z)
          j c' below,
  )
  skip_alive have Scan.alive h is_child z m = (
    λ _. (lo, (omega arith, h, is_child)),
    from_lo (λ j. is_zombie (k.tasks j).state ≡ false) m.1 (λ _. z),
  )
  skip_alive have Scan.childless h is_child z m = cc

-- A pass over the children finds the first zombie that is waited for; or else says whether any
-- child is left.
pub scan_children_lem :
    (n lo : ℕ) (k : Kernel) (parent : ℕ) (w : WaitFor) (have : Bool)
    → ScanMeans k parent w lo (lo + n) have (scan_children n lo k parent w have)
unfolding scan_children
scan_children_lem zero lo k parent w true = (λ e. cc, λ j c. absurd (omega arith))
scan_children_lem zero lo k parent w false = (refl, λ j c. absurd (omega arith))
scan_children_lem (suc n) lo k parent w have =
    let same : lo + 1 + n ≡ lo + suc n = omega arith in
    elim (Bool-cases (task_is_direct_child k parent lo w)) [
      | inl c ↦ elim (Bool-cases (is_zombie (k.tasks lo).state)) [
        | inl z ↦
            rw (c, scan_children)
              (rw z ((omega arith, omega arith, c), z, λ j h c'. absurd (omega (arith, c'.0))))
        | inr z ↦
            let m = scan_children_lem n (lo + 1) k parent w true in
            rw (c, scan_children)
              (rw z (
                skip_alive k parent w lo (lo + suc n) have
                  (scan_children n (lo + 1) k parent w true) (omega arith) c z (rw same at m)))
      ]
      | inr c ↦
          let m = scan_children_lem n (lo + 1) k parent w have in
          rw (c, scan_children)
            (skip_other k parent w lo (lo + suc n) have (scan_children n (lo + 1) k parent w have) c
              (rw same at m))
    ]

-- Reaping clears the slot of a zombie other than the current task, and no other slot.
pub release_zombie_slot_lem :
    (i : ℕ) (k : Kernel)
    → is_zombie (k.tasks i).state ≡ true
    → points_to k.current i ≡ false
    → ((release_zombie_slot i k).tasks i ≡ zero_task)
      × ((j : ℕ) → j ≢ i → (release_zombie_slot i k).tasks j ≡ k.tasks j)
unfolding release_zombie_slot sleep_cancel_task
release_zombie_slot_lem i k z c = (ground arith, λ j ne. ground arith)

-- The status of a normal exit holds the low byte of the exit code above seven bits that are 0; the
-- status of a signal is its number, below 128 and not 0.
pub task_wait_status_lem :
    (t : Task)
    → (t.exit_signal ≡ 0
        → (task_wait_status t % 0x80 ≡ 0)
          × ((task_wait_status t / 0x100) % 0x100 ≡ t.exit_code % 0x100))
      × (t.exit_signal % 0x80 ≢ 0 → task_wait_status t % 0x80 ≡ t.exit_signal % 0x80)
unfolding task_wait_status
task_wait_status_lem t = (λ e. (ground arith, ground arith), λ e. ground arith)
