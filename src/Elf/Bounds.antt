-- ===== src/Elf/Bounds.antt =====
-- The segments that the loader of src/elf.c accepts.
use atmkoala.Base.{
  ℕ, zero, suc, ◌+◌, ◌-◌, ◌*◌, ◌/◌, ◌%◌, ◌≤◌, ◌<◌, ◌≡◌, ◌≢◌, ◌⊎◌, refl, inl, inr, true, false, ◌==◌,
  ◌||◌, not, if◌then◌else◌, ltb, none, some, Bool-cases, Option-cases, arith,
}
use mathlib.Core.Path.{subst}
use atmkoala.Heap.{u64_mod}
use atmkoala.Paging.{page_size, page_mask, user_base, user_top, user_window_size, Space, Memory}
use atmkoala.Elf.{le, Ehdr, ehdr_of, Phdr, phdr_size, phdr_at, elf64_validate_native}
use atmkoala.Elf.Load.{
  user_stack_top, elf64_map_page, map_pages, invalid, headers_outside, malformed, outside_window,
  no_pages, refused, accepted, Segments, Progress, is_malformed, seg_end, is_outside, fill_segment,
  load_segment, load_segments, Image, Loaded, rejected, image, finish_load, elf64_load_user,
}

-- A header that is loaded: its bytes lie in the file, and its memory in the user window below the stack.
pub record InBounds (size : ℕ) (p : Phdr) : Type 0 where
  pub file_in_memory : p.p_filesz ≤ p.p_memsz
  pub in_file : p.p_offset + p.p_filesz ≤ size
  pub above_base : user_base ≤ p.p_vaddr
  pub below_stack : p.p_vaddr + p.p_memsz ≤ user_stack_top

-- A header that is passed over, or is in bounds.
abbrev pub IsSegment : (size : ℕ) → Phdr → Type 0
IsSegment size p = (p.p_type ≢ 1) ⊎ (p.p_memsz ≡ 0) ⊎ InBounds size p

-- The loop on pages ends when its fuel is more than the pages between the first and the last.
map_pages-ends :
    (fuel page last pf : ℕ) (m : Memory) (s : Space)
    → page % page_size ≡ 0
    → last % page_size ≡ 0
    → page ≤ last
    → last < user_top
    → last < page + fuel * page_size
    → map_pages fuel page last pf m s ≢ none
unfolding map_pages
map_pages-ends zero page last pf m s pa la le hi f h = absurd (omega arith)
map_pages-ends (suc fuel) page last pf m s pa la le hi f h =
    let r = elf64_map_page page pf m s in
    elim (Bool-cases r.0) [
      | inl ok ↦ elim (Bool-cases (page == last)) [
        | inl q ↦ absurd (ground (arith, h, ok, q))
        | inr q ↦
            let z : (page + page_size) % u64_mod ≡ page + page_size = omega arith in
            let h' : map_pages fuel ((page + page_size) % u64_mod) last pf r.1 r.2 ≡ none =
              ground (arith, h, ok, q) in
            map_pages-ends fuel (page + page_size) last pf r.1 r.2 (omega arith) la (ground arith)
              hi (omega arith) (rw z at h')
      ]
      | inr ko ↦ absurd (ground (arith, h, ko))
    ]

le8-bound : (off : ℕ) (buf : ℕ → ℕ) → le 8 off buf < u64_mod
unfolding le
le8-bound off buf = omega arith

-- The numbers of a header have 64 bits.
abbrev IsWide : Phdr → Type 0
IsWide p = (p.p_vaddr < u64_mod) × (p.p_memsz < u64_mod)

phdr_at-IsWide : (off : ℕ) (buf : ℕ → ℕ) → IsWide (phdr_at off buf)
unfolding phdr_at
phdr_at-IsWide off buf = (le8-bound (off + 16) buf, le8-bound (off + 40) buf)

tests-InBounds :
    (size : ℕ) (p : Phdr)
    → IsWide p
    → is_malformed size p ≡ false
    → is_outside p ≡ false
    → p.p_memsz ≢ 0
    → InBounds size p
tests-InBounds size p (w1, w2) mal out ne = record {
  file_in_memory = ground arith;
  in_file = ground arith;
  above_base = ground arith;
  below_stack = ground arith;
}

first_last :
    (size : ℕ) (p : Phdr)
    → InBounds size p
    → p.p_memsz ≢ 0
    → (page_mask p.p_vaddr ≤ page_mask (seg_end p - 1))
      × (page_mask (seg_end p - 1) < user_top)
      × (page_mask (seg_end p - 1) < page_mask p.p_vaddr + user_window_size / page_size * page_size)
first_last size p b ne =
    let lo = b.above_base in
    let hi = b.below_stack in
    let e : seg_end p ≡ p.p_vaddr + p.p_memsz = omega arith in
    rw e (omega arith, omega arith, omega arith)

skipped : {size : ℕ} {p : Phdr} → (not (p.p_type == 1) || p.p_memsz == 0) ≡ true → IsSegment size p
skipped {size} {p} h = elim (Bool-cases (p.p_memsz == 0)) [
  | inl z ↦ inr (inl (ground arith))
  | inr n ↦ inl (ground (arith, h))
]

-- One header: the loader returns, and it goes on only when the header is passed over or in bounds.
load_segment-IsSegment :
    (buf : ℕ → ℕ) (size : ℕ) (p : Phdr) (g : Progress) (m : Memory) (s : Space)
    → IsWide p
    → (r : Segments × Memory × Space) × (load_segment buf size p g m s ≡ some r)
      × ((g1 : Progress) → r.0 ≡ accepted g1 → IsSegment size p)
unfolding load_segment
load_segment-IsSegment buf size p g m s w =
    elim (Bool-cases (not (p.p_type == 1) || p.p_memsz == 0)) [
      | inl skip ↦ ((accepted g, m, s), rw skip refl, λ g1 e. skipped skip)
      | inr take ↦ elim (Bool-cases (is_malformed size p)) [
        | inl mal ↦ ((refused malformed, m, s), rw (take, mal) refl, λ g1 e. cc)
        | inr wf ↦ elim (Bool-cases (is_outside p)) [
          | inl out ↦ ((refused outside_window, m, s), rw (take, wf, out) refl, λ g1 e. cc)
          | inr inside ↦
              let b = tests-InBounds size p w wf inside (ground (arith, take)) in
              let pages =
                map_pages-ends (user_window_size / page_size) (page_mask p.p_vaddr)
                  (page_mask (seg_end p - 1)) p.p_flags m s (omega arith) (omega arith)
                  (first_last size p b (ground (arith, take))).0
                  (first_last size p b (ground (arith, take))).1
                  (first_last size p b (ground (arith, take))).2 in
              elim (Option-cases (
                map_pages (user_window_size / page_size) (page_mask p.p_vaddr)
                  (page_mask (seg_end p - 1)) p.p_flags m s)) [
                    | inl n ↦ absurd (pages n)
                    | inr ((ok, m1, s1), n) ↦ (
                      (if ok then fill_segment buf p g m1 s1 else (refused no_pages, m1, s1)),
                      rw (take, wf, inside, n) (ground arith),
                      λ g1 e. inr (inr b),
                    )
                  ]
        ]
      ]
    ]

-- The loop on the headers returns, and goes through only when each is passed over or in bounds.
abbrev ReturnsInBounds : (n i : ℕ) → (ℕ → ℕ) → (size phoff : ℕ) → Progress → Memory → Space → Type 0
ReturnsInBounds n i buf size phoff g m s =
    (r : Segments × Memory × Space) × (load_segments n i buf size phoff g m s ≡ some r)
    × ((g1 : Progress)
        → r.0 ≡ accepted g1
        → (j : ℕ) → i ≤ j
        → j < i + n
        → IsSegment size (phdr_at (phoff + j * phdr_size) buf))

load_segments-after :
    (n i : ℕ) (buf : ℕ → ℕ) (size phoff : ℕ) (g : Progress) (m : Memory) (s : Space) (o : Segments)
    (m1 : Memory) (s1 : Space)
    → load_segment buf size (phdr_at (phoff + i * phdr_size) buf) g m s ≡ some (o, m1, s1)
    → ((g1 : Progress) → o ≡ accepted g1 → IsSegment size (phdr_at (phoff + i * phdr_size) buf))
    → ((g1 : Progress) → ReturnsInBounds n (i + 1) buf size phoff g1 m1 s1)
    → ReturnsInBounds (suc n) i buf size phoff g m s
unfolding load_segments
load_segments-after n i buf size phoff g m s (refused e) m1 s1 run ok ih =
    ((refused e, m1, s1), rw (load_segments, run) refl, λ g1 q. cc)
load_segments-after n i buf size phoff g m s (accepted g') m1 s1 run ok ih =
    let (r, run', ok') = ih g' in
    (
      r,
      rw (load_segments, run) run',
      λ g1 q j lo hi. elim (Bool-cases (i == j)) [
        | inl same ↦
            let e : i ≡ j = ground arith in
            subst (λ k. IsSegment size (phdr_at (phoff + k * phdr_size) buf)) e (ok g' refl)
        | inr other ↦ ok' g1 q j (ground arith) (omega arith)
      ],
    )

load_segments-IsSegment :
    (n i : ℕ) (buf : ℕ → ℕ) (size phoff : ℕ) (g : Progress) (m : Memory) (s : Space)
    → ReturnsInBounds n i buf size phoff g m s
unfolding load_segments
load_segments-IsSegment zero i buf size phoff g m s =
    ((accepted g, m, s), refl, λ g1 e j lo hi. absurd (omega arith))
load_segments-IsSegment (suc n) i buf size phoff g m s =
    let p = phdr_at (phoff + i * phdr_size) buf in
    let ((o, m1, s1), run, ok) =
      load_segment-IsSegment buf size p g m s (phdr_at-IsWide (phoff + i * phdr_size) buf) in
    load_segments-after n i buf size phoff g m s o m1 s1 run ok
      (λ g1. load_segments-IsSegment n (i + 1) buf size phoff g1 m1 s1)

-- What a program that the loader accepts is known to have.
pub record IsLoaded (buf : ℕ → ℕ) (size : ℕ) (im : Image) : Type 0 where
  pub headers_in_file : (ehdr_of buf).e_phoff + (ehdr_of buf).e_phnum * phdr_size ≤ size
  pub segments :
      (j : ℕ)
      → j < (ehdr_of buf).e_phnum
      → IsSegment size (phdr_at ((ehdr_of buf).e_phoff + j * phdr_size) buf)
  pub entry_in : (user_base ≤ im.entry) × (im.entry < user_stack_top)

finish_load-entry :
    (h : Ehdr) (g : Progress) (m : Memory) (s : Space) (im : Image)
    → (finish_load h g m s).0 ≡ image im
    → (user_base ≤ im.entry) × (im.entry < user_stack_top)
unfolding finish_load
finish_load-entry h g m s im e = ground (arith, e)

-- `elf64_load_user` returns for every file and every size. When it accepts a program, all its program
-- headers lie in the file, every segment that is loaded has its bytes in the file and its memory
-- between the user base and the stack page, and the entry lies there too.
pub elf64_load_user_lem :
    (buf : ℕ → ℕ) (size : ℕ) (m : Memory) (s : Space)
    → (r : Loaded × Memory × Space) × (elf64_load_user buf size m s ≡ some r)
      × ((im : Image) → r.0 ≡ image im → IsLoaded buf size im)
unfolding elf64_load_user
elf64_load_user_lem buf size m s =
    elim (Bool-cases (not s.valid || not (elf64_validate_native buf size))) [
      | inl bad ↦ ((rejected invalid, m, s), rw bad refl, λ im e. cc)
      | inr good ↦
          elim (Bool-cases (
            ltb size (ehdr_of buf).e_phoff
            || ltb (size - (ehdr_of buf).e_phoff) ((ehdr_of buf).e_phnum * phdr_size))) [
              | inl out ↦ ((rejected headers_outside, m, s), rw (good, out) refl, λ im e. cc)
              | inr fit ↦ with_segments good fit
            ]
    ]
  where
    h : Ehdr
    h = ehdr_of buf

    first : Progress
    first = record { base = u64_mod - 1; end = 0; loads = 0 }

    with_segments :
        (not s.valid || not (elf64_validate_native buf size)) ≡ false
        → (ltb size h.e_phoff || ltb (size - h.e_phoff) (h.e_phnum * phdr_size)) ≡ false
        → (r : Loaded × Memory × Space) × (elf64_load_user buf size m s ≡ some r)
          × ((im : Image) → r.0 ≡ image im → IsLoaded buf size im)
    with_segments good fit =
        let ((o, m1, s1), run, ok) =
          load_segments-IsSegment h.e_phnum 0 buf size h.e_phoff first m s in
        after o m1 s1 run ok
      where
        after :
            (o : Segments) (m1 : Memory) (s1 : Space)
            → load_segments h.e_phnum 0 buf size h.e_phoff first m s ≡ some (o, m1, s1)
            → ((g1 : Progress)
                → o ≡ accepted g1
                → (j : ℕ) → 0 ≤ j
                → j < 0 + h.e_phnum
                → IsSegment size (phdr_at (h.e_phoff + j * phdr_size) buf))
            → (r : Loaded × Memory × Space) × (elf64_load_user buf size m s ≡ some r)
              × ((im : Image) → r.0 ≡ image im → IsLoaded buf size im)
        after (refused e) m1 s1 run ok =
            ((rejected e, m1, s1), rw (elf64_load_user, good, fit, run) refl, λ im q. cc)
        after (accepted g) m1 s1 run ok = (
          finish_load h g m1 s1,
          rw (elf64_load_user, good, fit, run) refl,
          λ im q. record {
            headers_in_file = ground (arith, fit);
            segments = λ j hi. ok g refl j (omega arith) (omega arith);
            entry_in = finish_load-entry h g m1 s1 im q;
          },
        )
