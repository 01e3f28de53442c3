-- ===== src/Paging/Range.antt =====
-- The range test of src/paging.c, and the addresses that it admits.
use atmkoala.Base.{
  ℕ, zero, suc, ◌+◌, ◌-◌, ◌*◌, ◌/◌, ◌%◌, ◌≤◌, ◌<◌, ◌≡◌, ◌↔◌, inl, inr, refl, Bool, true, ◌==◌, leb,
  Bool-cases, arith,
}
use atmkoala.Heap.{u64_mod}
use atmkoala.Paging.{
  page_size, user_base, user_top, user_window_size, page_mask, Space, Memory, user_window,
  user_pt_slot, user_pt_page, may_access, range_walk, paging_user_range, paging_user_translate,
}

abbrev pages : ℕ
pages = user_window_size / page_size

-- Every address from `lo` to below `hi` may be accessed.
abbrev pub AllAccess : Memory → Space → Bool → (lo hi : ℕ) → Type 0
AllAccess m s write lo hi = (x : ℕ) → lo ≤ x → x < hi → may_access m s write x ≡ true

-- All addresses of a page are alike.
may_access-page :
    (m : Memory) (s : Space) (write : Bool) (x y : ℕ)
    → x / page_size ≡ y / page_size
    → may_access m s write x ≡ true
    → may_access m s write y ≡ true
unfolding paging_user_translate
may_access-page m s write x y e h =
    let win : user_window x ≡ user_window y = ground arith in
    let slot : user_pt_slot x ≡ user_pt_slot y = ground (arith, win) in
    let index : user_pt_page x ≡ user_pt_page y = ground arith in ground (arith, win, slot, index)

no_wrap : (page : ℕ) → page < user_top → (page + page_size) % u64_mod ≡ page + page_size
no_wrap page h = omega arith

module _ (m : Memory) (s : Space) (write : Bool) where
  range_walk→ :
      (n page last : ℕ)
      → page % page_size ≡ 0
      → last % page_size ≡ 0
      → last < user_top
      → page ≤ last
      → range_walk n m s write page last ≡ true
      → AllAccess m s write page (last + page_size)
  unfolding range_walk
  range_walk→ zero page last pa la hi le h x a b = absurd (ground arith)
  range_walk→ (suc n) page last pa la hi le h x a b =
      elim (Bool-cases (may_access m s write page)) [
        | inl ok ↦ elim (Bool-cases (leb (page + page_size) x)) [
          | inl far ↦
              let h' : range_walk n m s write ((page + page_size) % u64_mod) last ≡ true =
                ground arith in
              range_walk→ n (page + page_size) last (omega arith) la hi (ground arith)
                (rw (no_wrap page (omega arith)) at h') x (ground arith) b
          | inr near ↦ may_access-page m s write page x (ground arith) ok
        ]
        | inr ko ↦ absurd (ground arith)
      ]

  range_walk← :
      (n page last : ℕ)
      → page % page_size ≡ 0
      → last % page_size ≡ 0
      → last < user_top
      → page ≤ last
      → last < page + n * page_size
      → AllAccess m s write page (last + 1)
      → range_walk n m s write page last ≡ true
  unfolding range_walk
  range_walk← zero page last pa la hi le fuel h = absurd (omega arith)
  range_walk← (suc n) page last pa la hi le fuel h =
      rw (h page (omega arith) (omega arith)) (elim (Bool-cases (page == last)) [
        | inl q ↦ rw q refl
        | inr q ↦ rw q (
            rw (no_wrap page (omega arith)) (
              range_walk← n (page + page_size) last (omega arith) la hi (ground arith) (omega arith)
                (λ x a b. h x (omega arith) b)))
      ])

-- What it takes for a range to pass.
pub record IsRange (m : Memory) (s : Space) (va size : ℕ) (write : Bool) : Type 0 where
  pub some_bytes : 0 < size
  pub low : user_base ≤ va
  pub high : va + size ≤ user_top
  pub access : AllAccess m s write va (va + size)

-- `paging_user_range` accepts a range exactly when it is not empty, lies in the user window, and each of
-- its addresses translates, with the W flag where the access writes.
pub paging_user_range_lem :
    (m : Memory) (s : Space) (va size : ℕ) (write : Bool)
    → paging_user_range m s va size write ≡ true ↔ IsRange m s va size write
unfolding paging_user_range
paging_user_range_lem m s va size write = (
  (λ h.
      let g : (0 < size)
          × (user_base ≤ va)
          × (va + size ≤ user_top)
          × (range_walk pages m s write (page_mask va) (page_mask ((va + size - 1) % u64_mod))
              ≡ true) =
        ground arith in
      let e : (va + size - 1) % u64_mod ≡ va + size - 1 = omega (arith, g.2) in
      let walk = rw e at g.3 in
      let all =
        range_walk→ m s write pages (page_mask va) (page_mask (va + size - 1)) (omega arith)
          (omega arith) (omega (arith, g.2)) (omega arith) walk in
      record {
        some_bytes = g.0;
        low = g.1;
        high = g.2;
        access = λ x a b. all x (omega arith) (omega (arith, g.2));
      }),
  (λ r.
      let p = r.some_bytes in
      let lo = r.low in
      let hi = r.high in
      let e : (va + size - 1) % u64_mod ≡ va + size - 1 = omega arith in
      let walk : range_walk pages m s write (page_mask va) (page_mask (va + size - 1)) ≡ true =
        range_walk← m s write pages (page_mask va) (page_mask (va + size - 1)) (omega arith)
          (omega arith) (omega arith) (omega arith) (omega arith)
          (λ x a b. elim (Bool-cases (leb va x)) [
            | inl up ↦ r.access x (ground arith) (omega arith)
            | inr down ↦
                may_access-page m s write va x (ground arith)
                  (r.access va (omega arith) (omega arith))
          ]) in
      ground (arith, walk, e)),
)
