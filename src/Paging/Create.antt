-- ===== src/Paging/Create.antt =====
-- `paging_create_user_space` of src/paging.c.
use atmkoala.Base.{
  ℕ, zero, suc, ◌+◌, ◌*◌, Bool, true, false, ◌==◌, ◌||◌, not, if◌then◌else◌, update,
}
use atmkoala.Heap.{kmalloc}
use atmkoala.Paging.{
  user_pt_count, page_mask, bit_p, Space, Memory, zero_space, set_word, set_block, page_alloc,
  paging_init, dir_entry, paging_destroy_user_space,
}

-- A failure after the allocations began.
abbrev pub give_up : Memory → Space → Bool × Memory × Space
give_up m s = let (m', s') = paging_destroy_user_space m s in (false, m', s')

unfoldable pub alloc_dirs : (n i : ℕ) → Memory → Space → Bool × Memory × Space
alloc_dirs zero i m s = (true, m, s)
alloc_dirs (suc n) i m s =
    let (p, m1) = page_alloc m in
    let s1 : Space = record s { pd = update s.pd i p } in
    let rest = alloc_dirs n (i + 1) m1 s1 in if p == 0 then give_up m1 s1 else rest

-- The loop that copies the kernel's page directories; `kpdpt` is the kernel's table.
unfoldable pub copy_dirs : (n i kpdpt : ℕ) → Memory → Space → Bool × Memory × Space
copy_dirs zero i kpdpt m s = (true, m, s)
copy_dirs (suc n) i kpdpt m s =
    let e = m.words kpdpt i in
    let m1 = set_block (s.pd i) (m.words (page_mask e)) m in
    let m2 = set_word s.pdpt i (page_mask (s.pd i) + 1 + 2) m1 in
    let rest = copy_dirs n (i + 1) kpdpt m2 s in if bit_p e == 0 then give_up m s else rest

-- The three allocations, of which each may fail.
unfoldable pub alloc_roots : Memory → Memory × Space
alloc_roots m =
    let (a, m1) = page_alloc m in
    let (b, m2) = page_alloc m1 in
    let (c, h) = kmalloc (8 * user_pt_count) m2.heap in
    let m3 : Memory = record m2 { heap = h } in
    (
      (if c == 0 then m3 else set_block c (λ i. 0) m3),
      record zero_space { pml4 = a; pdpt = b; user_pt = c },
    )

unfoldable pub link_roots : Memory → Space → Bool × Memory × Space
link_roots m s = (
  true,
  set_word s.pdpt 1 (dir_entry (s.pd 1)) (set_word s.pml4 0 (dir_entry s.pdpt) m),
  record s { cr3 = s.pml4; valid = true },
)

unfoldable pub fill_dirs : (kpdpt : ℕ) → Memory → Space → Bool × Memory × Space
fill_dirs kpdpt m s =
    let m1 = set_block s.pml4 (m.words m.kernel_cr3) m in
    let m2 = set_block s.pdpt (m1.words kpdpt) m1 in
    let (ok, m3, s3) = copy_dirs 4 0 kpdpt m2 s in if ok then link_roots m3 s3 else (false, m3, s3)

unfoldable pub paging_create_user_space : Memory → Bool × Memory × Space
paging_create_user_space m =
    let m0 : Memory = if m.kernel_cr3 == 0 then paging_init m else m in
    let e0 = m0.words m0.kernel_cr3 0 in
    let (m1, s1) = alloc_roots m0 in
    let (ok, m2, s2) = alloc_dirs 4 0 m1 s1 in
    if bit_p e0 == 0 || page_mask e0 == 0
    then (false, m0, zero_space)
    else if s1.pml4 == 0 || s1.pdpt == 0 || s1.user_pt == 0
    then give_up m1 s1
    else if not ok
    then (false, m2, s2)
    else fill_dirs (page_mask e0) m2 s2
