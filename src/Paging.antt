-- ===== src/Paging.antt =====
-- The address spaces of src/paging.c and src/paging.h. Memory is the heap of src/kmalloc.c, the
-- 64-bit words of the blocks that it hands out, by the address of the block and the index of the
-- word, and the bytes of the pages, by physical address. A pointer is an address, and null is 0.
-- The mask of bits 12 to 51 and the tests of single bits are divisions by powers of two.
pub mod Create
pub mod View
pub mod Change
pub mod Map
pub mod Range
pub mod Uaccess
mod Tests
use atmkoala.Base.{
  ℕ, zero, suc, ◌+◌, ◌*◌, ◌-◌, ◌/◌, ◌%◌, Bool, true, false, ◌==◌, ◌&&◌, ◌||◌, not, if◌then◌else◌,
  ltb, leb, update, Option, none, some,
}
use atmkoala.Heap.{Heap, kmalloc, kmalloc_aligned, kfree, u64_mod}

abbrev pub page_size : ℕ
page_size = 0x1000

abbrev pub user_base : ℕ
user_base = 0x4000_0000

abbrev pub user_window_size : ℕ
user_window_size = 0x800_0000

abbrev pub user_top : ℕ
user_top = user_base + user_window_size

abbrev pub user_pt_count : ℕ
user_pt_count = user_window_size / (512 * page_size)

abbrev pub pte_nx : ℕ
pte_nx = 0x8000_0000_0000_0000

-- `e & ATM_PAGE_MASK`
abbrev pub page_mask : ℕ → ℕ
page_mask e = e / page_size % 0x100_0000_0000 * page_size

-- `e & ATM_PTE_P` and the like, as 0 or 1
abbrev pub bit_p : ℕ → ℕ
bit_p e = e % 2

abbrev pub bit_w : ℕ → ℕ
bit_w e = e / 2 % 2

abbrev pub bit_u : ℕ → ℕ
bit_u e = e / 4 % 2

abbrev pub bit_nx : ℕ → ℕ
bit_nx e = e / pte_nx % 2

-- `user_space_t`
pub record Space : Type 0 where
  pub pml4 : ℕ
  pub pdpt : ℕ
  pub pd : ℕ → ℕ
  pub user_pt : ℕ
  pub cr3 : ℕ
  pub phys_base : ℕ
  pub mapped_pages : ℕ
  pub valid : Bool

-- The memory, the register `cr3` and the global `g_kernel_cr3`.
pub record Memory : Type 0 where
  pub heap : Heap
  pub words : ℕ → ℕ → ℕ
  pub bytes : ℕ → ℕ
  pub cpu_cr3 : ℕ
  pub kernel_cr3 : ℕ

-- `kmemset(s, 0, sizeof(*s))`
abbrev pub zero_space : Space
zero_space = record {
  pml4 = 0;
  pdpt = 0;
  pd = λ i. 0;
  user_pt = 0;
  cr3 = 0;
  phys_base = 0;
  mapped_pages = 0;
  valid = false;
}

-- `p[i] = v`
abbrev pub set_word : (p i v : ℕ) → Memory → Memory
set_word p i v m = record m { words = λ q. if q == p then update (m.words p) i v else m.words q }

-- All the words of a block.
abbrev pub set_block : (p : ℕ) → (ℕ → ℕ) → Memory → Memory
set_block p b m = record m { words = λ q. if q == p then b else m.words q }

abbrev pub free_block : ℕ → Memory → Memory
free_block p m = record m { heap = kfree p m.heap }

unfoldable pub page_alloc : Memory → ℕ × Memory
page_alloc m =
    let (p, h) = kmalloc_aligned page_size page_size m.heap in
    let m' : Memory = record m { heap = h } in
    if p == 0 then (p, m') else (p, set_block p (λ i. 0) m')

abbrev pub user_window : ℕ → Bool
user_window va = leb user_base va && ltb va user_top

abbrev pub user_pt_slot : ℕ → ℕ
user_pt_slot va = (va - user_base) / 0x20_0000

abbrev pub user_pt_page : ℕ → ℕ
user_pt_page va = va / page_size % 512

abbrev pub paging_init : Memory → Memory
paging_init m = record m { kernel_cr3 = page_mask m.cpu_cr3 }

unfoldable pub paging_activate_user_space : Memory → Space → Bool × Memory
paging_activate_user_space m s =
    if not s.valid || s.cr3 == 0 then (false, m) else (true, record m { cpu_cr3 = s.cr3 })

-- The page table of a slot, null when there is none yet.
abbrev pub table_of : Memory → Space → ℕ → ℕ
table_of m s slot = m.words s.user_pt slot

-- The entry that a table holds for a user page with these flags.
abbrev pub user_entry : (phys flags : ℕ) → ℕ
user_entry phys flags = page_mask phys + 1 + 4 + 2 * bit_w flags + pte_nx * bit_nx flags

-- A table's address with P, W and U.
abbrev pub dir_entry : ℕ → ℕ
dir_entry p = page_mask p + 7

-- The page table of the slot is there afterwards, or could not be allocated.
unfoldable pub obtain_table : ℕ → Memory → Space → Bool × Memory
obtain_table slot m s =
    if not (table_of m s slot == 0)
    then (true, m)
    else (let (p, m1) = page_alloc m in
        let m2 = set_word s.user_pt slot p m1 in
        if p == 0 then (false, m2) else (true, set_word (s.pd 1) slot (dir_entry p) m2))

-- The test that the calls on one page begin with.
abbrev pub bad_page : Space → ℕ → Bool
bad_page s va = not s.valid || not (user_window va) || not (va % page_size == 0)

unfoldable pub paging_map_user_page : (va phys flags : ℕ) → Memory → Space → Bool × Memory × Space
paging_map_user_page va phys flags m s =
    let slot = user_pt_slot va in
    let page = (va - user_base) / page_size in
    if bad_page s va || leb user_pt_count slot
    then (false, m, s)
    else (let (ok, m1) = obtain_table slot m s in
        if not ok then (false, m1, s) else (
          true,
          set_word (table_of m1 s slot) (user_pt_page va) (user_entry phys flags) m1,
          record s { mapped_pages = if leb s.mapped_pages page then page + 1 else s.mapped_pages },
        ))

unfoldable pub paging_unmap_user_page : ℕ → Memory → Space → Bool × Memory
paging_unmap_user_page va m s =
    let slot = user_pt_slot va in
    if bad_page s va || leb user_pt_count slot || table_of m s slot == 0
    then (false, m)
    else (true, set_word (table_of m s slot) (user_pt_page va) 0 m)

-- `!(e & ATM_PTE_P) || !(e & ATM_PTE_U)`
abbrev pub not_user : ℕ → Bool
not_user e = bit_p e == 0 || bit_u e == 0

unfoldable pub paging_release_user_page : ℕ → Memory → Space → Bool × Memory
paging_release_user_page va m s =
    let slot = user_pt_slot va in
    let old = m.words (table_of m s slot) (user_pt_page va) in
    if bad_page s va || leb user_pt_count slot || table_of m s slot == 0 || not_user old
    then (false, m)
    else (true, free_block (page_mask old) (set_word (table_of m s slot) (user_pt_page va) 0 m))

unfoldable pub paging_protect_user_page : (va flags : ℕ) → Memory → Space → Bool × Memory
paging_protect_user_page va flags m s =
    let slot = user_pt_slot va in
    let old = m.words (table_of m s slot) (user_pt_page va) in
    if bad_page s va || leb user_pt_count slot || table_of m s slot == 0 || not_user old
    then (false, m)
    else (true, set_word (table_of m s slot) (user_pt_page va) (user_entry old flags) m)

-- The present entries among the `n` from the index `i` on.
unfoldable pub count_entries : (n i : ℕ) → (ℕ → ℕ) → ℕ
count_entries zero i table = 0
count_entries (suc n) i table =
    let rest = count_entries n (i + 1) table in if bit_p (table i) == 0 then rest else suc rest

unfoldable pub count_tables : (n slot : ℕ) → Memory → Space → ℕ
count_tables zero slot m s = 0
count_tables (suc n) slot m s =
    let rest = count_tables n (slot + 1) m s in
    if table_of m s slot == 0
    then rest
    else count_entries 512 0 (m.words (table_of m s slot)) + rest

unfoldable pub paging_user_mapped_bytes : Memory → Space → ℕ
paging_user_mapped_bytes m s =
    if not s.valid then 0 else count_tables user_pt_count 0 m s * page_size

unfoldable pub free_entries : (n i : ℕ) → (ℕ → ℕ) → Memory → Memory
free_entries zero i table m = m
free_entries (suc n) i table m =
    free_entries n (i + 1) table
      (if bit_p (table i) == 0 then m else free_block (page_mask (table i)) m)

unfoldable pub free_tables : (n slot : ℕ) → Space → Memory → Memory
free_tables zero slot s m = m
free_tables (suc n) slot s m = free_tables n (slot + 1) s (
    if table_of m s slot == 0
    then m
    else free_block (table_of m s slot) (free_entries 512 0 (m.words (table_of m s slot)) m))

-- `if (p) kfree(p);`
abbrev pub free_some : ℕ → Memory → Memory
free_some p m = if p == 0 then m else free_block p m

unfoldable pub paging_destroy_user_space : Memory → Space → Memory × Space
paging_destroy_user_space m s =
    let m1 : Memory =
      if s.user_pt == 0 then m else free_block s.user_pt (free_tables user_pt_count 0 s m) in
    let m2 = free_some (s.pd 3) (free_some (s.pd 2) (free_some (s.pd 1) (free_some (s.pd 0) m1))) in
    (free_some s.pml4 (free_some s.pdpt m2), zero_space)

-- The physical address, and the entry of the page.
unfoldable pub paging_user_translate : Memory → Space → ℕ → Option (ℕ × ℕ)
paging_user_translate m s va =
    let slot = user_pt_slot va in
    let e = m.words (table_of m s slot) (user_pt_page va) in
    if not s.valid || not (user_window va)
    then none
    else if leb user_pt_count slot || table_of m s slot == 0
    then none
    else if not_user e
    then none
    else some (page_mask e + va % page_size, e)

-- One page of the loop of `paging_user_range`.
abbrev pub may_access : Memory → Space → Bool → ℕ → Bool
may_access m s write page = elim (paging_user_translate m s page) [
  | none ↦ false
  | some (p, f) ↦ not (write && bit_w f == 0)
]

-- The loop, for at most `n` pages.
unfoldable pub range_walk : (n : ℕ) → Memory → Space → Bool → (page last : ℕ) → Bool
range_walk zero m s write page last = false
range_walk (suc n) m s write page last =
    let rest = range_walk n m s write ((page + page_size) % u64_mod) last in
    if not (may_access m s write page) then false else if page == last then true else rest

unfoldable pub paging_user_range : Memory → Space → (va size : ℕ) → (write : Bool) → Bool
paging_user_range m s va size write =
    let end = (va + size - 1) % u64_mod in
    if size == 0 || not (user_window va) || ltb user_window_size size
    then false
    else if ltb end va || not (user_window end)
    then false
    else range_walk (user_window_size / page_size) m s write (page_mask va) (page_mask end)
