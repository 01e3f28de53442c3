-- ===== src/Paging/Tests.antt =====
-- An address space for the theorems on src/paging.c and src/uaccess.c.
use atmkoala.Base.{
  ℕ, ◌+◌, ◌/◌, ◌%◌, ◌<◌, ◌≡◌, ◌↔◌, refl, true, false, ◌==◌, ◌&&◌, ◌||◌, not, if◌then◌else◌, List,
  [], ◌∷◌, some, length, arith,
}
use atmkoala.Heap.{Heap, kmalloc_aligned, kmalloc, kmalloc_walk, heap_header_valid, take_block}
use atmkoala.Heap.Blocks.{Block, header}
use atmkoala.Paging.{
  page_size, user_base, page_mask, Space, Memory, zero_space, user_pt_slot, table_of, user_entry,
  dir_entry, page_alloc, bad_page, paging_map_user_page, paging_user_range, paging_user_translate,
  range_walk,
}
use atmkoala.Paging.View.{IsSpace, IsFresh}
use atmkoala.Paging.Change.{Leaves}
use atmkoala.Paging.Map.{paging_map_user_page_lem}
use atmkoala.Paging.Range.{IsRange, paging_user_range_lem}
use atmkoala.Paging.Uaccess.{
  copy_to_user, copy_from_user, copy_string_from_user, to_user_loop, from_user_loop, store, load,
  strnlen_user, strnlen_loop,
}
use atmkoala.Paging.Uaccess.Copy.{
  user_load, user_store, NoAlias, copy_to_user_lem, copy_from_user-copy_to_user,
}
use atmkoala.Paging.Uaccess.Text.{IsText, copy_string_from_user_lem}

abbrev test_block : Block
test_block = record { size = 0x1_0000; free = true }

abbrev test_heap : Heap
test_heap = record {
  headers = λ a. header test_block 0;
  words = λ a. 0;
  heap_start = 0x10_0000;
  heap_total = 0x1_0000;
}

-- Two pages are mapped, and the first byte of each is 65. The index is at 0x5000, the page directory at
-- 0x7000, and the table of the first slot at 0x6000.
abbrev test_memory : Memory
test_memory = record {
  heap = test_heap;
  words = λ p i.
      if p == 0x5000
      then (if i == 0 then 0x6000 else 0)
      else if p == 0x6000
      then (if i == 0 then user_entry 0x8000 2 else if i == 1 then user_entry 0xA000 2 else 0)
      else if p == 0x7000 && i == 0
      then dir_entry 0x6000
      else 0;
  bytes = λ a. if a == 0x8000 then 65 else if a == 0xA000 then 65 else 0;
  cpu_cr3 = 0;
  kernel_cr3 = 0;
}

abbrev two_bytes : List ℕ
two_bytes = 7 ∷ 8 ∷ []

abbrev test_space : Space
test_space = record zero_space { pd = λ i. 0x7000; user_pt = 0x5000; valid = true }

test_space-IsSpace : IsSpace test_memory test_space
test_space-IsSpace = record {
  valid = refl;
  dir_apart = omega arith;
  tables_apart = λ i j a b ne t. ground arith;
  index_apart = λ i a t. ground arith;
  tables_dir = λ i a t. ground arith;
  linked = λ i a t. ground arith;
}

test_page_alloc : (page_alloc test_memory).0 ≡ 0x10_1000
unfolding page_alloc kmalloc_aligned kmalloc kmalloc_walk heap_header_valid take_block
test_page_alloc = refl

test_page-IsFresh : IsFresh (page_alloc test_memory).0 test_memory test_space
test_page-IsFresh =
    rw test_page_alloc
      (record { not_index = omega arith; not_dir = omega arith; not_table = λ i a t. ground arith })

paging_map_user_page_lem_example :
    let r = paging_map_user_page (user_base + 0x20_0000) 0xC000 0 test_memory test_space in
    (Leaves r.1 r.2 λ x.
      if r.0 && x / page_size == (user_base + 0x20_0000) / page_size
      then some (page_mask 0xC000 + x % page_size, user_entry 0xC000 0)
      else paging_user_translate test_memory test_space x)
    × (r.0 ≡ (
        if bad_page test_space (user_base + 0x20_0000)
        then false
        else not (
            table_of test_memory test_space (user_pt_slot (user_base + 0x20_0000)) == 0
            && (page_alloc test_memory).0 == 0)))
paging_map_user_page_lem_example =
    paging_map_user_page_lem (user_base + 0x20_0000) 0xC000 0 test_memory test_space
      test_space-IsSpace test_page-IsFresh

paging_user_range_lem_example :
    paging_user_range test_memory test_space (user_base + 4090) 10 true ≡ true
    ↔ IsRange test_memory test_space (user_base + 4090) 10 true
paging_user_range_lem_example =
    paging_user_range_lem test_memory test_space (user_base + 4090) 10 true

copy_to_user_lem_example : copy_to_user (user_base + 4095) two_bytes test_space test_memory ≡ (
    if length two_bytes == 0
      || paging_user_range test_memory test_space (user_base + 4095) (length two_bytes) true
    then (
      true,
      record test_memory {
        bytes = user_store test_memory test_space (user_base + 4095) two_bytes test_memory.bytes;
      },
    )
    else (false, test_memory))
copy_to_user_lem_example = copy_to_user_lem (user_base + 4095) two_bytes test_space test_memory

-- The two bytes lie on two pages.
test_range-NoAlias : NoAlias test_memory test_space (user_base + 4095) 2
unfolding paging_user_translate
test_range-NoAlias x y a b c =
    let ex : x ≡ user_base + 4095 = omega arith in
    let ey : y ≡ user_base + 4096 = omega arith in rw (ex, ey) (omega arith)

copy_from_user-copy_to_user_example :
    copy_from_user
      (user_base + 4095)
      2
      test_space
      (copy_to_user (user_base + 4095) two_bytes test_space test_memory).1
    ≡ (true, two_bytes)
unfolding copy_to_user to_user_loop store paging_user_range range_walk paging_user_translate
copy_from_user-copy_to_user_example =
    copy_from_user-copy_to_user (user_base + 4095) two_bytes test_space test_memory
      test_range-NoAlias refl

copy_string_from_user_lem_example :
    (n : ℕ) × (n + 1 < 16)
    × IsText test_memory test_space user_base n
    × (65 ∷ 0 ∷ [] ≡ user_load test_memory test_space user_base (n + 1))
unfolding copy_string_from_user strnlen_user strnlen_loop copy_from_user from_user_loop load
    paging_user_range range_walk paging_user_translate
copy_string_from_user_lem_example =
    copy_string_from_user_lem 16 user_base test_space test_memory (omega arith) refl
