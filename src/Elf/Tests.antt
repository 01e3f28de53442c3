-- ===== src/Elf/Tests.antt =====
-- A file for the theorem on src/elf.c.
use atmkoala.Base.{ℕ, ◌≡◌, refl, some, true, false, Bool, Option, ◌==◌, if◌then◌else◌}
use atmkoala.Paging.{
  Space, Memory, zero_space, paging_map_user_page, paging_user_translate, obtain_table, page_alloc,
}
use atmkoala.Paging.Uaccess.{store}
use atmkoala.Elf.{elf64_validate_native, ehdr_of, le, phdr_at}
use atmkoala.Heap.{kmalloc_aligned, kmalloc, kmalloc_walk, heap_header_valid, take_block}
use atmkoala.Heap.Blocks.{header}
use atmkoala.Elf.Load.{
  Image, Loaded, image, elf64_load_user, load_segments, load_segment, fill_segment, write_mapped,
  map_pages, elf64_map_page, finish_load,
}
use atmkoala.Elf.Bounds.{IsLoaded, elf64_load_user_lem}

-- The first bytes of a file, with one program header behind the file header.
abbrev test_file : ℕ → ℕ
test_file i =
    if i == 0
    then 0x7F
    else if i == 1
    then b'E'
    else if i == 2
    then b'L'
    else if i == 3
    then b'F'
    else if i == 4
    then 2
    else if i == 5
    then 1
    else if i == 6
    then 1
    else if i == 16
    then 2
    else if i == 18
    then 62
    else if i == 27
    then 0x40
    else if i == 32
    then 64
    else if i == 52
    then 64
    else if i == 54
    then 56
    else if i == 56
    then 1
    else if i == 64
    then 1
    else if i == 83
    then 0x40
    else if i == 104
    then 4
    else 0

abbrev test_memory : Memory
test_memory = record {
  heap = record {
    headers = λ a. header (record { size = 0x1_0000; free = true }) 0;
    words = λ a. 0;
    heap_start = 0x10_0000;
    heap_total = 0x1_0000;
  };
  words = λ p i. 0;
  bytes = λ a. 0;
  cpu_cr3 = 0;
  kernel_cr3 = 0;
}

abbrev test_space : Space
test_space = record zero_space { valid = true }

abbrev is_image : Option (Loaded × Memory × Space) → Bool
is_image (some (image im, m, s)) = true
is_image _ = false

elf64_load_user_lem_example :
    (r : Loaded × Memory × Space) × (elf64_load_user test_file 120 test_memory test_space ≡ some r)
    × ((im : Image) → r.0 ≡ image im → IsLoaded test_file 120 im)
elf64_load_user_lem_example = elf64_load_user_lem test_file 120 test_memory test_space

-- The program is accepted: it has one segment, at the user base.
test_file-accepted : is_image (elf64_load_user test_file 120 test_memory test_space) ≡ true
unfolding elf64_load_user elf64_validate_native ehdr_of le phdr_at load_segments load_segment
    fill_segment write_mapped map_pages elf64_map_page finish_load store paging_map_user_page
    paging_user_translate obtain_table page_alloc kmalloc_aligned kmalloc kmalloc_walk
    heap_header_valid take_block
test_file-accepted = refl
