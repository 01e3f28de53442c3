-- ===== src/Heap/Tests.antt =====
-- A heap of two blocks, the first in use, for the theorems on src/kmalloc.c.
use atmkoala.Base.{
  ◌+◌, ◌-◌, ◌%◌, ◌≡◌, refl, true, false, ◌==◌, if◌then◌else◌, [], ◌∷◌, inl, some, arith,
}
use atmkoala.Heap.{
  Heap, kmalloc, kfree, align, heap_free_bytes, heap_used_bytes, header_size, u32_mod,
}
use atmkoala.Heap.Blocks.{Block, header, IsHeap, IsHeapOf, first_fit, merge_all, mark_free}
use atmkoala.Heap.Alloc.{Allocates, kmalloc_refines}
use atmkoala.Heap.Free.{kfree_refines}
use atmkoala.Heap.Count.{free_sum, heap_free_bytes_lem}

abbrev used_block : Block
used_block = record { size = 64; free = false }

abbrev free_block : Block
free_block = record { size = 800; free = true }

abbrev test_heap : Heap
test_heap = record {
  headers = λ a. if a == 4096 then header used_block 4192 else header free_block 0;
  words = λ a. 0;
  heap_start = 4096;
  heap_total = 896;
}

test_heap-IsHeap : IsHeap test_heap used_block (free_block ∷ [])
test_heap-IsHeap = record {
  tiles = (refl, refl, refl);
  start_pos = omega arith;
  start_aligned = refl;
  end_at = refl;
  small = omega arith;
}

kmalloc_refines_example :
    Allocates test_heap
      (kmalloc 100 test_heap)
      (first_fit (align 100 8) 4096 (used_block ∷ free_block ∷ []))
kmalloc_refines_example =
    kmalloc_refines 100 test_heap used_block (free_block ∷ []) test_heap-IsHeap (omega arith)
      (omega arith) (omega arith)

kfree_refines_example :
    IsHeapOf
      (kfree (4096 + header_size) test_heap)
      (merge_all (mark_free 4096 4096 (used_block ∷ free_block ∷ [])))
kfree_refines_example =
    kfree_refines 4096 test_heap used_block (free_block ∷ []) test_heap-IsHeap (omega arith)
      (inl (refl, refl, omega arith))

heap_free_bytes_lem_example :
    (heap_free_bytes 3 test_heap ≡ some (free_sum (used_block ∷ free_block ∷ []) % u32_mod))
    × (heap_used_bytes 3 test_heap
        ≡ some ((896 + u32_mod - free_sum (used_block ∷ free_block ∷ []) % u32_mod) % u32_mod))
heap_free_bytes_lem_example =
    heap_free_bytes_lem 3 test_heap used_block (free_block ∷ []) test_heap-IsHeap (omega arith)

-- A heap of one free block.
abbrev open_heap : Heap
open_heap = record {
  headers = λ a. header free_block 0;
  words = λ a. 0;
  heap_start = 4096;
  heap_total = 800;
}

open_heap-IsHeap : IsHeap open_heap free_block []
open_heap-IsHeap = record {
  tiles = refl;
  start_pos = omega arith;
  start_aligned = refl;
  end_at = refl;
  small = omega arith;
}
