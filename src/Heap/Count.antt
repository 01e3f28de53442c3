-- ===== src/Heap/Count.antt =====
-- The heap after `heap_init`, and the byte counts, of src/kmalloc.c.
use atmkoala.Base.{
  ℕ, zero, suc, ◌+◌, ◌-◌, ◌%◌, ◌≤◌, ◌<◌, ◌≡◌, refl, ap, sym, true, if◌then◌else◌, update, List, [],
  ◌∷◌, length, arith, some,
}
use mathlib.Core.Path.{subst}
use atmkoala.Heap.{
  Heap, heap_magic, header_size, u64_mod, u32_mod, align, heap_init, free_bytes_walk,
  heap_free_bytes, heap_used_bytes,
}
use atmkoala.Heap.Blocks.{Block, next_of, Tiles, IsHeap, IsHeapOf}

-- The bytes that are free in a list of blocks.
unfoldable pub free_sum : List Block → ℕ
free_sum [] = 0
free_sum (b ∷ bs) = let rest = free_sum bs in if b.free then b.size + rest else rest

walk_end : (k total : ℕ) (h : Heap) → 0 < k → free_bytes_walk k 0 total h ≡ some total
unfolding free_bytes_walk
walk_end zero total h lt = absurd (omega arith)
walk_end (suc k) total h lt = refl

free_bytes_walk_lem :
    (k a total : ℕ) (h : Heap) (b : Block) (bs : List Block)
    → Tiles h.headers a b bs
    → 0 < a
    → length (b ∷ bs) < k
    → total < u32_mod
    → free_bytes_walk k a total h ≡ some ((total + free_sum (b ∷ bs)) % u32_mod)
unfolding free_bytes_walk free_sum
free_bytes_walk_lem zero a total h b bs t pos lt small = absurd (omega arith)
free_bytes_walk_lem (suc k) a total h b [] t pos lt small = ground (
  arith,
  ap (λ x. x.free) t,
  ap (λ x. x.size) t,
  ap (λ x. x.next) t,
  walk_end k total h (omega arith),
  walk_end k ((total + b.size) % u32_mod) h (omega arith),
)
free_bytes_walk_lem (suc k) a total h b (c ∷ bs) t pos lt small = ground (
  arith,
  ap (λ x. x.free) t.0,
  ap (λ x. x.size) t.0,
  ap (λ x. x.next) t.0,
  free_bytes_walk_lem k (next_of a b) total h c bs t.2 (omega arith) (omega arith) small,
  free_bytes_walk_lem k (next_of a b) ((total + b.size) % u32_mod) h c bs t.2 (omega arith)
      (omega arith) (omega arith),
)

-- On a tiled heap, with more rounds than there are blocks, `heap_free_bytes` ends, and counts the bytes
-- of the free blocks in 32 bits; `heap_used_bytes` returns the rest of `heap_total`, in 32 bits.
pub heap_free_bytes_lem :
    (k : ℕ) (h : Heap) (b : Block) (bs : List Block)
    → IsHeap h b bs
    → length (b ∷ bs) < k
    → (heap_free_bytes k h ≡ some (free_sum (b ∷ bs) % u32_mod))
      × (heap_used_bytes k h
          ≡ some ((h.heap_total + u32_mod - free_sum (b ∷ bs) % u32_mod) % u32_mod))
unfolding heap_free_bytes heap_used_bytes
heap_free_bytes_lem k h b bs v lt =
    let e = free_bytes_walk_lem k h.heap_start 0 h b bs v.tiles v.start_pos lt (omega arith) in
    let z : 0 + free_sum (b ∷ bs) ≡ free_sum (b ∷ bs) = omega arith in
    (rw z at e, rw (heap_used_bytes, heap_free_bytes, rw z at e) refl)

heap_init-eq :
    (start_addr size : ℕ) (h : Heap)
    → header_size + 16 ≤ size
    → start_addr + size < u64_mod
    → size < u32_mod
    → heap_init start_addr size h ≡ (
        let aligned = align start_addr 16 in
        let usable = start_addr + size - aligned - header_size in
        record h {
          heap_start = aligned;
          headers =
              update h.headers aligned
                (record { magic = heap_magic; size = usable; free = true; next = 0 });
          heap_total = usable;
        })
unfolding heap_init
heap_init-eq start_addr size h le small big = ground arith

-- `heap_init` of a region of at least 48 bytes and less than 4 GB, from a start that is not 0 to an end
-- below 2 ^ 64, leaves a heap of one free block, whose header stands at the start rounded up to a
-- multiple of 16, and which reaches to the end of the region.
pub heap_init-IsHeap :
    (start_addr size : ℕ) (h : Heap)
    → 0 < start_addr
    → header_size + 16 ≤ size
    → start_addr + size < u64_mod
    → size < u32_mod
    → IsHeapOf
        (heap_init start_addr size h)
        (record { size = start_addr + size - align start_addr 16 - header_size; free = true } ∷ [])
heap_init-IsHeap start_addr size h pos le small big =
    subst
      (λ (k : Heap).
        IsHeapOf k (
          record { size = start_addr + size - align start_addr 16 - header_size; free = true }
          ∷ []))
      (sym (heap_init-eq start_addr size h le small big))
      (record {
        tiles = ground arith;
        start_pos = omega arith;
        start_aligned = omega arith;
        end_at = omega arith;
        small = omega arith;
      })
