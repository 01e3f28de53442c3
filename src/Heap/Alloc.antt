-- ===== src/Heap/Alloc.antt =====
-- `kmalloc` of src/kmalloc.c and first fit.
use atmkoala.Base.{
  ℕ, zero, suc, ◌+◌, ◌-◌, ◌%◌, ◌≤◌, ◌<◌, ◌≡◌, refl, ap, ◌∙◌, true, Option, none, some, inl, inr,
  Option-cases, List, [], ◌∷◌, length, arith,
}
use atmkoala.Heap.{
  Heap, heap_walk_max, header_size, min_split, u64_mod, align, is_sound, take_block, kmalloc_walk,
  kmalloc,
}
use atmkoala.Heap.Fit.{first_fit-Fits, first_fit-end_of}
use atmkoala.Heap.Take.{fit-Tiles}
use atmkoala.Heap.Blocks.{
  Block, next_of, end_of, Tiles, IsHeap, IsHeapOf, end_of-le, first_fit, is_sound-block,
}

walk_null : (n k : ℕ) (h : Heap) → kmalloc_walk k n 0 h ≡ (0, h)
unfolding kmalloc_walk
walk_null n zero h = refl
walk_null n (suc k) h = refl

module _ (n : ℕ) (h : Heap) (b0 : Block) (bs0 : List Block) (v : IsHeap h b0 bs0)
    (n_al : n % 8 ≡ 0) where
  -- The header of the block at `a` passes the walk's test.
  sound_at :
      (a : ℕ) (b : Block) (bs : List Block)
      → Tiles h.headers a b bs
      → h.heap_start ≤ a
      → a % 8 ≡ 0
      → end_of a (b ∷ bs) ≡ h.heap_start + h.heap_total + header_size
      → is_sound h a ≡ true
  sound_at a b [] t lo al e =
      is_sound-block h b0 bs0 a b v lo al (omega arith) (ap (λ x. x.magic) t)
  sound_at a b (c ∷ bs) t lo al e =
      is_sound-block h b0 bs0 a b v lo al (omega (arith, end_of-le (next_of a b) (c ∷ bs)))
        (ap (λ x. x.magic) t.0)

  -- The walk comes to the block of first fit, and takes it; or it comes to the end.
  walk_lem :
      (k a : ℕ) (b : Block) (bs : List Block)
      → Tiles h.headers a b bs
      → h.heap_start ≤ a
      → a % 8 ≡ 0
      → end_of a (b ∷ bs) ≡ h.heap_start + h.heap_total + header_size
      → length bs < k
      → kmalloc_walk k n a h ≡ (elim (first_fit n a (b ∷ bs)) [
        | none ↦ (0, h)
        | some (p, cs) ↦ (p + header_size, take_block n p h)
      ])
  unfolding kmalloc_walk first_fit
  walk_lem zero a b bs t lo al e fuel = absurd (omega arith)
  walk_lem (suc k) a b [] t lo al e fuel = ground (
    arith,
    sound_at a b [] t lo al e,
    v.start_pos,
    v.small,
    walk_null n k h,
    ap (λ x. x.free) t,
    ap (λ x. x.size) t,
    ap (λ x. x.next) t,
  )
  walk_lem (suc k) a b (c ∷ bs) t lo al e fuel = ground (
    arith,
    sound_at a b (c ∷ bs) t lo al e,
    v.start_pos,
    v.small,
    end_of-le (next_of a b) (c ∷ bs),
    ap (λ x. x.free) t.0,
    ap (λ x. x.size) t.0,
    ap (λ x. x.next) t.0,
    walk_lem k (next_of a b) c bs t.2 (omega arith) (omega arith) e (omega arith),
  )

take_block-start : (n p : ℕ) (h : Heap) → (take_block n p h).heap_start ≡ h.heap_start
unfolding take_block
take_block-start n p h = ground arith

take_block-total : (n p : ℕ) (h : Heap) → (take_block n p h).heap_total ≡ h.heap_total
unfolding take_block
take_block-total n p h = ground arith

-- The heap after `take_block` on the block of first fit.
fit-IsHeapOf :
    (n : ℕ) (h : Heap) (b : Block) (bs : List Block) {p : ℕ} (cs : List Block)
    → IsHeap h b bs
    → n % 8 ≡ 0
    → n + header_size + min_split < u64_mod
    → first_fit n h.heap_start (b ∷ bs) ≡ some (p, cs)
    → IsHeapOf (take_block n p h) cs
fit-IsHeapOf n h b bs [] v n_al w f =
    fit-Tiles n h n_al h.heap_start b bs v.tiles v.start_aligned f w
      (let e = v.end_at in let s = v.small in omega arith)
fit-IsHeapOf n h b bs {p} (c ∷ cs) v n_al w f = record {
  tiles = rw (take_block-start n p h) (
      fit-Tiles n h n_al h.heap_start b bs v.tiles v.start_aligned f w
        (let e = v.end_at in let s = v.small in omega arith));
  start_pos = rw (take_block-start n p h) v.start_pos;
  start_aligned = rw (take_block-start n p h) v.start_aligned;
  end_at =
      rw (take_block-start n p h, take_block-total n p h)
        (first_fit-end_of n h.heap_start (b ∷ bs) f ∙ v.end_at);
  small = rw (take_block-start n p h, take_block-total n p h) v.small;
}

-- What `kmalloc` promises, from the outcome of first fit.
abbrev pub Allocates : Heap → ℕ × Heap → Option (ℕ × List Block) → Type 0
Allocates h r none = r ≡ (0, h)
Allocates h r (some (p, cs)) = (r.0 ≡ p + header_size) × (r.0 % 8 ≡ 0) × IsHeapOf r.1 cs

kmalloc-walk :
    (size : ℕ) (h : Heap)
    → 0 < size
    → 0 < h.heap_start
    → kmalloc size h ≡ kmalloc_walk heap_walk_max (align size 8) h.heap_start h
unfolding kmalloc
kmalloc-walk size h pos start = ground arith

-- `kmalloc` on a heap that is tiled by fewer than `HEAP_WALK_MAX` blocks, for a size that leaves the
-- rounding and the sum of the split test below 2 ^ 64: it takes the block that first fit takes for
-- the size rounded up to 8, and returns the address behind its header, which is a multiple of 8;
-- the heap is tiled by the blocks of first fit. Where first fit finds none, it returns null and
-- the heap is as it was.
pub kmalloc_refines :
    (size : ℕ) (h : Heap) (b : Block) (bs : List Block)
    → IsHeap h b bs
    → length (b ∷ bs) ≤ heap_walk_max
    → 0 < size
    → size + 7 + header_size + min_split < u64_mod
    → Allocates h (kmalloc size h) (first_fit (align size 8) h.heap_start (b ∷ bs))
kmalloc_refines size h b bs v few pos w =
    let n_al : align size 8 % 8 ≡ 0 = ground arith in
    let w' : align size 8 + header_size + min_split < u64_mod = ground arith in
    let run =
      kmalloc-walk size h pos v.start_pos
      ∙ walk_lem (align size 8) h b bs v n_al heap_walk_max h.heap_start b bs v.tiles (ground arith)
          v.start_aligned v.end_at (omega arith) in
    elim (Option-cases (first_fit (align size 8) h.heap_start (b ∷ bs))) [
      | inl o ↦ rw o (rw run (rw o refl))
      | inr ((p, cs), o) ↦
          let fits =
            first_fit-Fits (align size 8) h.headers h.heap_start b bs v.tiles v.start_aligned o in
          let q : kmalloc size h ≡ (p + header_size, take_block (align size 8) p h) =
            rw run (rw o refl) in
          rw (o, q)
            (
              refl,
              (let al = fits.aligned in omega arith),
              fit-IsHeapOf (align size 8) h b bs cs v n_al w' o,
            )
    ]

-- On a heap that is tiled by at most `HEAP_WALK_MAX` blocks, the first of which is free,
-- `kmalloc` of more than 2 ^ 64 - 8 bytes returns the address behind the header of that block,
-- whatever its size.
pub kmalloc_wraps :
    (size : ℕ) (h : Heap) (b : Block) (bs : List Block)
    → IsHeap h b bs
    → length (b ∷ bs) ≤ heap_walk_max
    → b.free ≡ true
    → u64_mod - 8 < size
    → size < u64_mod
    → (kmalloc size h).0 ≡ h.heap_start + header_size
unfolding first_fit
kmalloc_wraps size h b bs v few fr big small =
    let n0 : align size 8 ≡ 0 = ground arith in
    let run =
      walk_lem 0 h b bs v refl heap_walk_max h.heap_start b bs v.tiles (ground arith)
        v.start_aligned v.end_at (omega arith) in
    let called = kmalloc-walk size h (omega arith) v.start_pos in
    ground (arith, rw n0 at called, run, fr)
