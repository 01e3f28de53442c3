-- ===== src/Heap/Free.antt =====
-- `kfree` of src/kmalloc.c on a block in use.
use atmkoala.Base.{
  ℕ, ◌+◌, ◌-◌, ◌%◌, ◌≤◌, ◌<◌, ◌≡◌, ◌≢◌, refl, ap, ◌∙◌, true, false, ◌==◌, update, List, [], ◌∷◌,
  length, Bool-cases, inl, inr, arith,
}
use mathlib.Core.Path.{subst}
use atmkoala.Heap.{
  Header, Heap, heap_magic, heap_walk_max, header_size, u64_mod, set_header, coalesce_walk,
  coalesce, header_of, kfree,
}
use atmkoala.Heap.Merge.{Within, Merged, coalesce_walk_lem}
use atmkoala.Heap.Blocks.{
  Block, next_of, end_of, Tiles, TilesFrom, IsHeap, IsHeapOf, end_of-le, Tiles-update, is_sound-at,
  joined, merge, merge_all, mark_free, IsUsed,
}

-- Where a block in use lies, and its header.
record Used (m : ℕ → Header) (a hi p : ℕ) : Type 0 where
  above : a ≤ p
  aligned : p % 8 ≡ 0
  room : p + header_size < hi
  magic : (m p).magic ≡ heap_magic
  used : (m p).free ≡ false

IsUsed-Used :
    (m : ℕ → Header) (p a : ℕ) (b : Block) (bs : List Block)
    → Tiles m a b bs
    → a % 8 ≡ 0
    → IsUsed p a (b ∷ bs)
    → Used m a (end_of a (b ∷ bs)) p
IsUsed-Used m p a b [] t al (inl (q, f, s)) = record {
  above = omega arith;
  aligned = ground arith;
  room = omega arith;
  magic = ground (arith, ap (λ x. x.magic) t);
  used = ground (arith, ap (λ x. x.free) t);
}
IsUsed-Used m p a b [] t al (inr u) = absurd u
IsUsed-Used m p a b (c ∷ bs) t al (inl (q, f, s)) = record {
  above = omega arith;
  aligned = ground arith;
  room = omega (arith, end_of-le (next_of a b) (c ∷ bs));
  magic = ground (arith, ap (λ x. x.magic) t.0);
  used = ground (arith, ap (λ x. x.free) t.0);
}
IsUsed-Used m p a b (c ∷ bs) t al (inr u) =
    let al8 = t.1 in
    let r = IsUsed-Used m p (next_of a b) c bs t.2 (omega arith) u in
    record {
      above = (let e = r.above in omega arith);
      aligned = r.aligned;
      room = r.room;
      magic = r.magic;
      used = r.used;
    }

mark_free-here :
    (m : ℕ → Header) (a : ℕ) (b : Block) (bs : List Block)
    → Tiles m a b bs
    → Tiles (update m a (record (m a) { free = true })) a (record b { free = true }) bs
mark_free-here m a b [] t =
    ground (arith, ap (λ x. x.size) t, ap (λ x. x.magic) t, ap (λ x. x.next) t)
mark_free-here m a b (c ∷ bs) t = (
  ground (arith, ap (λ x. x.size) t.0, ap (λ x. x.magic) t.0, ap (λ x. x.next) t.0),
  t.1,
  Tiles-update m a _ (next_of a b) c bs (omega arith) t.2,
)

mark_free-same :
    (m : ℕ → Header) (p a : ℕ) (b : Block) (bs : List Block)
    → Tiles m a b bs
    → a ≡ p
    → Tiles (update m p (record (m p) { free = true })) a (record b { free = true }) bs
mark_free-same m p a b bs t q =
    subst
      (λ (i : ℕ). Tiles (update m i (record (m i) { free = true })) a (record b { free = true }) bs)
      q (mark_free-here m a b bs t)

-- A block in front of the marked ones stays there.
mark_free-front :
    (m : ℕ → Header) (p a : ℕ) (b c : Block) (bs ds : List Block)
    → Tiles m a b (c ∷ bs)
    → a ≢ p
    → TilesFrom (update m p (record (m p) { free = true })) (next_of a b) ds
    → TilesFrom (update m p (record (m p) { free = true })) a (b ∷ ds)
mark_free-front m p a b c bs [] t ne r = absurd r
mark_free-front m p a b c bs (d ∷ ds) t ne r = (ground (arith, t.0), t.1, r)

mark_free-Tiles :
    (m : ℕ → Header) (p a : ℕ) (b : Block) (bs : List Block)
    → Tiles m a b bs
    → TilesFrom (update m p (record (m p) { free = true })) a (mark_free p a (b ∷ bs))
unfolding mark_free
mark_free-Tiles m p a b [] t = elim (Bool-cases (a == p)) [
  | inl e ↦ rw e (mark_free-same m p a b [] t (ground arith))
  | inr e ↦ rw e (ground (arith, t))
]
mark_free-Tiles m p a b (c ∷ bs) t = elim (Bool-cases (a == p)) [
  | inl e ↦ rw e (mark_free-same m p a b (c ∷ bs) t (ground arith))
  | inr e ↦ rw e (
      mark_free-front m p a b c bs (mark_free p (next_of a b) (c ∷ bs)) t (ground arith)
        (mark_free-Tiles m p (next_of a b) c bs t.2))
]

mark_free-end_of : (p a : ℕ) (bs : List Block) → end_of a (mark_free p a bs) ≡ end_of a bs
unfolding mark_free
mark_free-end_of p a [] = refl
mark_free-end_of p a (b ∷ bs) = ground (arith, mark_free-end_of p (next_of a b) bs)

merge-end_of : (a : ℕ) (b : Block) (bs : List Block) → end_of a (merge b bs) ≡ end_of a (b ∷ bs)
unfolding merge
merge-end_of a b [] = refl
merge-end_of a b (c ∷ bs) = ground (
  arith,
  merge-end_of (next_of a b) c bs,
  merge-end_of a (joined b c) bs,
  ap (λ (i : ℕ). end_of i bs)
      (let e : next_of (next_of a b) c ≡ next_of a (joined b c) = omega arith in e),
)

kfree-coalesce :
    (p : ℕ) (h : Heap) (b : Block) (bs : List Block)
    → IsHeap h b bs
    → Used h.headers h.heap_start (end_of h.heap_start (b ∷ bs)) p
    → kfree (p + header_size) h ≡ coalesce (set_header h p (record (h.headers p) { free = true }))
unfolding kfree header_of
kfree-coalesce p h b bs v u =
    let e1 = v.end_at in
    let e2 = v.small in
    let e3 = v.start_pos in
    let u1 = u.above in
    let u2 = u.room in
    let s = is_sound-at h p v.start_pos v.small u.above u.aligned (omega arith) u.magic in
    let back : p + header_size - header_size ≡ p = omega arith in ground (arith, s, u.used, back)

mark_free-length : (p a : ℕ) (bs : List Block) → length (mark_free p a bs) ≡ length bs
unfolding mark_free
mark_free-length p a [] = refl
mark_free-length p a (b ∷ bs) = ground (arith, mark_free-length p (next_of a b) bs)

coalesce-IsHeapOf :
    (h : Heap) (bs : List Block)
    → TilesFrom h.headers h.heap_start bs
    → 0 < h.heap_start
    → h.heap_start % 8 ≡ 0
    → end_of h.heap_start bs ≡ h.heap_start + h.heap_total + header_size
    → h.heap_start + h.heap_total + header_size < u64_mod
    → length bs ≤ heap_walk_max
    → IsHeapOf (coalesce h) (merge_all bs)
unfolding coalesce merge_all
coalesce-IsHeapOf h [] t pos al e small le = absurd t
coalesce-IsHeapOf h (b ∷ bs) t pos al e small le =
    let w : Within h h.heap_start b bs = record {
      tiles = t;
      start_pos = pos;
      above = omega arith;
      aligned = al;
      end_at = e;
      small = small;
    } in
    heap_of h (coalesce_walk heap_walk_max h.heap_start h) (merge b bs)
      (coalesce_walk_lem heap_walk_max h h.heap_start b bs w (omega arith))
      (merge-end_of h.heap_start b bs ∙ e) pos al small
  where
    heap_of :
        (h h' : Heap) (cs : List Block)
        → Merged h h' h.heap_start cs
        → end_of h.heap_start cs ≡ h.heap_start + h.heap_total + header_size
        → 0 < h.heap_start
        → h.heap_start % 8 ≡ 0
        → h.heap_start + h.heap_total + header_size < u64_mod
        → IsHeapOf h' cs
    heap_of h h' [] m e pos al small = absurd m.tiles
    heap_of h h' (c ∷ cs) m e pos al small = record {
      tiles = rw m.same_start m.tiles;
      start_pos = rw m.same_start pos;
      start_aligned = rw m.same_start al;
      end_at = rw (m.same_start, m.same_total) e;
      small = rw (m.same_start, m.same_total) small;
    }

-- On a heap that is tiled by at most `HEAP_WALK_MAX` blocks, `kfree` of the address behind the header
-- of a block that is in use and not empty makes that block free and joins every run of free
-- neighbours into one block; the heap is tiled by the blocks so obtained.
pub kfree_refines :
    (p : ℕ) (h : Heap) (b : Block) (bs : List Block)
    → IsHeap h b bs
    → length (b ∷ bs) ≤ heap_walk_max
    → IsUsed p h.heap_start (b ∷ bs)
    → IsHeapOf (kfree (p + header_size) h) (merge_all (mark_free p h.heap_start (b ∷ bs)))
kfree_refines p h b bs v few u =
    let bs' = mark_free p h.heap_start (b ∷ bs) in
    rw
      (kfree-coalesce p h b bs v
        (IsUsed-Used h.headers p h.heap_start b bs v.tiles v.start_aligned u))
      (coalesce-IsHeapOf (set_header h p (record (h.headers p) { free = true })) bs'
        (mark_free-Tiles h.headers p h.heap_start b bs v.tiles) v.start_pos v.start_aligned
        (mark_free-end_of p h.heap_start (b ∷ bs) ∙ v.end_at) v.small
        (let e = mark_free-length p h.heap_start (b ∷ bs) in omega (arith, e)))
