-- ===== src/Heap/Blocks.antt =====
-- What a heap of src/kmalloc.c stands for: the blocks that tile it, in the order of their addresses.
use atmkoala.Base.{
  ◌⊎◌, ℕ, ◌+◌, ◌-◌, ◌%◌, ◌≤◌, ◌<◌, ◌≡◌, Bool, true, false, ◌==◌, ◌&&◌, if◌then◌else◌, leb, update,
  Option, none, some, List, [], ◌∷◌, arith,
}
use atmkoala.Heap.{
  Header, Heap, heap_magic, header_size, min_split, u64_mod, heap_header_valid, is_sound,
}

-- A block's usable bytes, and whether it is free.
pub record Block : Type 0 where
  pub size : ℕ
  pub free : Bool

abbrev pub header : Block → ℕ → Header
header b next = record { magic = heap_magic; size = b.size; free = b.free; next = next }

-- The block behind the one at `a`, and the address behind all.
abbrev pub next_of : ℕ → Block → ℕ
next_of a b = a + header_size + b.size

abbrev pub end_of : ℕ → List Block → ℕ
end_of a [] = a
end_of a (b ∷ bs) = end_of (next_of a b) bs

-- From the address `a` the headers in memory are those of the blocks, which lie side by side. The
-- sizes of all but the last are multiples of 8.
abbrev pub Tiles : (ℕ → Header) → ℕ → Block → List Block → Type 0
Tiles m a b [] = m a ≡ header b 0
Tiles m a b (c ∷ bs) =
    (m a ≡ header b (next_of a b)) × (b.size % 8 ≡ 0) × Tiles m (next_of a b) c bs

-- `Tiles` of a list that is not empty.
abbrev pub TilesFrom : (ℕ → Header) → ℕ → List Block → Type 0
TilesFrom m a [] = ⊥
TilesFrom m a (b ∷ bs) = Tiles m a b bs

pub record IsHeap (h : Heap) (b : Block) (bs : List Block) : Type 0 where
  pub tiles : Tiles h.headers h.heap_start b bs
  pub start_pos : 0 < h.heap_start
  pub start_aligned : h.heap_start % 8 ≡ 0
  pub end_at : end_of h.heap_start (b ∷ bs) ≡ h.heap_start + h.heap_total + header_size
  pub small : h.heap_start + h.heap_total + header_size < u64_mod

-- `IsHeap` of a list that is not empty.
abbrev pub IsHeapOf : Heap → List Block → Type 0
IsHeapOf h [] = ⊥
IsHeapOf h (b ∷ bs) = IsHeap h b bs

pub end_of-le : (a : ℕ) (bs : List Block) → a ≤ end_of a bs
end_of-le a [] = omega arith
end_of-le a (b ∷ bs) = omega (arith, end_of-le (next_of a b) bs)

-- Headers below the tiles do not matter to them.
pub Tiles-update :
    (m : ℕ → Header) (i : ℕ) (v : Header) (a : ℕ) (b : Block) (bs : List Block)
    → i < a
    → Tiles m a b bs
    → Tiles (update m i v) a b bs
Tiles-update m i v a b [] h t = ground arith
Tiles-update m i v a b (c ∷ bs) h t =
    (ground arith, t.1, Tiles-update m i v (next_of a b) c bs (omega arith) t.2)

-- First fit over the blocks from the address `a`: the address of the block taken, and the blocks.
-- A block that leaves room for a header and 32 bytes more is split.
abbrev pub split : ℕ → Block → List Block → List Block
split n b bs =
    if leb (n + header_size + min_split) b.size
    then record { size = n; free = false }
      ∷ record { size = b.size - n - header_size; free = true }
      ∷ bs
    else record b { free = false } ∷ bs

unfoldable pub first_fit : ℕ → ℕ → List Block → Option (ℕ × List Block)
first_fit n a [] = none
first_fit n a (b ∷ bs) =
    if b.free && leb n b.size
    then some (a, split n b bs)
    else (elim (first_fit n (next_of a b) bs) [ none ↦ none | some (p, cs) ↦ some (p, b ∷ cs) ])

-- The header test passes at an address within the heap that holds the magic number.
pub is_sound-at :
    (h : Heap) (a : ℕ)
    → 0 < h.heap_start
    → h.heap_start + h.heap_total + header_size < u64_mod
    → h.heap_start ≤ a
    → a % 8 ≡ 0
    → a + header_size ≤ h.heap_start + h.heap_total + header_size
    → (h.headers a).magic ≡ heap_magic
    → is_sound h a ≡ true
unfolding heap_header_valid
is_sound-at h a s e lo al hi m = ground arith

pub is_sound-block :
    (h : Heap) (b : Block) (bs : List Block) (a : ℕ) (c : Block)
    → IsHeap h b bs
    → h.heap_start ≤ a
    → a % 8 ≡ 0
    → next_of a c ≤ h.heap_start + h.heap_total + header_size
    → (h.headers a).magic ≡ heap_magic
    → is_sound h a ≡ true
is_sound-block h b bs a c v lo al hi m = is_sound-at h a v.start_pos v.small lo al (omega arith) m

-- Neighbours that are both free become one block.
abbrev pub joined : Block → Block → Block
joined b c = record { size = b.size + header_size + c.size; free = true }

unfoldable pub merge : Block → List Block → List Block
merge b [] = b ∷ []
merge b (c ∷ bs) = if b.free && c.free then merge (joined b c) bs else b ∷ merge c bs

unfoldable pub merge_all : List Block → List Block
merge_all [] = []
merge_all (b ∷ bs) = merge b bs

-- The block with the header at `p` becomes free.
unfoldable pub mark_free : (p a : ℕ) → List Block → List Block
mark_free p a [] = []
mark_free p a (b ∷ bs) =
    let rest = mark_free p (next_of a b) bs in
    if a == p then record b { free = true } ∷ bs else b ∷ rest

-- One of the blocks from `a` on has its header at `p`, is in use and is
-- not empty.
abbrev pub IsUsed : (p a : ℕ) → List Block → Type 0
IsUsed p a [] = ⊥
IsUsed p a (b ∷ bs) = ((a ≡ p) × (b.free ≡ false) × (0 < b.size)) ⊎ IsUsed p (next_of a b) bs
