-- ===== src/Heap.antt =====
-- The first-fit allocator of src/kmalloc.c. Memory is a map from addresses to block headers, with
-- the words that `kmalloc_aligned` stores; a pointer is an address, and null is 0.
pub mod Blocks
pub mod Fit
pub mod Take
pub mod Alloc
pub mod Merge
pub mod Free
pub mod Count
mod Tests
use atmkoala.Base.{
  ℕ, zero, suc, ◌+◌, ◌*◌, ◌-◌, ◌/◌, ◌%◌, Bool, true, false, ◌==◌, ◌&&◌, ◌||◌, not, if◌then◌else◌,
  ltb, leb, update, Option, none, some,
}

abbrev pub heap_magic : ℕ
heap_magic = 0xC4FE

abbrev pub min_split : ℕ
min_split = 32

abbrev pub heap_walk_max : ℕ
heap_walk_max = 65536

-- `sizeof(block_header_t)`: three words of 8 bytes, and `free`, padded to one.
abbrev pub header_size : ℕ
header_size = 32

abbrev pub u64_mod : ℕ
u64_mod = 0x1_0000_0000_0000_0000

abbrev pub u32_mod : ℕ
u32_mod = 0x1_0000_0000

-- `block_header_t`
pub record Header : Type 0 where
  pub magic : ℕ
  pub size : ℕ
  pub free : Bool
  pub next : ℕ

pub record Heap : Type 0 where
  pub headers : ℕ → Header
  pub words : ℕ → ℕ
  pub heap_start : ℕ
  pub heap_total : ℕ

-- `ALIGN(n, a)` for a power of two `a`, in 64 bits.
abbrev pub align : ℕ → ℕ → ℕ
align n a = ((n + a - 1) % u64_mod) / a * a

abbrev pub heap_end : Heap → ℕ
heap_end h = (h.heap_start + h.heap_total + header_size) % u64_mod

unfoldable pub heap_header_valid : Heap → ℕ → Bool
heap_header_valid h p =
    not (p == 0)
    && not (h.heap_start == 0)
    && leb h.heap_start p
    && leb p (heap_end h - header_size)
    && p % 8 == 0

abbrev pub set_header : Heap → ℕ → Header → Heap
set_header h a v = record h { headers = update h.headers a v }

unfoldable pub heap_init : (start_addr size : ℕ) → Heap → Heap
heap_init start_addr size h =
    let aligned = align start_addr 16 in
    if ltb size (header_size + 16)
    then h
    else (let size' = (size + u64_mod - (aligned - start_addr)) % u64_mod in
        let usable = (size' + u64_mod - header_size) % u64_mod in
        record h {
          heap_start = aligned;
          headers =
              update h.headers aligned
                (record { magic = heap_magic; size = usable; free = true; next = 0 });
          heap_total = usable % u32_mod;
        })

-- The guard of a walk at a block.
abbrev pub is_sound : Heap → ℕ → Bool
is_sound h a = heap_header_valid h a && (h.headers a).magic == heap_magic

-- The loop of `coalesce` at `cur`, with the rounds left of `HEAP_WALK_MAX`.
unfoldable pub coalesce_walk : ℕ → ℕ → Heap → Heap
coalesce_walk zero cur h = h
coalesce_walk (suc n) cur h =
    let b = h.headers cur in
    let c = h.headers b.next in
    let merged =
      set_header h cur (record b {
        size = (b.size + (header_size + c.size) % u64_mod) % u64_mod;
        next = c.next;
      }) in
    let again = coalesce_walk n cur merged in
    let onward = coalesce_walk n b.next h in
    if cur == 0 || b.next == 0
    then h
    else if not (is_sound h cur && is_sound h b.next)
    then h
    else if b.free && c.free
    then again
    else onward

unfoldable pub coalesce : Heap → Heap
coalesce h = coalesce_walk heap_walk_max h.heap_start h

-- What `kmalloc` writes at the block that it takes, of `size` bytes after the rounding.
unfoldable pub take_block : (size cur : ℕ) → Heap → Heap
take_block size cur h =
    let b = h.headers cur in
    let rest = (cur + header_size + size) % u64_mod in
    if leb ((size + header_size + min_split) % u64_mod) b.size
    then set_header
        (set_header h rest (record {
          magic = heap_magic;
          size = b.size - size - header_size;
          free = true;
          next = b.next;
        }))
        cur (record b { size = size; next = rest; free = false })
    else set_header h cur (record b { free = false })

-- The loop of `kmalloc` at `cur`: the address, 0 if there is none, and the heap.
unfoldable pub kmalloc_walk : ℕ → (size cur : ℕ) → Heap → ℕ × Heap
kmalloc_walk zero size cur h = (0, h)
kmalloc_walk (suc n) size cur h =
    let b = h.headers cur in
    let onward = kmalloc_walk n size b.next h in
    if cur == 0
    then (0, h)
    else if not (is_sound h cur)
    then (0, h)
    else if b.free && leb size b.size
    then ((cur + header_size) % u64_mod, take_block size cur h)
    else onward

unfoldable pub kmalloc : ℕ → Heap → ℕ × Heap
kmalloc size h =
    if h.heap_start == 0 || size == 0
    then (0, h)
    else kmalloc_walk heap_walk_max (align size 8) h.heap_start h

unfoldable pub kmalloc_aligned : (size alignment : ℕ) → Heap → ℕ × Heap
kmalloc_aligned size alignment h =
    if leb alignment 8
    then kmalloc size h
    else (let (raw, h') = kmalloc ((size + alignment + 8) % u64_mod) h in
        let addr = align ((raw + 8) % u64_mod) alignment in
        if raw == 0 then (0, h') else (addr, record h' { words = update h'.words (addr - 8) raw }))

-- The bounds that `kfree` asks of an address before it reads a header.
abbrev pub in_heap : Heap → ℕ → Bool
in_heap h p = leb (h.heap_start + header_size) p && ltb p (heap_end h)

-- The header that `kfree` finds for `p`, 0 for none.
unfoldable pub header_of : Heap → ℕ → ℕ
header_of h p =
    if is_sound h (p - header_size)
    then p - header_size
    else if ltb p (h.heap_start + 8)
    then 0
    else if in_heap h (h.words (p - 8))
    then h.words (p - 8) - header_size
    else 0

unfoldable pub kfree : ℕ → Heap → Heap
kfree p h =
    if p == 0 || h.heap_start == 0
    then h
    else if not (in_heap h p)
    then h
    else (let a = header_of h p in
        if not (is_sound h a) || (h.headers a).free
        then h
        else coalesce (set_header h a (record (h.headers a) { free = true })))

-- The walk of `heap_free_bytes`, which has no bound in the source: `none` is a walk without end.
unfoldable pub free_bytes_walk : ℕ → (cur total : ℕ) → Heap → Option ℕ
free_bytes_walk zero cur total h = none
free_bytes_walk (suc n) cur total h =
    let b = h.headers cur in
    let total' : ℕ = if b.free then (total + b.size) % u32_mod else total in
    let rest = free_bytes_walk n b.next total' h in if cur == 0 then some total else rest

-- With the rounds that are left of the walk.
unfoldable pub heap_free_bytes : ℕ → Heap → Option ℕ
heap_free_bytes n h = free_bytes_walk n h.heap_start 0 h

unfoldable pub heap_used_bytes : ℕ → Heap → Option ℕ
heap_used_bytes n h = (elim (heap_free_bytes n h) [
  | none ↦ none
  | some free ↦ some ((h.heap_total + u32_mod - free) % u32_mod)
])
