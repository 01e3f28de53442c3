-- ===== src/Catfs/Data/Bounds.antt =====
-- The bounds of `catfs_read` of src/catfs.c.
use atmkoala.Base.{
  ℕ, zero, suc, ◌+◌, ◌*◌, ◌-◌, ◌/◌, ◌%◌, ◌≤◌, ◌<◌, ◌≡◌, ◌⊎◌, inl, inr, refl, ap, ◌∙◌, false, ◌==◌,
  ◌||◌, not, if◌then◌else◌, ltb, leb, none, some, ℤ, pos, negsuc, arith, Bool-cases, Option-cases,
}
use atmkoala.Catfs.{
  catfs_inode_max, sector_size, set_inode, type_free, u32, Sector, block_lba, catfs_direct_blocks,
  catfs_ptrs_per_block,
}
use atmkoala.Catfs.Disk.{DiskOps, World, dsk_read, put_bytes, word_at}
use atmkoala.Catfs.Data.{chunk_of, read_loop, catfs_read}
use atmkoala.Catfs.Data.Block.{
  obtain, ptr_in, resolve_direct, read_ptr, resolve_indirect, resolve_level, read_level,
  resolve_dindirect, resolve_block,
}

-- Without `create` a block is the old one, or there is none.
obtain-old :
    {D : Type 0} (b : ℕ) (w : World D)
    → (obtain b false w ≡ (none, w)) ⊎ (obtain b false w ≡ (some (b, false), w))
unfolding obtain
obtain-old b w = elim (Bool-cases (b == 0)) [ inl e ↦ inl (rw e refl) | inr e ↦ inr (rw e refl) ]

module _ {D : Type 0} (io : DiskOps D) where
  ptr_in-world : (b : ℕ) (sec : Sector) (j : ℕ) (w : World D) → (ptr_in io b sec j false w).1 ≡ w
  unfolding ptr_in
  ptr_in-world b sec j w = elim (obtain-old (word_at sec (4 * j)) w) [
    | inl e ↦ rw (e, ptr_in) (ap (λ x. x.1) e)
    | inr e ↦ rw (e, ptr_in) (ap (λ x. x.1) e)
  ]

  read_ptr-world : (b j : ℕ) (w : World D) → (read_ptr io b j false w).1 ≡ w
  unfolding read_ptr
  read_ptr-world b j w = elim (Option-cases (dsk_read io (block_lba w.cat b) w)) [
    | inl e ↦ rw (e, read_ptr) refl
    | inr (sec, e) ↦ rw (e, read_ptr) (ptr_in-world b sec j w)
  ]

  resolve_level-world :
      (d : ℕ) (l1 : Sector) (i j : ℕ) (w : World D) → (resolve_level io d l1 i j false w).1 ≡ w
  unfolding resolve_level
  resolve_level-world d l1 i j w = elim (obtain-old (word_at l1 (4 * i)) w) [
    | inl e ↦ rw (e, resolve_level) (ap (λ x. x.1) e)
    | inr e ↦ rw (e, resolve_level) (read_ptr-world (word_at l1 (4 * i)) j _ ∙ ap (λ x. x.1) e)
  ]

  read_level-world : (d i j : ℕ) (w : World D) → (read_level io d i j false w).1 ≡ w
  unfolding read_level
  read_level-world d i j w = elim (Option-cases (dsk_read io (block_lba w.cat d) w)) [
    | inl e ↦ rw (e, read_level) refl
    | inr (l1, e) ↦ rw (e, read_level) (resolve_level-world d l1 i j w)
  ]

  resolve_direct-world : (idx i : ℕ) (w : World D) → (resolve_direct io idx i false w).1 ≡ w
  unfolding resolve_direct
  resolve_direct-world idx i w = elim (obtain-old ((w.cat.inodes idx).blocks i) w) [
    | inl e ↦ rw (e, resolve_direct) (ap (λ x. x.1) e)
    | inr e ↦ rw (e, resolve_direct) (ap (λ x. x.1) e)
  ]

  resolve_indirect-world : (idx j : ℕ) (w : World D) → (resolve_indirect io idx j false w).1 ≡ w
  unfolding resolve_indirect
  resolve_indirect-world idx j w = elim (obtain-old (w.cat.inodes idx).indirect w) [
    | inl e ↦ rw (e, resolve_indirect) (ap (λ x. x.1) e)
    | inr e ↦
        rw (e, resolve_indirect) (read_ptr-world (w.cat.inodes idx).indirect j _ ∙ ap (λ x. x.1) e)
  ]

  resolve_dindirect-world :
      (idx i j : ℕ) (w : World D) → (resolve_dindirect io idx i j false w).1 ≡ w
  unfolding resolve_dindirect
  resolve_dindirect-world idx i j w = elim (obtain-old (w.cat.inodes idx).dindirect w) [
    | inl e ↦ rw (e, resolve_dindirect) (ap (λ x. x.1) e)
    | inr e ↦
        rw (e, resolve_dindirect)
          (read_level-world (w.cat.inodes idx).dindirect i j _ ∙ ap (λ x. x.1) e)
  ]

  -- Finding a block without `create` changes nothing.
  resolve_block-world : (idx i : ℕ) (w : World D) → (resolve_block io idx i false w).1 ≡ w
  unfolding resolve_block
  resolve_block-world idx i w =
      let j = i - catfs_direct_blocks in
      let m = j - catfs_ptrs_per_block in
      elim (Bool-cases (ltb i catfs_direct_blocks)) [
        | inl e ↦ rw e (resolve_direct-world idx i w)
        | inr e ↦ elim (Bool-cases (ltb j catfs_ptrs_per_block)) [
          | inl f ↦ rw (e, f) (resolve_indirect-world idx j w)
          | inr f ↦ elim (Bool-cases (leb catfs_ptrs_per_block (m / catfs_ptrs_per_block))) [
            | inl g ↦ rw (e, f, g) refl
            | inr g ↦
                rw (e, f, g)
                  (resolve_dindirect-world idx (m / catfs_ptrs_per_block) (m % catfs_ptrs_per_block)
                    w)
          ]
        ]
      ]

-- The world in which only the time of the last access to an inode is new.
abbrev pub accessed : {D : Type 0} → (now idx : ℕ) → World D → World D
accessed now idx w = record w {
  cat = set_inode w.cat idx (record (w.cat.inodes idx) { atime = now });
}

-- What `catfs_read` returns and leaves.
abbrev pub ReadsWithin :
    {D : Type 0} → (now idx offset len : ℕ) → World D → ℤ × (ℕ → ℕ) × World D → Type 0
ReadsWithin now idx offset len w r =
    (r ≡ (negsuc 0, r.1, w))
    ⊎ ((n : ℕ) × (r.0 ≡ pos n)
        × (n ≤ len)
        × (offset + len < u32 → 0 < n → offset + n ≤ (w.cat.inodes idx).size)
        × ((r.2 ≡ w) ⊎ (r.2 ≡ accessed now idx w)))

module _ {D : Type 0} (io : DiskOps D) (now : ℕ) where
  -- What the loop of `catfs_read` leaves.
  record Reads (len : ℕ) (w : World D) (r : ℕ × (ℕ → ℕ) × World D) : Type 0 where
    bound : r.0 ≤ len
    same : r.2 ≡ w

  read_loop-Reads :
      (n idx offset len done : ℕ) (buf : ℕ → ℕ) (w : World D)
      → done ≤ len
      → Reads len w (read_loop io now n idx offset len done buf w)
  unfolding read_loop
  read_loop-Reads zero idx offset len done buf w le = record { bound = le; same = refl }
  read_loop-Reads (suc n) idx offset len done buf w le =
      let blk_off = ((offset + done) % u32) % sector_size in
      let r = resolve_block io idx (((offset + done) % u32) / sector_size) false w in
      let q = resolve_block-world io idx (((offset + done) % u32) / sector_size) w in
      elim (Bool-cases (ltb done len)) [
        | inr e ↦ rw e (record { bound = le; same = refl })
        | inl e ↦ elim (Option-cases r.0) [
          | inl f ↦ rw (e, f) (record { bound = le; same = q })
          | inr (b, f) ↦ elim (Option-cases (dsk_read io (block_lba r.1.cat b) r.1)) [
            | inl g ↦ rw (e, f, g) (record { bound = le; same = q })
            | inr (tmp, g) ↦
                let ih =
                  read_loop-Reads n idx offset len (done + chunk_of blk_off (len - done))
                    (put_bytes done (chunk_of blk_off (len - done)) (λ i. tmp (blk_off + i)) buf)
                    r.1 (ground arith) in
                rw (e, f, g) (record { bound = ih.bound; same = ih.same ∙ q })
          ]
        ]
      ]

  -- With `len - done` rounds the loop comes to its end: more rounds change nothing.
  pub read_loop-enough :
      (m n idx offset len done : ℕ) (buf : ℕ → ℕ) (w : World D)
      → n ≤ m
      → len ≤ done + n
      → read_loop io now m idx offset len done buf w ≡ read_loop io now n idx offset len done buf w
  unfolding read_loop
  read_loop-enough zero zero idx offset len done buf w le en = refl
  read_loop-enough (suc m) zero idx offset len done buf w le en =
      let e : ltb done len ≡ false = ground arith in rw e refl
  read_loop-enough zero (suc n) idx offset len done buf w le en = absurd (omega arith)
  read_loop-enough (suc m) (suc n) idx offset len done buf w le en =
      let blk_off = ((offset + done) % u32) % sector_size in
      let r = resolve_block io idx (((offset + done) % u32) / sector_size) false w in
      elim (Bool-cases (ltb done len)) [
        | inr e ↦ rw e refl
        | inl e ↦ elim (Option-cases r.0) [
          | inl f ↦ rw (e, f) refl
          | inr (b, f) ↦ elim (Option-cases (dsk_read io (block_lba r.1.cat b) r.1)) [
            | inl g ↦ rw (e, f, g) refl
            | inr (tmp, g) ↦
                rw (e, f, g)
                  (read_loop-enough m n idx offset len (done + chunk_of blk_off (len - done))
                    (put_bytes done (chunk_of blk_off (len - done)) (λ i. tmp (blk_off + i)) buf)
                    r.1 (omega arith) (ground arith))
          ]
        ]
      ]

  -- `catfs_read` either returns -1 and changes nothing, or it returns a count that is at most the length
  -- asked for. For a request that ends below 2 ^ 32 the count ends at most at the size of the file.
  -- Of the disk and of all that is kept in memory, only the time of the last access to the
  -- inode may change.
  pub catfs_read_lem :
      (idx offset len : ℕ) (buf : ℕ → ℕ) (w : World D)
      → ReadsWithin now idx offset len w (catfs_read io now (pos idx) offset buf len w)
  unfolding catfs_read
  catfs_read_lem idx offset len buf w =
      elim (Bool-cases (not w.cat.mounted || leb catfs_inode_max idx)) [
        | inl e ↦ inl (rw e refl)
        | inr e ↦ elim (Bool-cases ((w.cat.inodes idx).type == type_free)) [
          | inl f ↦ inl (rw (e, f) refl)
          | inr f ↦ elim (Bool-cases (leb (w.cat.inodes idx).size offset)) [
            | inl g ↦ inr (
              0,
              rw (e, f, g) refl,
              omega arith,
              (λ small lt. absurd (omega arith)),
              inl (rw (e, f, g) refl),
            )
            | inr g ↦
                let len' : ℕ =
                  if ltb (w.cat.inodes idx).size ((offset + len) % u32)
                  then (w.cat.inodes idx).size - offset
                  else len in
                let r = read_loop-Reads len' idx offset len' 0 buf w (omega arith) in
                let b = r.bound in
                let res = read_loop io now len' idx offset len' 0 buf w in
                inr (
                  res.0,
                  rw (e, f, g) refl,
                  let short : len' ≤ len = ground arith in omega arith,
                  (λ small lt.
                      let inside : offset + len' ≤ (w.cat.inodes idx).size = ground arith in
                      omega arith),
                  inr (rw (e, f, g) (ap (accessed now idx) r.same)),
                )
          ]
        ]
      ]
