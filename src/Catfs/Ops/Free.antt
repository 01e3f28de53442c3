-- ===== src/Catfs/Ops/Free.antt =====
-- `free_all_blocks` of src/catfs.c.
use atmkoala.Base.{ℕ, zero, suc, ◌+◌, ◌*◌, ◌==◌, if◌then◌else◌, update, none, some}
use atmkoala.Catfs.{
  catfs_direct_blocks, catfs_ptrs_per_block, Sector, Catfs, set_inode, bm_free, block_lba,
}
use atmkoala.Catfs.Disk.{DiskOps, World, dsk_read, word_at}

abbrev set_cat : {D : Type 0} → World D → Catfs → World D
set_cat w s = record w { cat = s }

-- The loop over the direct blocks of the inode from `i`, with `n` left.
unfoldable pub free_direct : (n i idx : ℕ) → Catfs → Catfs
free_direct zero i idx s = s
free_direct (suc n) i idx s =
    let inode = s.inodes idx in
    let s' = bm_free (inode.blocks i) s in
    free_direct n (i + 1) idx (
      if inode.blocks i == 0
      then s
      else set_inode s' idx (record (s'.inodes idx) { blocks = update inode.blocks i 0 }))

-- The loop over the pointers of a sector from `i`, with `n` left.
unfoldable pub free_ptrs : (n i : ℕ) → Sector → Catfs → Catfs
free_ptrs zero i sec s = s
free_ptrs (suc n) i sec s =
    let b = word_at sec (4 * i) in free_ptrs n (i + 1) sec (if b == 0 then s else bm_free b s)

module _ {D : Type 0} (io : DiskOps D) where
  -- The data blocks behind the pointer block `b`, and the block itself.
  unfoldable pub free_ptr_block : ℕ → World D → World D
  free_ptr_block b w = (elim (dsk_read io (block_lba w.cat b) w) [
    | none ↦ set_cat w (bm_free b w.cat)
    | some sec ↦ set_cat w (bm_free b (free_ptrs catfs_ptrs_per_block 0 sec w.cat))
  ])

  -- The loop over the pointers of the first level from `i`, with `n` left.
  unfoldable pub free_level : (n i : ℕ) → Sector → World D → World D
  free_level zero i l1 w = w
  free_level (suc n) i l1 w =
      let b = word_at l1 (4 * i) in
      free_level n (i + 1) l1 (if b == 0 then w else free_ptr_block b w)

  unfoldable pub free_indirect : ℕ → World D → World D
  free_indirect idx w =
      let w' = free_ptr_block (w.cat.inodes idx).indirect w in
      if (w.cat.inodes idx).indirect == 0
      then w
      else set_cat w' (set_inode w'.cat idx (record (w'.cat.inodes idx) { indirect = 0 }))

  unfoldable pub free_dindirect : ℕ → World D → World D
  free_dindirect idx w =
      let b = (w.cat.inodes idx).dindirect in
      let w1 : World D = (elim (dsk_read io (block_lba w.cat b) w) [
        | none ↦ w
        | some l1 ↦ free_level catfs_ptrs_per_block 0 l1 w
      ]) in
      let w2 = set_cat w1 (bm_free b w1.cat) in
      if b == 0
      then w
      else set_cat w2 (set_inode w2.cat idx (record (w2.cat.inodes idx) { dindirect = 0 }))

  unfoldable pub free_all_blocks : ℕ → World D → World D
  free_all_blocks idx w =
      free_dindirect idx
        (free_indirect idx (set_cat w (free_direct catfs_direct_blocks 0 idx w.cat)))
