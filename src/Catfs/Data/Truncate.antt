-- ===== src/Catfs/Data/Truncate.antt =====
-- `free_blocks_from` and `catfs_truncate` of src/catfs.c.
use atmkoala.Base.{
  ℕ, zero, suc, ◌+◌, ◌*◌, ◌-◌, ◌/◌, ◌%◌, Bool, true, false, ◌==◌, ◌&&◌, ◌||◌, not, if◌then◌else◌,
  ltb, leb, update, none, some, ℤ, pos, negsuc,
}
use atmkoala.Catfs.{
  catfs_inode_max, catfs_blocks_max, catfs_direct_blocks, catfs_ptrs_per_block, sector_size,
  type_free, type_dir, u32, Sector, Catfs, set_inode, bm_free, block_lba,
}
use atmkoala.Catfs.Disk.{
  DiskOps, World, dsk_read, dsk_write, word_at, journal_log, journal_commit, sync_inode,
  sync_superblock, sync_bitmap_region,
}
use atmkoala.Catfs.Data.Block.{put_word}

-- The direct blocks of the inode from `i`, with `n` left.
unfoldable pub free_direct_from : (n i idx : ℕ) → Catfs → Catfs
free_direct_from zero i idx s = s
free_direct_from (suc n) i idx s =
    let inode = s.inodes idx in
    let s' = bm_free (inode.blocks i) s in
    free_direct_from n (i + 1) idx (
      if inode.blocks i == 0
      then s
      else set_inode s' idx (record (s'.inodes idx) { blocks = update inode.blocks i 0 }))

-- The pointers of a sector from `i`, with `n` left: those from `start` on are freed and cleared. The
-- flag says whether any pointer is left.
unfoldable pub free_tail : (n i start : ℕ) → (any : Bool) → Sector → Catfs → Bool × Sector × Catfs
free_tail zero i start any sec s = (any, sec, s)
free_tail (suc n) i start any sec s =
    let b = word_at sec (4 * i) in
    let hit = leb start i && not (b == 0) in
    free_tail n (i + 1) start (any || (not hit && not (b == 0)))
      (if hit then put_word i 0 sec else sec) (if hit then bm_free b s else s)

-- `first > base ? first - base : 0`, which the subtraction of natural numbers is.
abbrev pub start_of : (first base : ℕ) → ℕ
start_of first base = first - base

module _ {D : Type 0} (io : DiskOps D) where
  -- The pointer block `b`, whose first pointer is the block `base` of the file. The flags: whether the
  -- disk worked, and whether the pointer block is still in use.
  unfoldable pub shrink_ptrs : (b base first : ℕ) → World D → Bool × Bool × World D
  shrink_ptrs b base first w = (elim (dsk_read io (block_lba w.cat b) w) [
    | none ↦ (false, true, w)
    | some sec ↦
        let (any, sec', s') =
          free_tail catfs_ptrs_per_block 0 (start_of first base) false sec w.cat in
        let w1 = record w { cat = s' } in
        let (ok, w2) = dsk_write io (block_lba s' b) sec' w1 in
        if any then (ok, true, w2) else (true, false, record w1 { cat = bm_free b s' })
  ])

  -- The pointers of the first level from `i`, with `n` left: whether the disk worked, whether any is
  -- left, the sector and the world.
  unfoldable pub shrink_level :
      (n i first : ℕ) → (any : Bool) → Sector → World D → Bool × Bool × Sector × World D
  shrink_level zero i first any l1 w = (true, any, l1, w)
  shrink_level (suc n) i first any l1 w =
      let b = word_at l1 (4 * i) in
      let base = catfs_direct_blocks + catfs_ptrs_per_block + i * catfs_ptrs_per_block in
      let (ok, used, w') = shrink_ptrs b base first w in
      let step : Bool × Bool × Sector × World D =
        if b == 0
        then (true, any, l1, w)
        else if leb (base + catfs_ptrs_per_block) first
        then (true, true, l1, w)
        else if not ok
        then (false, any, l1, w')
        else if used
        then (true, true, l1, w')
        else (true, any, put_word i 0 l1, w') in
      let (ok1, any1, l1', w1) = step in
      let rest = shrink_level n (i + 1) first any1 l1' w1 in if ok1 then rest else step

  unfoldable pub shrink_indirect : (idx first : ℕ) → World D → Bool × World D
  shrink_indirect idx first w =
      let b = (w.cat.inodes idx).indirect in
      let (ok, used, w') = shrink_ptrs b catfs_direct_blocks first w in
      if b == 0 then (true, w) else if not ok || used then (ok, w') else (
        true,
        record w' { cat = set_inode w'.cat idx (record (w'.cat.inodes idx) { indirect = 0 }) },
      )

  unfoldable pub shrink_dindirect : (idx first : ℕ) → World D → Bool × World D
  shrink_dindirect idx first w =
      let d = (w.cat.inodes idx).dindirect in
      if d == 0 then (true, w) else (elim (dsk_read io (block_lba w.cat d) w) [
        | none ↦ (false, w)
        | some l1 ↦
            let (ok, any, l1', w1) = shrink_level catfs_ptrs_per_block 0 first false l1 w in
            let s' = bm_free d w1.cat in
            if not ok
            then (false, w1)
            else if any
            then dsk_write io (block_lba w1.cat d) l1' w1
            else (
              true,
              record w1 { cat = set_inode s' idx (record (s'.inodes idx) { dindirect = 0 }) },
            )
      ])

  unfoldable pub free_blocks_from : (idx first : ℕ) → World D → Bool × World D
  free_blocks_from idx first w =
      let w0 = record w { cat = free_direct_from (catfs_direct_blocks - first) first idx w.cat } in
      let (ok, w1) = shrink_indirect idx first w0 in
      if not ok then (false, w1) else shrink_dindirect idx first w1

module _ {D : Type 0} (io : DiskOps D) (now : ℕ) where
  -- The end of `catfs_truncate`: the writes, each only after the one before.
  abbrev pub commit_size : ℕ → World D → ℤ × World D
  commit_size idx w =
      let (ok1, w1) = sync_inode io idx w in
      let (ok2, w2) = sync_superblock io w1 in
      let (ok3, w3) = sync_bitmap_region io 0 (catfs_blocks_max - 1) w2 in
      let (ok4, w4) = journal_commit io w3 in
      if not ok1
      then (negsuc 0, w1)
      else if not ok2
      then (negsuc 0, w2)
      else if not ok3
      then (negsuc 0, w3)
      else ((if ok4 then pos 0 else negsuc 0), w4)

  abbrev pub set_size : (idx new_size : ℕ) → World D → World D
  set_size idx new_size w = record w {
    cat = set_inode w.cat idx (record (w.cat.inodes idx) { size = new_size; mtime = now });
  }

  unfoldable pub catfs_truncate : ℤ → (new_size : ℕ) → World D → ℤ × World D
  catfs_truncate (negsuc k) new_size w = (negsuc 0, w)
  catfs_truncate (pos idx) new_size w =
      let inode = w.cat.inodes idx in
      let (ok, w1) = journal_log io 3 idx inode.size new_size w in
      let (ok', w2) =
        free_blocks_from io idx (((new_size + sector_size - 1) % u32) / sector_size) w1 in
      if not w.cat.mounted || leb catfs_inode_max idx
      then (negsuc 0, w)
      else if inode.type == type_free || inode.type == type_dir
      then (negsuc 0, w)
      else if not ok
      then (negsuc 0, w1)
      else if not (ltb new_size inode.size)
      then commit_size idx (set_size idx new_size w1)
      else if not ok'
      then (negsuc 0, w2)
      else commit_size idx (set_size idx new_size w2)
