-- ===== src/Catfs/Data.antt =====
-- The data blocks of files of src/catfs.c: `resolve_block`, `catfs_read` and `catfs_write`.
pub mod Block
pub mod Truncate
pub mod Bounds
use atmkoala.Base.{
  ℕ, zero, suc, ◌+◌, ◌-◌, ◌/◌, ◌%◌, Bool, true, false, ◌==◌, ◌||◌, not, if◌then◌else◌, ltb, leb,
  Option, none, some, ℤ, pos, negsuc,
}
use atmkoala.Catfs.{
  catfs_inode_max, catfs_max_file_blocks, catfs_blocks_max, sector_size, type_free, type_dir, u32,
  Sector, Inode, Catfs, set_inode, block_lba,
}
use atmkoala.Catfs.Disk.{
  DiskOps, World, dsk_read, dsk_write, put_bytes, zero_sector, journal_log, journal_commit,
  sync_inode, sync_superblock, sync_bitmap_region,
}
use atmkoala.Catfs.Data.Block.{resolve_block}

-- The bytes of this round: no more than are left of the sector, or of the request.
abbrev pub chunk_of : (blk_off left : ℕ) → ℕ
chunk_of blk_off left = if ltb (sector_size - blk_off) left then sector_size - blk_off else left

module _ {D : Type 0} (io : DiskOps D) (now : ℕ) where
  -- The loop of `catfs_read`, with at most `n` rounds: the bytes done, the buffer and the world.
  unfoldable pub read_loop : (n idx offset len done : ℕ) → (ℕ → ℕ) → World D → ℕ × (ℕ → ℕ) × World D
  read_loop zero idx offset len done buf w = (done, buf, w)
  read_loop (suc n) idx offset len done buf w =
      let blk_off = ((offset + done) % u32) % sector_size in
      let (phys, w1) = resolve_block io idx (((offset + done) % u32) / sector_size) false w in
      let chunk = chunk_of blk_off (len - done) in
      if not (ltb done len) then (done, buf, w) else (elim phys [
        | none ↦ (done, buf, w1)
        | some b ↦ (elim (dsk_read io (block_lba w1.cat b) w1) [
          | none ↦ (done, buf, w1)
          | some tmp ↦
              read_loop n idx offset len (done + chunk)
                (put_bytes done chunk (λ i. tmp (blk_off + i)) buf) w1
        ])
      ])

  unfoldable pub catfs_read :
      (idx : ℤ) → (offset : ℕ) → (ℕ → ℕ) → (len : ℕ) → World D → ℤ × (ℕ → ℕ) × World D
  catfs_read (negsuc k) offset buf len w = (negsuc 0, buf, w)
  catfs_read (pos idx) offset buf len w =
      let inode = w.cat.inodes idx in
      let len' : ℕ = if ltb inode.size ((offset + len) % u32) then inode.size - offset else len in
      let (done, buf', w') = read_loop len' idx offset len' 0 buf w in
      let v = w'.cat.inodes idx in
      if not w.cat.mounted || leb catfs_inode_max idx
      then (negsuc 0, buf, w)
      else if inode.type == type_free
      then (negsuc 0, buf, w)
      else if leb inode.size offset
      then (pos 0, buf, w)
      else (pos done, buf', record w' { cat = set_inode w'.cat idx (record v { atime = now }) })

  -- The sector that a round of `catfs_write` starts from. A round that writes all of it reads nothing.
  abbrev pub old_sector : (blk_off left lba : ℕ) → World D → Sector
  old_sector blk_off left lba w =
      if not (blk_off == 0) || ltb left sector_size
      then (elim (dsk_read io lba w) [ none ↦ zero_sector | some tmp ↦ tmp ])
      else zero_sector

  -- The loop of `catfs_write`, with at most `n` rounds.
  unfoldable pub write_loop : (n idx offset len written : ℕ) → (ℕ → ℕ) → World D → ℕ × World D
  write_loop zero idx offset len written buf w = (written, w)
  write_loop (suc n) idx offset len written buf w =
      let blk_i = ((offset + written) % u32) / sector_size in
      let blk_off = ((offset + written) % u32) % sector_size in
      let (phys, w1) = resolve_block io idx blk_i true w in
      let chunk = chunk_of blk_off (len - written) in
      if not (ltb written len)
      then (written, w)
      else if leb catfs_max_file_blocks blk_i
      then (written, w)
      else (elim phys [
        | none ↦ (written, w1)
        | some b ↦
            let lba = block_lba w1.cat b in
            let (ok, w2) =
              dsk_write io lba
                (put_bytes blk_off chunk (λ i. buf (written + i))
                  (old_sector blk_off (len - written) lba w1))
                w1 in
            let rest = write_loop n idx offset len (written + chunk) buf w2 in
            if ok then rest else (written, w2)
      ])

  unfoldable pub catfs_write :
      (idx : ℤ) → (offset : ℕ) → (ℕ → ℕ) → (len : ℕ) → World D → ℤ × World D
  catfs_write (negsuc k) offset buf len w = (negsuc 0, w)
  catfs_write (pos idx) offset buf len w =
      let inode = w.cat.inodes idx in
      let (written, w1) = write_loop len idx offset len 0 buf w in
      let end = (offset + written) % u32 in
      let w2 = (journal_log io 3 idx (w1.cat.inodes idx).size end w1).1 in
      let v = w2.cat.inodes idx in
      let size' : ℕ = if ltb v.size end then end else v.size in
      let w3 = record w2 { cat = set_inode w2.cat idx (record v { size = size'; mtime = now }) } in
      let w4 = (sync_inode io idx w3).1 in
      let w5 = (sync_superblock io w4).1 in
      let w6 = (sync_bitmap_region io 0 (catfs_blocks_max - 1) w5).1 in
      let w7 = (journal_commit io w6).1 in
      if not w.cat.mounted || leb catfs_inode_max idx
      then (negsuc 0, w)
      else if inode.type == type_free || inode.type == type_dir
      then (negsuc 0, w)
      else (pos written, (if ltb 0 written then w7 else w1))
