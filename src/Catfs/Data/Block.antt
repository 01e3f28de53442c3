-- ===== src/Catfs/Data/Block.antt =====
-- `resolve_block` of src/catfs.c: from the index of a block in a file to its number on the disk.
use atmkoala.Base.{
  ℕ, ◌*◌, ◌-◌, ◌/◌, ◌%◌, Bool, true, false, ◌==◌, not, if◌then◌else◌, ltb, leb, update, Option,
  none, some, pos, negsuc,
}
use atmkoala.Catfs.{
  catfs_direct_blocks, catfs_ptrs_per_block, Sector, set_inode, bm_alloc, block_lba,
}
use atmkoala.Catfs.Disk.{
  DiskOps, World, dsk_read, dsk_write, put_bytes, byte_of, word_at, zero_sector,
}

-- `ptrs[i] = v;`
abbrev pub put_word : (i v : ℕ) → Sector → Sector
put_word i v sec = put_bytes (4 * i) 4 (byte_of v) sec

-- A block pointer that is there, or else a new block if `create` is set; whether it is new.
unfoldable pub obtain :
    {D : Type 0} → (b : ℕ) → (create : Bool) → World D → Option (ℕ × Bool) × World D
obtain b create w =
    let r = bm_alloc w.cat in
    if not (b == 0) then (some (b, false), w) else if not create then (none, w) else (elim r.0 [
      | negsuc k ↦ (none, record w { cat = r.1 })
      | pos nb ↦ (some (nb, true), record w { cat = r.1 })
    ])

module _ {D : Type 0} (io : DiskOps D) where
  -- The pointer `j` of the sector `sec` of the block `b`; a new one is written back.
  unfoldable pub ptr_in :
      (b : ℕ) → Sector → (j : ℕ) → (create : Bool) → World D → Option ℕ × World D
  ptr_in b sec j create w =
      let r = obtain (word_at sec (4 * j)) create w in
      (elim r.0 [
        | none ↦ (none, r.1)
        | some (v, false) ↦ (some v, r.1)
        | some (v, true) ↦
            let (ok, w') = dsk_write io (block_lba r.1.cat b) (put_word j v sec) r.1 in
            if ok then (some v, w') else (none, w')
      ])

  unfoldable pub resolve_direct : (idx blk_i : ℕ) → (create : Bool) → World D → Option ℕ × World D
  resolve_direct idx blk_i create w =
      let r = obtain ((w.cat.inodes idx).blocks blk_i) create w in
      let v = r.1.cat.inodes idx in
      (elim r.0 [
        | none ↦ (none, r.1)
        | some (b, false) ↦ (some b, r.1)
        | some (b, true) ↦ (
          some b,
          record r.1 {
            cat = set_inode r.1.cat idx (record v { blocks = update v.blocks blk_i b });
          },
        )
      ])

  -- A new pointer block is filled with zeros, whether or not the disk accepts the write.
  abbrev pub clear_block : ℕ → World D → World D
  clear_block b w = (dsk_write io (block_lba w.cat b) zero_sector w).1

  unfoldable pub read_ptr : (b j : ℕ) → (create : Bool) → World D → Option ℕ × World D
  read_ptr b j create w = (elim (dsk_read io (block_lba w.cat b) w) [
    | none ↦ (none, w)
    | some sec ↦ ptr_in b sec j create w
  ])

  unfoldable pub resolve_indirect : (idx j : ℕ) → (create : Bool) → World D → Option ℕ × World D
  resolve_indirect idx j create w =
      let r = obtain (w.cat.inodes idx).indirect create w in
      let v = r.1.cat.inodes idx in
      (elim r.0 [
        | none ↦ (none, r.1)
        | some (b, false) ↦ read_ptr b j create r.1
        | some (b, true) ↦
            read_ptr b j create (
              clear_block b
                (record r.1 { cat = set_inode r.1.cat idx (record v { indirect = b }) }))
      ])

  -- Through the first level, whose sector is `l1`, of the block `d`.
  unfoldable pub resolve_level :
      (d : ℕ) → Sector → (l1_idx l2_idx : ℕ) → (create : Bool) → World D → Option ℕ × World D
  resolve_level d l1 l1_idx l2_idx create w =
      let r = obtain (word_at l1 (4 * l1_idx)) create w in
      (elim r.0 [
        | none ↦ (none, r.1)
        | some (b, false) ↦ read_ptr b l2_idx create r.1
        | some (b, true) ↦
            let (ok, w') = dsk_write io (block_lba r.1.cat d) (put_word l1_idx b l1) r.1 in
            let rest = read_ptr b l2_idx create (clear_block b w') in
            if ok then rest else (none, w')
      ])

  unfoldable pub read_level : (d l1_idx l2_idx : ℕ) → (create : Bool) → World D → Option ℕ × World D
  read_level d l1_idx l2_idx create w = (elim (dsk_read io (block_lba w.cat d) w) [
    | none ↦ (none, w)
    | some l1 ↦ resolve_level d l1 l1_idx l2_idx create w
  ])

  unfoldable pub resolve_dindirect :
      (idx l1_idx l2_idx : ℕ) → (create : Bool) → World D → Option ℕ × World D
  resolve_dindirect idx l1_idx l2_idx create w =
      let r = obtain (w.cat.inodes idx).dindirect create w in
      let v = r.1.cat.inodes idx in
      (elim r.0 [
        | none ↦ (none, r.1)
        | some (d, false) ↦ read_level d l1_idx l2_idx create r.1
        | some (d, true) ↦ read_level d l1_idx l2_idx create (
            clear_block d (record r.1 { cat = set_inode r.1.cat idx (record v { dindirect = d }) }))
      ])

  unfoldable pub resolve_block : (idx blk_i : ℕ) → (create : Bool) → World D → Option ℕ × World D
  resolve_block idx blk_i create w =
      let j = blk_i - catfs_direct_blocks in
      let m = j - catfs_ptrs_per_block in
      if ltb blk_i catfs_direct_blocks
      then resolve_direct idx blk_i create w
      else if ltb j catfs_ptrs_per_block
      then resolve_indirect idx j create w
      else if leb catfs_ptrs_per_block (m / catfs_ptrs_per_block)
      then (none, w)
      else resolve_dindirect idx (m / catfs_ptrs_per_block) (m % catfs_ptrs_per_block) create w
