-- ===== src/Catfs/Volume.antt =====
-- The operations of src/catfs.c on the whole file system: syncing, formatting, the check of the journal,
-- listing, and the calls by path. The table of drives of src/disk.c is a parameter.
use atmkoala.Base.{
  ℕ, zero, suc, ◌+◌, ◌*◌, ◌-◌, ◌/◌, ◌%◌, Bool, true, false, ◌==◌, not, if◌then◌else◌, ltb, update,
  Option, none, some, List, [], ◌∷◌, ◌++◌, ℤ, pos, negsuc, is_neg,
}
use atmkoala.Catfs.{
  catfs_magic, catfs_inode_max, catfs_blocks_max, catfs_journal_slots, journal_log_lba,
  inode_table_lba, inodes_per_sector, inode_size, bitmap_lba, sector_size, type_free, type_dir,
  Inode, zero_inode, Catfs,
}
use atmkoala.Catfs.Disk.{
  DiskOps, World, dsk_read, dsk_write, put_bytes, zero_sector, inode_bytes, slot_lba, slot_offset,
  journal_flush_header, sync_superblock, sync_bitmap_region,
}
use atmkoala.Catfs.Path.{catfs_lookup, slash}
use atmkoala.Catfs.Ops.{catfs_create, catfs_unlink}
use atmkoala.Catfs.Data.{catfs_read, catfs_write}

-- `INODE_SECTORS` and `DATA_LBA`
abbrev pub inode_sectors : ℕ
inode_sectors = (catfs_inode_max + inodes_per_sector - 1) / inodes_per_sector

abbrev pub data_lba : ℕ
data_lba = bitmap_lba + (catfs_blocks_max / 8 + sector_size - 1) / sector_size

-- The names of the entries of a directory from the inode `i`, with `n` left.
unfoldable pub list_from : (n i : ℕ) → (dir_idx : ℤ) → Catfs → List (List ℕ)
list_from zero i dir_idx s = []
list_from (suc n) i dir_idx s =
    let v = s.inodes i in
    let rest = list_from n (i + 1) dir_idx s in
    let shown : List ℕ = if v.type == type_dir then v.name ++ (slash ∷ []) else v.name in
    if v.type == type_free
    then rest
    else if not (is_same_index v.parent dir_idx)
    then rest
    else shown ∷ rest
  where
    is_same_index : ℤ → ℤ → Bool
    is_same_index (pos a) (pos b) = a == b
    is_same_index (negsuc a) (negsuc b) = a == b
    is_same_index (pos a) (negsuc b) = false
    is_same_index (negsuc a) (pos b) = false

-- The names, whose number is the count; `none` for the return of -1.
unfoldable pub catfs_listdir : (dir_idx : ℤ) → Catfs → Option (List (List ℕ))
catfs_listdir dir_idx s =
    if not s.mounted then none else some (list_from catfs_inode_max 0 dir_idx s)

module _ {D : Type 0} (io : DiskOps D) (now : ℕ) (present : ℕ → Bool) where
  -- The records of the log from `slot`, with `n` left, that are not empty.
  unfoldable pub torn_from : (n slot torn : ℕ) → World D → ℕ
  torn_from zero slot torn w = torn
  torn_from (suc n) slot torn w =
      let s = slot % catfs_journal_slots in
      torn_from n (slot + 1)
        (elim (dsk_read io (slot_lba s) w) [
          | none ↦ torn
          | some sec ↦ if sec (slot_offset s) == 0 then torn else torn + 1
        ])
        w

  unfoldable pub journal_check_torn : World D → ℕ
  journal_check_torn w =
      torn_from (w.cat.jh.head - w.cat.jh.committed_seq) w.cat.jh.committed_seq 0 w

  -- The sectors of the inode table from `s`, with `n` left.
  unfoldable pub sync_inodes_from : (n s : ℕ) → World D → Bool × World D
  sync_inodes_from zero s w = (true, w)
  sync_inodes_from (suc n) s w =
      let k : ℕ =
        if ltb catfs_inode_max ((s + 1) * inodes_per_sector)
        then catfs_inode_max - s * inodes_per_sector
        else inodes_per_sector in
      let (ok, w') =
        dsk_write io (inode_table_lba + s)
          (put_bytes 0 (k * inode_size)
            (λ i.
              inode_bytes (w.cat.inodes (s * inodes_per_sector + i / inode_size)) (i % inode_size))
            zero_sector)
          w in
      let rest = sync_inodes_from n (s + 1) w' in if ok then rest else (false, w')

  unfoldable pub catfs_sync : World D → ℤ × World D
  catfs_sync w =
      let (ok1, w1) = sync_superblock io w in
      let (ok2, w2) = sync_inodes_from inode_sectors 0 w1 in
      let (ok3, w3) = sync_bitmap_region io 0 (catfs_blocks_max - 1) w2 in
      let (ok4, w4) =
        sync_superblock io
          (record w3 { cat = record w3.cat { sb = record w3.cat.sb { clean_unmount = 1 } } }) in
      let (ok5, w5) = journal_flush_header io w4 in
      if not w.cat.mounted
      then (negsuc 0, w)
      else if not ok1
      then (negsuc 0, w1)
      else if not ok2
      then (negsuc 0, w2)
      else if not ok3
      then (negsuc 0, w3)
      else if not ok4
      then (negsuc 0, w4)
      else ((if ok5 then pos 0 else negsuc 0), w5)

  -- The root directory, and the state that `catfs_format_at` fills in.
  abbrev pub root_inode : Inode
  root_inode = record zero_inode {
    name = slash ∷ [];
    type = type_dir;
    perms = 0o755;
    parent = negsuc 0;
    ctime = now;
    mtime = now;
    atime = now;
  }

  unfoldable pub fresh_catfs : (drive lba_offset : ℕ) → List ℕ → Catfs
  fresh_catfs drive lba_offset label = record {
    disk_drive = drive;
    partition_offset = lba_offset;
    sb = record {
      magic = catfs_magic;
      version = 2;
      total_blocks = catfs_blocks_max;
      free_blocks = catfs_blocks_max - 1;
      inode_count = catfs_inode_max;
      free_inodes = catfs_inode_max - 1;
      data_start_lba = data_lba;
      bitmap_lba = bitmap_lba;
      inode_table_lba = inode_table_lba;
      journal_lba = journal_log_lba;
      clean_unmount = 1;
      label = label;
    };
    jh = record { magic = catfs_magic; head = 0; committed_seq = 0 };
    inodes = update (λ i. zero_inode) 0 root_inode;
    bitmap = update (λ b. false) 0 true;
    mounted = true;
    next_seq = 0;
  }

  unfoldable pub catfs_format_at : (drive : ℤ) → (lba_offset : ℕ) → List ℕ → World D → ℤ × World D
  catfs_format_at (negsuc k) lba_offset label w = (negsuc 0, w)
  catfs_format_at (pos drive) lba_offset label w =
      if not (present drive)
      then (negsuc 0, w)
      else catfs_sync (record w { cat = fresh_catfs drive lba_offset label })

  unfoldable pub catfs_path_read :
      (path : List ℕ) (off : ℕ) → (ℕ → ℕ) → (len : ℕ) → World D → ℤ × (ℕ → ℕ) × World D
  catfs_path_read path off buf len w =
      if is_neg (catfs_lookup path w.cat)
      then (negsuc 0, buf, w)
      else catfs_read io now (catfs_lookup path w.cat) off buf len w

  unfoldable pub catfs_path_write :
      (path : List ℕ) (off : ℕ) → (ℕ → ℕ) → (len : ℕ) → World D → ℤ × World D
  catfs_path_write path off buf len w =
      let found = catfs_lookup path w.cat in
      let made = catfs_create io now path 1 w in
      let (idx, w') : ℤ × World D = if is_neg found then made else (found, w) in
      if is_neg idx then (negsuc 0, w') else catfs_write io now idx off buf len w'

  unfoldable pub catfs_path_unlink : List ℕ → World D → ℤ × World D
  catfs_path_unlink path w = catfs_unlink io now (catfs_lookup path w.cat) w
