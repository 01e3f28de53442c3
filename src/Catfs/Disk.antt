-- ===== src/Catfs/Disk.antt =====
-- The accesses to the disk of src/catfs.c, the journal, and the writing of the metadata. The sector
-- transfers of src/disk.c and the clock are parameters.
use atmkoala.Base.{
  ℕ, zero, suc, ◌+◌, ◌*◌, ◌-◌, ◌/◌, ◌%◌, ◌^◌, Bool, true, false, ◌==◌, ◌&&◌, if◌then◌else◌, ltb,
  leb, [], ◌∷◌, ℤ, pos, negsuc, Option, none, some, get_or,
}
use atmkoala.Catfs.{
  catfs_magic, sector_size, catfs_blocks_max, catfs_journal_slots, journal_rec_size, inode_size,
  journal_log_lba, inode_table_lba, inodes_per_sector, bitmap_lba, u32, Sector, Inode, Super,
  JournalHdr, JournalRec, Catfs,
}

-- `disk_read_sector` and `disk_write_sector`: what is read, or nothing on an error; whether the write
-- succeeded.
pub record DiskOps (D : Type 0) : Type 0 where
  pub read : (drive lba : ℕ) → D → Option Sector
  pub write : (drive lba : ℕ) → Sector → D → Bool × D

-- The mounted file system, and the disks.
pub record World (D : Type 0) : Type 0 where
  pub cat : Catfs
  pub disk : D

-- Byte `k` of a little-endian word.
abbrev pub byte_of : (v k : ℕ) → ℕ
byte_of v k = (v / 256 ^ k) % 256

abbrev pub word_at : Sector → ℕ → ℕ
word_at sec i = sec i + 256 * sec (i + 1) + 65536 * sec (i + 2) + 16777216 * sec (i + 3)

-- `kmemcpy(sec + off, src, n)`
unfoldable pub put_bytes : (off n : ℕ) → (ℕ → ℕ) → Sector → Sector
put_bytes off n src sec i = if leb off i && ltb i (off + n) then src (i - off) else sec i

abbrev pub zero_sector : Sector
zero_sector i = 0

-- An `int32_t` as its 32 bits.
abbrev pub word_of : ℤ → ℕ
word_of (pos n) = n % u32
word_of (negsuc n) = u32 - 1 - n

unfoldable pub rec_bytes : JournalRec → ℕ → ℕ
rec_bytes r i =
    if i == 0
    then r.type
    else if ltb i 4
    then 0
    else if ltb i 8
    then byte_of r.inode_idx (i - 4)
    else if ltb i 12
    then byte_of r.a (i - 8)
    else if ltb i 16
    then byte_of r.b (i - 12)
    else byte_of r.seq (i - 16)

unfoldable pub hdr_bytes : JournalHdr → ℕ → ℕ
hdr_bytes h i =
    if ltb i 4
    then byte_of h.magic i
    else if ltb i 8
    then byte_of h.head (i - 4)
    else if ltb i 12
    then byte_of h.committed_seq (i - 8)
    else 0

unfoldable pub super_bytes : Super → ℕ → ℕ
super_bytes b i =
    let words =
      b.magic ∷ b.version ∷ b.total_blocks ∷ b.free_blocks ∷ b.inode_count ∷ b.free_inodes
      ∷ b.data_start_lba ∷ b.bitmap_lba ∷ b.inode_table_lba ∷ b.journal_lba ∷ b.clean_unmount
      ∷ [] in
    if ltb i 44
    then byte_of (get_or words (i / 4) 0) (i % 4)
    else if ltb i 76
    then get_or b.label (i - 44) 0
    else 0

unfoldable pub inode_bytes : Inode → ℕ → ℕ
inode_bytes n i =
    if ltb i 56
    then get_or n.name i 0
    else if i == 56
    then n.type
    else if ltb i 59
    then byte_of n.perms (i - 57)
    else if ltb i 63
    then byte_of n.size (i - 59)
    else if ltb i 67
    then byte_of (word_of n.parent) (i - 63)
    else if ltb i 71
    then byte_of n.ctime (i - 67)
    else if ltb i 75
    then byte_of n.mtime (i - 71)
    else if ltb i 79
    then byte_of n.atime (i - 75)
    else if ltb i 143
    then byte_of (n.blocks ((i - 79) / 4)) ((i - 79) % 4)
    else if ltb i 147
    then byte_of n.indirect (i - 143)
    else byte_of n.dindirect (i - 147)

abbrev bit : Bool → ℕ
bit true = 1
bit false = 0

-- Byte `k` of the bitmap.
unfoldable pub bitmap_byte : (ℕ → Bool) → ℕ → ℕ
bitmap_byte m k =
    bit (m (8 * k))
    + 2 * bit (m (8 * k + 1))
    + 4 * bit (m (8 * k + 2))
    + 8 * bit (m (8 * k + 3))
    + 16 * bit (m (8 * k + 4))
    + 32 * bit (m (8 * k + 5))
    + 64 * bit (m (8 * k + 6))
    + 128 * bit (m (8 * k + 7))

-- The sector of the log that takes the record in `slot`, and the place in it.
abbrev pub slot_lba : ℕ → ℕ
slot_lba slot = journal_log_lba + slot / (sector_size / journal_rec_size)

abbrev pub slot_offset : ℕ → ℕ
slot_offset slot = slot % (sector_size / journal_rec_size) * journal_rec_size

module _ {D : Type 0} (io : DiskOps D) where
  abbrev pub dsk_read : ℕ → World D → Option Sector
  dsk_read lba w = io.read w.cat.disk_drive ((w.cat.partition_offset + lba) % u32) w.disk

  abbrev pub dsk_write : ℕ → Sector → World D → Bool × World D
  dsk_write lba sec w =
      let r = io.write w.cat.disk_drive ((w.cat.partition_offset + lba) % u32) sec w.disk in
      (r.0, record w { disk = r.1 })

  unfoldable pub journal_write_rec : JournalRec → World D → Bool × World D
  journal_write_rec r w =
      let slot = w.cat.jh.head % catfs_journal_slots in
      (elim (dsk_read (slot_lba slot) w) [
        | none ↦ (false, w)
        | some sec ↦
            let (ok, w') =
              dsk_write (slot_lba slot)
                (put_bytes (slot_offset slot) journal_rec_size (rec_bytes r) sec) w in
            if ok
            then (
              true,
              record w' {
                cat = record w'.cat { jh = record w'.cat.jh { head = (w'.cat.jh.head + 1) % u32 } };
              },
            )
            else (false, w')
      ])

  unfoldable pub journal_log : (type inode_idx a b : ℕ) → World D → Bool × World D
  journal_log type inode_idx a b w =
      let seq = (w.cat.next_seq + 1) % u32 in
      journal_write_rec (record { type = type; inode_idx = inode_idx; a = a; b = b; seq = seq })
        (record w { cat = record w.cat { next_seq = seq } })

  unfoldable pub journal_flush_header : World D → Bool × World D
  journal_flush_header w =
      let w' = record w { cat = record w.cat { jh = record w.cat.jh { magic = catfs_magic } } } in
      dsk_write 1 (hdr_bytes w'.cat.jh) w'

  unfoldable pub journal_commit : World D → Bool × World D
  journal_commit w =
      journal_flush_header (record w {
        cat = record w.cat { jh = record w.cat.jh { committed_seq = w.cat.next_seq } };
      })

  unfoldable pub sync_superblock : World D → Bool × World D
  sync_superblock w = dsk_write 0 (super_bytes w.cat.sb) w

  unfoldable pub sync_inode : ℕ → World D → Bool × World D
  sync_inode idx w =
      let lba = inode_table_lba + idx / inodes_per_sector in
      (elim (dsk_read lba w) [
        | none ↦ (false, w)
        | some sec ↦
            dsk_write lba
              (put_bytes (idx % inodes_per_sector * inode_size) inode_size
                (inode_bytes (w.cat.inodes idx)) sec)
              w
      ])

  -- The loop of `sync_bitmap_region` from the sector `s`, with `n` sectors left.
  unfoldable pub sync_bitmap_from : (n s : ℕ) → World D → Bool × World D
  sync_bitmap_from zero s w = (true, w)
  sync_bitmap_from (suc n) s w =
      let avail = catfs_blocks_max / 8 - s * sector_size in
      let k : ℕ = if ltb avail sector_size then avail else sector_size in
      let (ok, w') =
        dsk_write (bitmap_lba + s)
          (put_bytes 0 k (λ i. bitmap_byte w.cat.bitmap (s * sector_size + i)) zero_sector) w in
      let rest = sync_bitmap_from n (s + 1) w' in if ok then rest else (false, w')

  unfoldable pub sync_bitmap_region : (first_block last_block : ℕ) → World D → Bool × World D
  sync_bitmap_region first_block last_block w =
      let first_sector = first_block / 8 / sector_size in
      let last_sector = last_block / 8 / sector_size in
      sync_bitmap_from (last_sector + 1 - first_sector) first_sector w
