-- ===== src/Catfs.antt =====
-- The state of src/catfs.c and src/catfs.h, the bitmap, and the layout of the disk. The bitmap is
-- kept by bits: bit `b % 8` of byte `b / 8` in the source is the bit `b` here. A name is the list of
-- its bytes, without the null at its end.
pub mod Disk
pub mod Path
pub mod Ops
pub mod Bitmap
pub mod Log
pub mod Data
pub mod Volume
pub mod Format
mod Tests
use atmkoala.Base.{
  ℕ, zero, suc, ◌+◌, ◌*◌, ◌-◌, ◌/◌, ◌%◌, ◌^◌, Bool, true, false, ◌==◌, ◌&&◌, ◌||◌, not,
  if◌then◌else◌, ltb, leb, update, List, [], ◌∷◌, ℤ, pos, negsuc,
}

abbrev pub catfs_magic : ℕ
catfs_magic = 0xCAFE_4002

abbrev pub sector_size : ℕ
sector_size = 512

abbrev pub catfs_inode_max : ℕ
catfs_inode_max = 256

abbrev pub catfs_blocks_max : ℕ
catfs_blocks_max = 16384

abbrev pub catfs_name_max : ℕ
catfs_name_max = 56

abbrev pub catfs_direct_blocks : ℕ
catfs_direct_blocks = 16

abbrev pub catfs_ptrs_per_block : ℕ
catfs_ptrs_per_block = 128

abbrev pub catfs_max_file_blocks : ℕ
catfs_max_file_blocks = 16528

abbrev pub type_free : ℕ
type_free = 0

abbrev pub type_dir : ℕ
type_dir = 2

-- `sizeof(catfs_journal_rec_t)`, `CATFS_JOURNAL_SLOTS` and `sizeof(catfs_inode_t)`.
abbrev pub journal_rec_size : ℕ
journal_rec_size = 20

abbrev pub catfs_journal_slots : ℕ
catfs_journal_slots = 8 * sector_size / journal_rec_size

abbrev pub inode_size : ℕ
inode_size = 151

abbrev pub journal_log_lba : ℕ
journal_log_lba = 2

abbrev pub journal_log_sectors : ℕ
journal_log_sectors = 8

abbrev pub inode_table_lba : ℕ
inode_table_lba = journal_log_lba + journal_log_sectors

abbrev pub inodes_per_sector : ℕ
inodes_per_sector = sector_size / inode_size

abbrev pub bitmap_lba : ℕ
bitmap_lba = inode_table_lba + (catfs_inode_max + inodes_per_sector - 1) / inodes_per_sector

abbrev pub u32 : ℕ
u32 = 0x1_0000_0000

abbrev pub Sector : Type 0
Sector = ℕ → ℕ

-- `catfs_inode_t`
pub record Inode : Type 0 where
  pub name : List ℕ
  pub type : ℕ
  pub perms : ℕ
  pub size : ℕ
  pub parent : ℤ
  pub ctime : ℕ
  pub mtime : ℕ
  pub atime : ℕ
  pub blocks : ℕ → ℕ
  pub indirect : ℕ
  pub dindirect : ℕ

abbrev pub zero_inode : Inode
zero_inode = record {
  name = [];
  type = 0;
  perms = 0;
  size = 0;
  parent = pos 0;
  ctime = 0;
  mtime = 0;
  atime = 0;
  blocks = λ i. 0;
  indirect = 0;
  dindirect = 0;
}

-- `catfs_super_t`
pub record Super : Type 0 where
  pub magic : ℕ
  pub version : ℕ
  pub total_blocks : ℕ
  pub free_blocks : ℕ
  pub inode_count : ℕ
  pub free_inodes : ℕ
  pub data_start_lba : ℕ
  pub bitmap_lba : ℕ
  pub inode_table_lba : ℕ
  pub journal_lba : ℕ
  pub clean_unmount : ℕ
  pub label : List ℕ

-- `catfs_journal_hdr_t`
pub record JournalHdr : Type 0 where
  pub magic : ℕ
  pub head : ℕ
  pub committed_seq : ℕ

-- `catfs_journal_rec_t`
pub record JournalRec : Type 0 where
  pub type : ℕ
  pub inode_idx : ℕ
  pub a : ℕ
  pub b : ℕ
  pub seq : ℕ

-- `catfs_state_t`
pub record Catfs : Type 0 where
  pub disk_drive : ℕ
  pub partition_offset : ℕ
  pub sb : Super
  pub jh : JournalHdr
  pub inodes : ℕ → Inode
  pub bitmap : ℕ → Bool
  pub mounted : Bool
  pub next_seq : ℕ

abbrev pub set_inode : Catfs → ℕ → Inode → Catfs
set_inode s i v = record s { inodes = update s.inodes i v }

-- `catfs.sb.free_inodes++` and `--`, in 32 bits.
abbrev pub inc_free_inodes : Catfs → Catfs
inc_free_inodes s = record s { sb = record s.sb { free_inodes = (s.sb.free_inodes + 1) % u32 } }

abbrev pub dec_free_inodes : Catfs → Catfs
dec_free_inodes s = record s {
  sb = record s.sb { free_inodes = (s.sb.free_inodes + u32 - 1) % u32 };
}

-- The loop of `bm_alloc` from the block `i`, with `n` blocks left.
unfoldable pub bm_alloc_from : (n i : ℕ) → Catfs → ℤ × Catfs
bm_alloc_from zero i s = (negsuc 0, s)
bm_alloc_from (suc n) i s =
    let rest = bm_alloc_from n (i + 1) s in
    if not (s.bitmap i)
    then (
      pos i,
      record s {
        bitmap = update s.bitmap i true;
        sb = record s.sb { free_blocks = s.sb.free_blocks - 1 };
      },
    )
    else rest

unfoldable pub bm_alloc : Catfs → ℤ × Catfs
bm_alloc s = bm_alloc_from catfs_blocks_max 0 s

unfoldable pub bm_free : ℕ → Catfs → Catfs
bm_free b s =
    if s.bitmap b
    then record s {
      bitmap = update s.bitmap b false;
      sb = record s.sb { free_blocks = (s.sb.free_blocks + 1) % u32 };
    }
    else s

abbrev pub block_lba : Catfs → ℕ → ℕ
block_lba s blk = (s.sb.data_start_lba + blk) % u32
