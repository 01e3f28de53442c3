-- ===== src/Catfs/Log.antt =====
-- Where `journal_write_rec` of src/catfs.c puts its records.
use atmkoala.Base.{ℕ, ◌+◌, ◌<◌, ◌≤◌, ◌≡◌, ◌↔◌, arith}
use atmkoala.Catfs.{catfs_journal_slots, inode_table_lba, journal_log_lba, journal_log_sectors}
use atmkoala.Catfs.Disk.{slot_lba}

-- Of the slots below `CATFS_JOURNAL_SLOTS` those below 200 lie in the eight sectors of the log, and
-- the others in the first sector of the inode table.
pub slot_lba_lem :
    (slot : ℕ)
    → slot < catfs_journal_slots
    → ((journal_log_lba ≤ slot_lba slot) × (slot_lba slot < journal_log_lba + journal_log_sectors)
        ↔ slot < 200)
      × (200 ≤ slot ↔ slot_lba slot ≡ inode_table_lba)
slot_lba_lem slot lt = (
  ((λ e. omega arith), (λ e. (omega arith, omega arith))),
  ((λ e. omega arith), (λ e. omega arith)),
)
