-- ===== src/Partmgr.antt =====
-- The MBR partition tables of src/partmgr.c and src/partmgr.h: the table in memory, and its tests.
pub mod Table
pub mod Validate
pub mod Edit
mod Tests
use atmkoala.Base.{
  ℕ, zero, suc, ◌+◌, ◌-◌, ◌%◌, Bool, true, false, ◌==◌, ◌&&◌, ◌||◌, not, if◌then◌else◌, ltb, leb,
  update, ℤ, pos, negsuc, is_neg,
}

abbrev pub part_type_empty : ℕ
part_type_empty = 0

abbrev pub part_max_entries : ℕ
part_max_entries = 4

abbrev pub uint32_max : ℕ
uint32_max = 0xFFFF_FFFF

abbrev pub disk_max_drives : ℕ
disk_max_drives = 4

-- `mbr_entry_t`; the three bytes of a CHS address are one number.
pub record MbrEntry : Type 0 where
  pub status : ℕ
  pub chs_start : ℕ
  pub type : ℕ
  pub chs_end : ℕ
  pub lba_start : ℕ
  pub sector_count : ℕ

abbrev pub zero_entry : MbrEntry
zero_entry = record {
  status = 0;
  chs_start = 0;
  type = 0;
  chs_end = 0;
  lba_start = 0;
  sector_count = 0;
}

-- `mbr_table_t`
pub record MbrTable : Type 0 where
  pub entries : ℕ → MbrEntry
  pub valid : Bool

-- `disk_drives[drive]`, as far as it is read here.
pub record Drive : Type 0 where
  pub present : Bool
  pub sectors : ℕ

abbrev pub mbr_init_empty : MbrTable
mbr_init_empty = record { entries = λ i. zero_entry; valid = true }

-- `i == ignore_idx` for an `ignore_idx` that may be negative.
abbrev pub is_idx : ℕ → ℤ → Bool
is_idx i (pos n) = i == n
is_idx i (negsuc n) = false

-- A range of sectors that is empty, or that ends above `UINT32_MAX`.
abbrev pub bad_range : (lba_start sectors : ℕ) → Bool
bad_range lba_start sectors = sectors == 0 || ltb (uint32_max - sectors) lba_start

-- The loop of `mbr_overlaps` from the entry `i`, with `n` entries left.
unfoldable pub overlaps_from :
    (n i : ℕ) → MbrTable → (lba_start sectors : ℕ) → (ignore_idx : ℤ) → Bool
overlaps_from zero i tbl lba_start sectors ignore_idx = false
overlaps_from (suc n) i tbl lba_start sectors ignore_idx =
    let e = tbl.entries i in
    let new_end = (lba_start + sectors) % (uint32_max + 1) in
    let e_end = (e.lba_start + e.sector_count) % (uint32_max + 1) in
    let rest = overlaps_from n (i + 1) tbl lba_start sectors ignore_idx in
    if is_idx i ignore_idx
    then rest
    else if e.type == part_type_empty
    then rest
    else if bad_range e.lba_start e.sector_count
    then true
    else if ltb lba_start e_end && ltb e.lba_start new_end
    then true
    else rest

unfoldable pub mbr_overlaps : MbrTable → (lba_start sectors : ℕ) → (ignore_idx : ℤ) → Bool
mbr_overlaps tbl lba_start sectors ignore_idx =
    if bad_range lba_start sectors
    then true
    else overlaps_from part_max_entries 0 tbl lba_start sectors ignore_idx

-- The loop of `mbr_validate` from the entry `i`, with `n` entries left.
unfoldable pub validate_from : (n i : ℕ) → MbrTable → ℤ
validate_from zero i tbl = pos 0
validate_from (suc n) i tbl =
    let e = tbl.entries i in
    let rest = validate_from n (i + 1) tbl in
    if e.type == part_type_empty
    then if not (e.status == 0) || not (e.lba_start == 0) || not (e.sector_count == 0)
      then negsuc 0
      else rest
    else if not (e.status == 0) && not (e.status == 0x80)
    then negsuc 0
    else if e.sector_count == 0
        || ltb e.lba_start 1
        || ltb (uint32_max - e.sector_count) e.lba_start
    then negsuc 0
    else if mbr_overlaps tbl e.lba_start e.sector_count (pos i)
    then negsuc 0
    else rest

unfoldable pub mbr_validate : MbrTable → ℤ
mbr_validate tbl = validate_from part_max_entries 0 tbl

-- The loop of `mbr_validate_drive` from the entry `i`, with `n` entries left.
unfoldable pub capacity_from : (n i : ℕ) → MbrTable → (capacity : ℕ) → ℤ
capacity_from zero i tbl capacity = pos 0
capacity_from (suc n) i tbl capacity =
    let e = tbl.entries i in
    let rest = capacity_from n (i + 1) tbl capacity in
    if not (e.type == part_type_empty) && ltb capacity (e.lba_start + e.sector_count)
    then negsuc 0
    else rest

unfoldable pub mbr_validate_drive : (ℕ → Drive) → (drive : ℤ) → MbrTable → ℤ
mbr_validate_drive disk_drives (negsuc n) tbl = negsuc 0
mbr_validate_drive disk_drives (pos drive) tbl =
    let capacity = (disk_drives drive).sectors in
    if is_neg (mbr_validate tbl) || leb disk_max_drives drive || not (disk_drives drive).present
    then negsuc 0
    else if capacity == 0
    then negsuc 0
    else capacity_from part_max_entries 0 tbl capacity

-- The loop of `mbr_add_partition` from the entry `i`, with `n` entries left.
unfoldable pub add_from :
    (n i : ℕ) → MbrTable → (type lba_start sectors : ℕ) → (bootable : Bool) → ℤ × MbrTable
add_from zero i tbl type lba_start sectors bootable = (negsuc 0, tbl)
add_from (suc n) i tbl type lba_start sectors bootable =
    let rest = add_from n (i + 1) tbl type lba_start sectors bootable in
    if not ((tbl.entries i).type == part_type_empty) then rest else (
      pos i,
      record tbl {
        entries = update tbl.entries i (record {
          status = if bootable then 0x80 else 0;
          chs_start = 0;
          type = type;
          chs_end = 0;
          lba_start = lba_start;
          sector_count = sectors;
        });
      },
    )

unfoldable pub mbr_add_partition :
    MbrTable → (type lba_start sectors : ℕ) → (bootable : Bool) → ℤ × MbrTable
mbr_add_partition tbl type lba_start sectors bootable =
    if ltb lba_start 1
    then (negsuc 0, tbl)
    else if mbr_overlaps tbl lba_start sectors (negsuc 0)
    then (negsuc 0, tbl)
    else add_from part_max_entries 0 tbl type lba_start sectors bootable

unfoldable pub mbr_remove_partition : MbrTable → ℤ → ℤ × MbrTable
mbr_remove_partition tbl (negsuc n) = (negsuc 0, tbl)
mbr_remove_partition tbl (pos idx) =
    if leb part_max_entries idx
    then (negsuc 0, tbl)
    else (pos 0, record tbl { entries = update tbl.entries idx zero_entry })
