-- ===== src/Partmgr/Tests.antt =====
-- A table with one partition for the theorems on src/partmgr.c.
use atmkoala.Base.{ℕ, ◌<◌, ◌≡◌, ◌↔◌, refl, true, false, pos, negsuc, arith, update}
use atmkoala.Partmgr.{
  MbrEntry, MbrTable, zero_entry, mbr_init_empty, mbr_overlaps, mbr_validate, mbr_add_partition,
  mbr_remove_partition, is_idx, part_max_entries,
}
use atmkoala.Partmgr.Table.{InRange, Clear, IsTable, IsWords, mbr_overlaps_lem}
use atmkoala.Partmgr.Validate.{mbr_validate_lem}
use atmkoala.Partmgr.Edit.{AddsOrNot, new_entry, mbr_add_partition_lem, mbr_add_partition-IsTable}

abbrev one_partition : MbrTable
one_partition = record mbr_init_empty {
  entries = update (λ i. zero_entry) 0 (new_entry 0xC5 2048 4096 false);
}

one_partition-IsWords : IsWords one_partition
one_partition-IsWords i = ground arith

valid_by_run : mbr_validate one_partition ≡ pos 0
unfolding mbr_validate atmkoala.Partmgr.validate_from mbr_overlaps atmkoala.Partmgr.overlaps_from
valid_by_run = refl

one_partition-IsTable : IsTable one_partition
one_partition-IsTable = (mbr_validate_lem one_partition one_partition-IsWords).0 valid_by_run

mbr_overlaps_lem_example : mbr_overlaps one_partition 8192 100 (negsuc 0) ≡ false ↔ (
    InRange 8192 100
    × ((j : ℕ)
        → j < part_max_entries
        → is_idx j (negsuc 0) ≡ false
        → Clear (one_partition.entries j) 8192 100))
mbr_overlaps_lem_example =
    mbr_overlaps_lem one_partition 8192 100 (negsuc 0) one_partition-IsWords (omega arith)

mbr_validate_lem_example : mbr_validate one_partition ≡ pos 0 ↔ IsTable one_partition
mbr_validate_lem_example = mbr_validate_lem one_partition one_partition-IsWords

mbr_add_partition_lem_example :
    AddsOrNot one_partition 0x83 8192 100 true (mbr_add_partition one_partition 0x83 8192 100 true)
mbr_add_partition_lem_example = mbr_add_partition_lem one_partition 0x83 8192 100 true

mbr_add_partition-IsTable_example : IsTable (mbr_add_partition one_partition 0x83 8192 100 true).1
mbr_add_partition-IsTable_example =
    mbr_add_partition-IsTable one_partition 0x83 8192 100 true one_partition-IsTable
      one_partition-IsWords (omega arith) (omega arith)
