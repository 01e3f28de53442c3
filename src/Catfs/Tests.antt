-- ===== src/Catfs/Tests.antt =====
-- A small file system for the theorems on src/catfs.c: the root, the directory /a in inode 1, and the
-- file /a/b in inode 2, on a disk that never fails.
use atmkoala.Base.{
  ◌≢◌, ℕ, ◌<◌, ◌≡◌, inl, inr, refl, true, ◌==◌, if◌then◌else◌, List, [], ◌∷◌, pos, negsuc, some,
  update, arith, Bool-cases,
}
use atmkoala.Catfs.{
  type_free, Sector, Inode, zero_inode, Super, Catfs, catfs_magic, catfs_inode_max, type_dir,
  bm_alloc, bm_alloc_from,
}
use atmkoala.Catfs.Disk.{DiskOps, World}
use atmkoala.Catfs.Data.{catfs_read, read_loop}
use atmkoala.Catfs.Data.Bounds.{ReadsWithin, catfs_read_lem, read_loop-enough}
use atmkoala.Catfs.Volume.{catfs_format_at}
use atmkoala.Catfs.Format.{catfs_format_at-HasParents}
use atmkoala.Catfs.Path.{
  catfs_lookup, lookup_walk, split_last, last_slash, is_same, next_comp, find_child,
}
use atmkoala.Catfs.Ops.{catfs_create, catfs_unlink, catfs_rename}
use atmkoala.Catfs.Ops.Parents.{HasParents, catfs_unlink-HasParents}
use atmkoala.Catfs.Ops.Moves.{catfs_create-HasParents, catfs_rename-HasParents}

abbrev test_io : DiskOps (ℕ → Sector)
test_io = record {
  read = λ drive lba d. some (d lba);
  write = λ drive lba sec d. (true, update d lba sec);
}

abbrev test_inodes : ℕ → Inode
test_inodes i =
    if i == 0
    then record zero_inode { type = 2; parent = negsuc 0; name = 47 ∷ [] }
    else if i == 1
    then record zero_inode { type = 2; parent = pos 0; name = 97 ∷ [] }
    else if i == 2
    then record zero_inode { type = 1; parent = pos 1; name = 98 ∷ [] }
    else zero_inode

abbrev test_super : Super
test_super = record {
  magic = catfs_magic;
  version = 2;
  total_blocks = 16384;
  free_blocks = 16383;
  inode_count = 256;
  free_inodes = 253;
  data_start_lba = 100;
  bitmap_lba = 96;
  inode_table_lba = 10;
  journal_lba = 2;
  clean_unmount = 0;
  label = [];
}

abbrev test_catfs : Catfs
test_catfs = record {
  disk_drive = 0;
  partition_offset = 2048;
  sb = test_super;
  jh = record { magic = catfs_magic; head = 0; committed_seq = 0 };
  inodes = test_inodes;
  bitmap = λ b. b == 0;
  mounted = true;
  next_seq = 0;
}

abbrev test_world : World (ℕ → Sector)
test_world = record { cat = test_catfs; disk = λ lba i. 0 }

test_inodes-HasParents : HasParents test_inodes
test_inodes-HasParents = record {
  root = refl;
  parent = λ i lo hi. elim (Bool-cases (i == 1)) [
    | inl e ↦ rw e (inr (0, ground arith, omega arith, refl))
    | inr e ↦ elim (Bool-cases (i == 2)) [
      | inl f ↦ rw (e, f) (inr (1, ground arith, omega arith, refl))
      | inr f ↦ inl (ground arith)
    ]
  ];
}

catfs_unlink-HasParents_example :
    HasParents (catfs_unlink test_io 7 (pos 2) test_world).1.cat.inodes
catfs_unlink-HasParents_example =
    catfs_unlink-HasParents test_io 7 (pos 2) test_world test_inodes-HasParents

-- The path /a/c.
abbrev test_path : List ℕ
test_path = 47 ∷ 97 ∷ 47 ∷ 99 ∷ []

lookup_dir : catfs_lookup (split_last test_path).0 test_catfs ≡ pos 1
unfolding catfs_lookup lookup_walk split_last last_slash is_same next_comp find_child
lookup_dir = refl

dir_found :
    (k : ℕ)
    → catfs_lookup (split_last test_path).0 test_world.cat ≡ pos k
    → (k < catfs_inode_max) × ((test_world.cat.inodes k).type ≡ type_dir)
dir_found k e = let q : k ≡ 1 = ground (arith, e, lookup_dir) in (ground arith, rw q refl)

catfs_create-HasParents_example :
    HasParents (catfs_create test_io 7 test_path 1 test_world).1.cat.inodes
catfs_create-HasParents_example =
    catfs_create-HasParents test_io 7 test_path 1 test_world test_inodes-HasParents dir_found

catfs_rename-HasParents_example :
    HasParents (catfs_rename test_io 7 (pos 2) (pos 0) (99 ∷ []) test_world).1.cat.inodes
catfs_rename-HasParents_example =
    catfs_rename-HasParents test_io 7 (pos 2) (pos 0) (99 ∷ []) test_world test_inodes-HasParents

first_block : (bm_alloc test_catfs).0 ≡ pos 1
unfolding bm_alloc bm_alloc_from
first_block = ground arith

catfs_read_lem_example :
    ReadsWithin 7 2 0 100 test_world (catfs_read test_io 7 (pos 2) 0 (λ i. 0) 100 test_world)
catfs_read_lem_example = catfs_read_lem test_io 7 2 0 100 (λ i. 0) test_world

read_loop-enough_example :
    read_loop test_io 7 200 2 0 100 0 (λ i. 0) test_world
    ≡ read_loop test_io 7 100 2 0 100 0 (λ i. 0) test_world
read_loop-enough_example =
    read_loop-enough test_io 7 200 100 2 0 100 0 (λ i. 0) test_world (omega arith) (omega arith)

catfs_format_at-HasParents_example :
    HasParents
      (catfs_format_at test_io 7 (λ d. d == 0) (pos 0) 2048 (99 ∷ []) test_world).1.cat.inodes
    × ((i : ℕ)
        → i ≢ 0
        → ((catfs_format_at test_io 7 (λ d. d == 0) (pos 0) 2048 (99 ∷ []) test_world).1.cat.inodes
            i).type
          ≡ type_free)
catfs_format_at-HasParents_example =
    catfs_format_at-HasParents test_io 7 (λ d. d == 0) 0 2048 (99 ∷ []) test_world refl
