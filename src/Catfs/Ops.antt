-- ===== src/Catfs/Ops.antt =====
-- The operations of src/catfs.c on inodes: create, unlink, rename and chmod.
pub mod Free
pub mod Keeps
pub mod Parents
pub mod Moves
use atmkoala.Base.{
  ℕ, zero, suc, ◌+◌, ◌-◌, ◌*◌, ◌%◌, Bool, true, false, ◌==◌, ◌&&◌, ◌||◌, not, if◌then◌else◌, leb,
  List, [], ◌∷◌, ℤ, pos, negsuc, is_neg, length,
}
use atmkoala.Catfs.{
  catfs_inode_max, catfs_name_max, catfs_blocks_max, type_free, type_dir, Inode, zero_inode, Catfs,
  set_inode, inc_free_inodes, dec_free_inodes,
}
use atmkoala.Catfs.Disk.{
  DiskOps, World, word_of, journal_log, journal_commit, sync_inode, sync_superblock,
  sync_bitmap_region,
}
use atmkoala.Catfs.Path.{catfs_lookup, split_last, is_at, is_same}
use atmkoala.Catfs.Ops.Free.{free_all_blocks}

-- Some inode of the range is in use and has the parent.
unfoldable pub has_child : (n i : ℕ) → Catfs → (parent : ℕ) → Bool
has_child zero i s parent = false
has_child (suc n) i s parent =
    let rest = has_child n (i + 1) s parent in
    if not ((s.inodes i).type == type_free) && is_at (s.inodes i).parent parent then true else rest

-- Some inode of the range but `idx` is in use and has the parent and the name.
unfoldable pub name_taken : (n i : ℕ) → Catfs → (idx parent : ℕ) → List ℕ → Bool
name_taken zero i s idx parent name = false
name_taken (suc n) i s idx parent name =
    let rest = name_taken n (i + 1) s idx parent name in
    if i == idx || (s.inodes i).type == type_free
    then rest
    else if is_at (s.inodes i).parent parent && is_same (s.inodes i).name name
    then true
    else rest

-- Whether the walk from `p` to the root meets `idx`, with `n` rounds left. A walk that needs more rounds
-- answers true; one that meets no inode twice ends within 257.
unfoldable pub is_below : (n : ℕ) → Catfs → (idx : ℕ) → (p : ℤ) → Bool
is_below n s idx (negsuc k) = false
is_below zero s idx (pos p) = true
is_below (suc n) s idx (pos p) =
    let rest = is_below n s idx (s.inodes p).parent in if p == idx then true else rest

abbrev pub default_perms : ℕ → ℕ
default_perms type = if type == type_dir then 0o755 else 0o644

module _ {D : Type 0} (io : DiskOps D) (now : ℕ) where
  abbrev pub new_inode : List ℕ → (type parent : ℕ) → Inode
  new_inode name type parent = record zero_inode {
    name = name;
    type = type;
    perms = default_perms type;
    parent = pos parent;
    ctime = now;
    mtime = now;
    atime = now;
  }

  -- The loop of `catfs_create` from the inode `i`, with `n` inodes left.
  unfoldable pub create_from :
      (n i : ℕ) → (base : List ℕ) → (type parent : ℕ) → World D → ℤ × World D
  create_from zero i base type parent w = (negsuc 0, w)
  create_from (suc n) i base type parent w =
      let rest = create_from n (i + 1) base type parent w in
      let w1 = (journal_log io 1 i parent type w).1 in
      let w2 = record w1 {
        cat = dec_free_inodes (set_inode w1.cat i (new_inode base type parent));
      } in
      let w3 = (sync_inode io i w2).1 in
      let w4 = (sync_superblock io w3).1 in
      let w5 = (journal_commit io w4).1 in
      if not ((w.cat.inodes i).type == type_free) then rest else (pos i, w5)

  unfoldable pub catfs_create : List ℕ → (type : ℕ) → World D → ℤ × World D
  catfs_create path type w =
      let (dir, base) = split_last path in
      if not w.cat.mounted then (negsuc 0, w) else (elim (catfs_lookup dir w.cat) [
        | negsuc k ↦ (negsuc 0, w)
        | pos parent ↦
            if not (is_neg (catfs_lookup path w.cat))
            then (negsuc 0, w)
            else create_from (catfs_inode_max - 1) 1 base type parent w
      ])

  unfoldable pub catfs_unlink : ℤ → World D → ℤ × World D
  catfs_unlink (negsuc k) w = (negsuc 0, w)
  catfs_unlink (pos idx) w =
      let w1 = (journal_log io 2 idx 0 0 w).1 in
      let w2 = free_all_blocks io idx w1 in
      let w3 = record w2 { cat = inc_free_inodes (set_inode w2.cat idx zero_inode) } in
      let w4 = (sync_inode io idx w3).1 in
      let w5 = (sync_bitmap_region io 0 (catfs_blocks_max - 1) w4).1 in
      let w6 = (sync_superblock io w5).1 in
      let w7 = (journal_commit io w6).1 in
      if not w.cat.mounted || idx == 0 || leb catfs_inode_max idx
      then (negsuc 0, w)
      else if (w.cat.inodes idx).type == type_free
      then (negsuc 0, w)
      else if (w.cat.inodes idx).type == type_dir && has_child (catfs_inode_max - 1) 1 w.cat idx
      then (negsuc 0, w)
      else (pos 0, w7)

  -- The end of `catfs_rename` and `catfs_chmod`: the writes, each only after the one before.
  abbrev pub commit_inode : ℕ → World D → ℤ × World D
  commit_inode idx w =
      let (ok1, w1) = sync_inode io idx w in
      let (ok2, w2) = sync_superblock io w1 in
      let (ok3, w3) = journal_commit io w2 in
      if not ok1
      then (negsuc 0, w1)
      else if not ok2
      then (negsuc 0, w2)
      else ((if ok3 then pos 0 else negsuc 0), w3)

  unfoldable pub catfs_rename : ℤ → (new_parent : ℤ) → (new_name : List ℕ) → World D → ℤ × World D
  catfs_rename (negsuc k) new_parent new_name w = (negsuc 0, w)
  catfs_rename (pos idx) (negsuc k) new_name w = (negsuc 0, w)
  catfs_rename (pos idx) (pos new_parent) new_name w =
      let inode = w.cat.inodes idx in
      let w1 = (journal_log io 3 idx (word_of inode.parent) new_parent w).1 in
      let w2 = record w1 {
        cat =
            set_inode w1.cat idx (record (w1.cat.inodes idx) {
              parent = pos new_parent;
              name = new_name;
              mtime = now;
            });
      } in
      if not w.cat.mounted || idx == 0 || leb catfs_inode_max idx
      then (negsuc 0, w)
      else if leb catfs_inode_max new_parent || not ((w.cat.inodes new_parent).type == type_dir)
      then (negsuc 0, w)
      else if length new_name == 0 || leb catfs_name_max (length new_name)
      then (negsuc 0, w)
      else if inode.type == type_free
      then (negsuc 0, w)
      else if is_below (catfs_inode_max + 1) w.cat idx (pos new_parent)
      then (negsuc 0, w)
      else if name_taken (catfs_inode_max - 1) 1 w.cat idx new_parent new_name
      then (negsuc 0, w)
      else commit_inode idx w2

  unfoldable pub catfs_chmod : ℤ → (perms : ℕ) → World D → ℤ × World D
  catfs_chmod (negsuc k) perms w = (negsuc 0, w)
  catfs_chmod (pos idx) perms w =
      let inode = w.cat.inodes idx in
      let w1 = (journal_log io 3 idx inode.perms (perms % 512) w).1 in
      let w2 = record w1 {
        cat =
            set_inode w1.cat idx (record (w1.cat.inodes idx) { perms = perms % 512; mtime = now });
      } in
      if not w.cat.mounted || leb catfs_inode_max idx
      then (negsuc 0, w)
      else if inode.type == type_free
      then (negsuc 0, w)
      else commit_inode idx w2
