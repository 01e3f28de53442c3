-- ===== src/Catfs/Format.antt =====
-- A file system fresh from `catfs_format_at` of src/catfs.c.
use atmkoala.Base.{
  ℕ, zero, suc, ◌+◌, ◌-◌, ◌≡◌, ◌≢◌, inl, refl, ◌∙◌, Bool, true, false, not, if◌then◌else◌, List, ℤ,
  pos, negsuc, arith,
}
use mathlib.Core.Path.{subst, sym}
use atmkoala.Catfs.{catfs_blocks_max, type_free, Inode}
use atmkoala.Catfs.Disk.{DiskOps, World, sync_superblock, sync_bitmap_region, journal_flush_header}
use atmkoala.Catfs.Ops.Parents.{HasParents}
use atmkoala.Catfs.Ops.Keeps.{if-inodes, sync_superblock-inodes, sync_bitmap_region-inodes}
use atmkoala.Catfs.Volume.{
  inode_sectors, sync_inodes_from, catfs_sync, fresh_catfs, catfs_format_at,
}

module _ {D : Type 0} (io : DiskOps D) (now : ℕ) (present : ℕ → Bool) where
  sync_inodes_from-inodes :
      (n s : ℕ) (w : World D) → (sync_inodes_from io now present n s w).1.cat.inodes ≡ w.cat.inodes
  unfolding sync_inodes_from
  sync_inodes_from-inodes zero s w = refl
  sync_inodes_from-inodes (suc n) s w =
      if-inodes io _ _ _ (sync_inodes_from-inodes n (s + 1) _) refl

  flushed : (w : World D) → (journal_flush_header io w).1.cat.inodes ≡ w.cat.inodes
  unfolding journal_flush_header
  flushed w = refl

  pick :
      {m : ℕ → Inode} (c : Bool) (x y : ℤ × World D)
      → x.1.cat.inodes ≡ m
      → y.1.cat.inodes ≡ m
      → (if c then x else y).1.cat.inodes ≡ m
  pick true x y p q = p
  pick false x y p q = q

  catfs_sync-inodes : (w : World D) → (catfs_sync io now present w).1.cat.inodes ≡ w.cat.inodes
  unfolding catfs_sync
  catfs_sync-inodes w =
      let r1 = sync_superblock io w in
      let q1 = sync_superblock-inodes io w in
      let r2 = sync_inodes_from io now present inode_sectors 0 r1.1 in
      let q2 = sync_inodes_from-inodes inode_sectors 0 r1.1 ∙ q1 in
      let r3 = sync_bitmap_region io 0 (catfs_blocks_max - 1) r2.1 in
      let q3 = sync_bitmap_region-inodes io 0 (catfs_blocks_max - 1) r2.1 ∙ q2 in
      let clean = record r3.1 {
        cat = record r3.1.cat { sb = record r3.1.cat.sb { clean_unmount = 1 } };
      } in
      let r4 = sync_superblock io clean in
      let q4 = sync_superblock-inodes io clean ∙ q3 in
      let r5 = journal_flush_header io r4.1 in
      let x5 : ℤ × World D = ((if r5.0 then pos 0 else negsuc 0), r5.1) in
      let x4 : ℤ × World D = if not r4.0 then (negsuc 0, r4.1) else x5 in
      let x3 : ℤ × World D = if not r3.0 then (negsuc 0, r3.1) else x4 in
      let x2 : ℤ × World D = if not r2.0 then (negsuc 0, r2.1) else x3 in
      let x1 : ℤ × World D = if not r1.0 then (negsuc 0, r1.1) else x2 in
      pick (not w.cat.mounted) (negsuc 0, w) x1 refl
        (pick (not r1.0) (negsuc 0, r1.1) x2 q1
          (pick (not r2.0) (negsuc 0, r2.1) x3 q2
            (pick (not r3.0) (negsuc 0, r3.1) x4 q3
              (pick (not r4.0) (negsuc 0, r4.1) x5 q4 (flushed r4.1 ∙ q4)))))

  -- `catfs_format_at` of a drive that is present leaves a file system whose root is a directory, whose
  -- other inodes are all free, and which so has every inode in use below a directory, whether or
  -- not the disk accepts the writes.
  pub catfs_format_at-HasParents :
      (drive lba_offset : ℕ) (label : List ℕ) (w : World D)
      → present drive ≡ true
      → HasParents (catfs_format_at io now present (pos drive) lba_offset label w).1.cat.inodes
        × ((i : ℕ)
            → i ≢ 0
            → ((catfs_format_at io now present (pos drive) lba_offset label w).1.cat.inodes i).type
              ≡ type_free)
  unfolding catfs_format_at fresh_catfs
  catfs_format_at-HasParents drive lba_offset label w p = rw p (
      subst (λ (m : ℕ → Inode). HasParents m × ((i : ℕ) → i ≢ 0 → (m i).type ≡ type_free))
        (sym (catfs_sync-inodes _))
        (record { root = refl; parent = λ i lo hi. inl (ground arith) }, (λ i ne. ground arith)))
