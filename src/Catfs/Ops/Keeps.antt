-- ===== src/Catfs/Ops/Keeps.antt =====
-- The writes of src/catfs.c, and the inodes in memory.
use atmkoala.Base.{
  ℕ, zero, suc, ◌+◌, ◌*◌, ◌≡◌, ◌≢◌, refl, ap, ◌∙◌, Bool, true, false, if◌then◌else◌, none, some,
  arith, Option-cases, inl, inr,
}
use atmkoala.Catfs.{
  catfs_direct_blocks, catfs_ptrs_per_block, block_lba, Inode, Catfs, JournalRec, bm_free, Sector,
}
use atmkoala.Catfs.Disk.{
  DiskOps, World, journal_write_rec, journal_log, journal_flush_header, journal_commit, sync_inode,
  sync_superblock, sync_bitmap_from, sync_bitmap_region, dsk_read, word_at,
}
use atmkoala.Catfs.Ops.Free.{
  free_direct, free_ptrs, free_ptr_block, free_level, free_indirect, free_dindirect,
  free_all_blocks,
}

module _ {D : Type 0} (io : DiskOps D) where
  journal_write_rec-inodes :
      (r : JournalRec) (w : World D) → (journal_write_rec io r w).1.cat.inodes ≡ w.cat.inodes
  unfolding journal_write_rec
  journal_write_rec-inodes r w = ground arith

  pub journal_log-inodes :
      (t i a b : ℕ) (w : World D) → (journal_log io t i a b w).1.cat.inodes ≡ w.cat.inodes
  unfolding journal_log
  journal_log-inodes t i a b w = journal_write_rec-inodes _ _

  pub journal_commit-inodes : (w : World D) → (journal_commit io w).1.cat.inodes ≡ w.cat.inodes
  unfolding journal_commit journal_flush_header
  journal_commit-inodes w = refl

  pub sync_superblock-inodes : (w : World D) → (sync_superblock io w).1.cat.inodes ≡ w.cat.inodes
  unfolding sync_superblock
  sync_superblock-inodes w = refl

  pub sync_inode-inodes : (i : ℕ) (w : World D) → (sync_inode io i w).1.cat.inodes ≡ w.cat.inodes
  unfolding sync_inode
  sync_inode-inodes i w = ground arith

  pub if-inodes :
      {i : ℕ → Inode} (ok : Bool) (x y : Bool × World D)
      → x.1.cat.inodes ≡ i
      → y.1.cat.inodes ≡ i
      → (if ok then x else y).1.cat.inodes ≡ i
  if-inodes true x y p q = p
  if-inodes false x y p q = q

  sync_bitmap_from-inodes :
      (n s : ℕ) (w : World D) → (sync_bitmap_from io n s w).1.cat.inodes ≡ w.cat.inodes
  unfolding sync_bitmap_from
  sync_bitmap_from-inodes zero s w = refl
  sync_bitmap_from-inodes (suc n) s w = if-inodes _ _ _ (sync_bitmap_from-inodes n (s + 1) _) refl

  pub sync_bitmap_region-inodes :
      (a b : ℕ) (w : World D) → (sync_bitmap_region io a b w).1.cat.inodes ≡ w.cat.inodes
  unfolding sync_bitmap_region
  sync_bitmap_region-inodes a b w = sync_bitmap_from-inodes _ _ w

  bm_free-inodes : (b : ℕ) (s : Catfs) → (bm_free b s).inodes ≡ s.inodes
  unfolding bm_free
  bm_free-inodes b s = ground arith

  free_ptrs-inodes : (n i : ℕ) (sec : Sector) (s : Catfs) → (free_ptrs n i sec s).inodes ≡ s.inodes
  unfolding free_ptrs
  free_ptrs-inodes zero i sec s = refl
  free_ptrs-inodes (suc n) i sec s =
      free_ptrs-inodes n (i + 1) sec _ ∙ ground (arith, bm_free-inodes (word_at sec (4 * i)) s)

  free_ptr_block-inodes : (b : ℕ) (w : World D) → (free_ptr_block io b w).cat.inodes ≡ w.cat.inodes
  unfolding free_ptr_block
  free_ptr_block-inodes b w = elim (Option-cases (dsk_read io (block_lba w.cat b) w)) [
    | inl e ↦ rw (e, free_ptr_block) (bm_free-inodes b w.cat)
    | inr (sec, e) ↦
        rw (e, free_ptr_block)
          (bm_free-inodes b _ ∙ free_ptrs-inodes catfs_ptrs_per_block 0 sec w.cat)
  ]

  free_level-inodes :
      (n i : ℕ) (l1 : Sector) (w : World D) → (free_level io n i l1 w).cat.inodes ≡ w.cat.inodes
  unfolding free_level
  free_level-inodes zero i l1 w = refl
  free_level-inodes (suc n) i l1 w =
      free_level-inodes n (i + 1) l1 _
      ∙ ground (arith, free_ptr_block-inodes (word_at l1 (4 * i)) w)

  free_direct-inodes :
      (n i idx j : ℕ) (s : Catfs) → j ≢ idx → (free_direct n i idx s).inodes j ≡ s.inodes j
  unfolding free_direct
  free_direct-inodes zero i idx j s ne = refl
  free_direct-inodes (suc n) i idx j s ne =
      free_direct-inodes n (i + 1) idx j _ ne
      ∙ ground (arith, ap (λ (f : ℕ → Inode). f j) (bm_free-inodes ((s.inodes idx).blocks i) s))

  free_indirect-inodes :
      (idx j : ℕ) (w : World D) → j ≢ idx → (free_indirect io idx w).cat.inodes j ≡ w.cat.inodes j
  unfolding free_indirect
  free_indirect-inodes idx j w ne =
      ground
        (arith, ap (λ (f : ℕ → Inode). f j) (free_ptr_block-inodes (w.cat.inodes idx).indirect w))

  l1_level : ℕ → World D → World D
  l1_level b w = (elim (dsk_read io (block_lba w.cat b) w) [
    | none ↦ w
    | some l1 ↦ free_level io catfs_ptrs_per_block 0 l1 w
  ])

  l1_level-inodes : (b : ℕ) (w : World D) → (l1_level b w).cat.inodes ≡ w.cat.inodes
  unfolding l1_level
  l1_level-inodes b w = elim (Option-cases (dsk_read io (block_lba w.cat b) w)) [
    | inl e ↦ rw (e, l1_level) refl
    | inr (sec, e) ↦ rw (e, l1_level) (free_level-inodes catfs_ptrs_per_block 0 sec w)
  ]

  free_dindirect-inodes :
      (idx j : ℕ) (w : World D) → j ≢ idx → (free_dindirect io idx w).cat.inodes j ≡ w.cat.inodes j
  unfolding free_dindirect l1_level
  free_dindirect-inodes idx j w ne =
      let b = (w.cat.inodes idx).dindirect in
      ground (
        arith,
        ap (λ (f : ℕ → Inode). f j) (bm_free-inodes b (l1_level b w).cat ∙ l1_level-inodes b w),
      )

  pub free_all_blocks-inodes :
      (idx j : ℕ) (w : World D) → j ≢ idx → (free_all_blocks io idx w).cat.inodes j ≡ w.cat.inodes j
  unfolding free_all_blocks
  free_all_blocks-inodes idx j w ne =
      free_dindirect-inodes idx j _ ne
      ∙ free_indirect-inodes idx j _ ne
      ∙ free_direct-inodes catfs_direct_blocks 0 idx j w.cat ne
