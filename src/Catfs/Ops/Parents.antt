-- ===== src/Catfs/Ops/Parents.antt =====
-- The directories above the inodes of src/catfs.c, and `catfs_unlink`.
use atmkoala.Base.{
  ℕ, zero, suc, ◌+◌, ◌-◌, ◌≤◌, ◌<◌, ◌≡◌, ◌≢◌, ◌⊎◌, inl, inr, refl, ap, sym, ◌∙◌, fun_ext, false,
  ◌==◌, ◌&&◌, ◌||◌, not, leb, update, ℤ, pos, negsuc, Bool-cases, arith,
}
use mathlib.Core.Path.{subst}
use atmkoala.Catfs.{
  catfs_inode_max, catfs_blocks_max, type_free, type_dir, Inode, zero_inode, Catfs,
}
use atmkoala.Catfs.Disk.{DiskOps, World, journal_log}
use atmkoala.Catfs.Path.{is_at}
use atmkoala.Catfs.Ops.{has_child, catfs_unlink}
use atmkoala.Catfs.Ops.Free.{free_all_blocks}
use atmkoala.Catfs.Ops.Keeps.{
  journal_log-inodes, journal_commit-inodes, sync_inode-inodes, sync_superblock-inodes,
  sync_bitmap_region-inodes, free_all_blocks-inodes,
}

-- The inode is free, or its parent is a directory.
abbrev pub ParentOk : (ℕ → Inode) → Inode → Type 0
ParentOk m n =
    (n.type ≡ type_free)
    ⊎ ((p : ℕ) × (n.parent ≡ pos p) × (p < catfs_inode_max) × ((m p).type ≡ type_dir))

-- Inode 0 is a directory, and the parent of every other inode in use is a directory.
pub record HasParents (m : ℕ → Inode) : Type 0 where
  pub root : (m 0).type ≡ type_dir
  pub parent : (i : ℕ) → 0 < i → i < catfs_inode_max → ParentOk m (m i)

-- One inode changes: it has a parent after the change, and is a directory if it has children.
pub put-HasParents :
    (m : ℕ → Inode) (idx : ℕ) (v : Inode)
    → HasParents m
    → (idx ≡ 0 → v.type ≡ type_dir)
    → ParentOk (update m idx v) v
    → ((i : ℕ)
        → 0 < i
        → i < catfs_inode_max
        → i ≢ idx
        → (m i).type ≢ type_free
        → (m i).parent ≡ pos idx
        → v.type ≡ type_dir)
    → HasParents (update m idx v)
put-HasParents m idx v h r ok kids = record {
  root = elim (Bool-cases (0 == idx)) [ inl e ↦ rw e (r (ground arith)) | inr e ↦ rw e h.root ];
  parent = λ i lo hi. elim (Bool-cases (i == idx)) [
    | inl e ↦ rw e ok
    | inr e ↦ rw e (other i lo hi (ground arith) (h.parent i lo hi))
  ];
}
  where
    other :
        (i : ℕ)
        → 0 < i
        → i < catfs_inode_max
        → i ≢ idx
        → ParentOk m (m i)
        → ParentOk (update m idx v) (m i)
    other i lo hi ne (inl z) = inl z
    other i lo hi ne (inr (p, e, lt, d)) = elim (Bool-cases ((m i).type == type_free)) [
      | inl z ↦ inl (ground arith)
      | inr z ↦ elim (Bool-cases (p == idx)) [
        | inl s ↦
            let q : p ≡ idx = ground arith in
            inr (p, e, lt, rw s (kids i lo hi ne (ground arith) (e ∙ ap pos q)))
        | inr s ↦ inr (p, e, lt, rw s d)
      ]
    ]

-- Without a child found, no inode of the range has the parent.
has_child-false :
    (n i : ℕ) (s : Catfs) (idx j : ℕ)
    → has_child n i s idx ≡ false
    → i ≤ j
    → j < i + n
    → (s.inodes j).type ≢ type_free
    → is_at (s.inodes j).parent idx ≡ false
unfolding has_child
has_child-false zero i s idx j e lo hi ty = absurd (omega arith)
has_child-false (suc n) i s idx j e lo hi ty = elim (Bool-cases (i == j)) [
  | inl q ↦
      let same : i ≡ j = ground arith in
      subst (λ (k : ℕ). is_at (s.inodes k).parent idx ≡ false) same
        (let ty' : (s.inodes i).type ≢ type_free = rw same ty in ground arith)
  | inr q ↦ has_child-false n (i + 1) s idx j (ground arith) (ground arith) (omega arith) ty
]

-- The parent of an inode in use is a directory.
pub child-dir :
    (m : ℕ → Inode) (k j : ℕ)
    → HasParents m
    → 0 < j
    → j < catfs_inode_max
    → (m j).type ≢ type_free
    → (m j).parent ≡ pos k
    → (m k).type ≡ type_dir
child-dir m k j h lo hi ty e = elim (h.parent j lo hi) [
  | inl z ↦ absurd (ty z)
  | inr (p, e', lt, d) ↦ let q : k ≡ p = ground (arith, e, e') in rw q d
]

-- The two outcomes of `catfs_unlink`.
abbrev pub UnlinksOrNot : {D : Type 0} → ℤ → World D → ℤ × World D → Type 0
UnlinksOrNot idx w r =
    (r ≡ (negsuc 0, w))
    ⊎ ((k : ℕ) × (idx ≡ pos k)
        × (0 < k)
        × (k < catfs_inode_max)
        × ((w.cat.inodes k).type ≢ type_free)
        × (((w.cat.inodes k).type ≡ type_dir) → has_child (catfs_inode_max - 1) 1 w.cat k ≡ false)
        × (r.0 ≡ pos 0)
        × (r.1.cat.inodes ≡ update w.cat.inodes k zero_inode))

module _ {D : Type 0} (io : DiskOps D) (now : ℕ) where
  -- The inodes after the body of `catfs_unlink`.
  unlinked-inodes :
      (k j : ℕ) (w : World D)
      → update (free_all_blocks io k (journal_log io 2 k 0 0 w).1).cat.inodes k zero_inode j
        ≡ update w.cat.inodes k zero_inode j
  unlinked-inodes k j w = elim (Bool-cases (j == k)) [
    | inl e ↦ rw e refl
    | inr e ↦ rw e (
        free_all_blocks-inodes io k j _ (ground arith)
        ∙ ap (λ (f : ℕ → Inode). f j) (journal_log-inodes io 2 k 0 0 w))
  ]

  -- `catfs_unlink` either returns -1 and changes nothing, or it is given an inode from 1 to 255 that is in
  -- use and, if it is a directory, has no children; then it returns 0 whether or not the disk
  -- accepts the writes, that inode is free, and all other inodes in memory are as before.
  pub catfs_unlink_lem : (idx : ℤ) (w : World D) → UnlinksOrNot idx w (catfs_unlink io now idx w)
  unfolding catfs_unlink
  catfs_unlink_lem (negsuc k) w = inl refl
  catfs_unlink_lem (pos k) w =
      elim (Bool-cases (not w.cat.mounted || k == 0 || leb catfs_inode_max k)) [
        | inl e ↦ inl (rw e refl)
        | inr e ↦ elim (Bool-cases ((w.cat.inodes k).type == type_free)) [
          | inl f ↦ inl (rw (e, f) refl)
          | inr f ↦
              elim (Bool-cases
                ((w.cat.inodes k).type == type_dir && has_child (catfs_inode_max - 1) 1 w.cat k)) [
                  | inl c ↦ inl (rw (e, f, c) refl)
                  | inr c ↦ inr (
                    k,
                    refl,
                    ground arith,
                    ground arith,
                    ground arith,
                    (λ d. ground arith),
                    rw (e, f, c) refl,
                    rw (e, f, c)
                        (journal_commit-inodes io _
                          ∙ sync_superblock-inodes io _
                          ∙ sync_bitmap_region-inodes io 0 (catfs_blocks_max - 1) _
                          ∙ sync_inode-inodes io k _
                          ∙ fun_ext (λ j. unlinked-inodes k j w)),
                  )
                ]
        ]
      ]

  -- `catfs_unlink` keeps the root a directory and every inode in use below a directory.
  pub catfs_unlink-HasParents :
      (idx : ℤ) (w : World D)
      → HasParents w.cat.inodes
      → HasParents (catfs_unlink io now idx w).1.cat.inodes
  catfs_unlink-HasParents idx w h = elim (catfs_unlink_lem idx w) [
    | inl q ↦ subst (λ (r : ℤ × World D). HasParents r.1.cat.inodes) (sym q) h
    | inr (k, i, lo, hi, ty, kids, z, q) ↦ subst HasParents (sym q) (
        put-HasParents w.cat.inodes k zero_inode h (λ z'. absurd (omega arith)) (inl refl)
          (λ j lo' hi' ne ty' e. absurd (
            let d = child-dir w.cat.inodes k j h lo' hi' ty' e in
            let no_kids =
              has_child-false (catfs_inode_max - 1) 1 w.cat k j (kids d) (omega arith) (omega arith)
                ty' in
            ground (arith, no_kids, e))))
  ]
