-- ===== src/Catfs/Ops/Moves.antt =====
-- `catfs_create` and `catfs_rename` of src/catfs.c, and the directories above the inodes.
use atmkoala.Base.{
  ℕ, zero, suc, ◌+◌, ◌-◌, ◌<◌, ◌≡◌, ◌⊎◌, inl, inr, refl, ap, sym, ◌∙◌, Bool, true, false, ◌==◌,
  ◌||◌, not, if◌then◌else◌, leb, update, List, ℤ, pos, negsuc, is_neg, Bool-cases, arith, length,
}
use mathlib.Core.Path.{subst}
use atmkoala.Catfs.{catfs_inode_max, catfs_name_max, type_free, type_dir, Inode, set_inode}
use atmkoala.Catfs.Disk.{DiskOps, World, word_of, journal_log, sync_inode, sync_superblock}
use atmkoala.Catfs.Path.{catfs_lookup, split_last}
use atmkoala.Catfs.Ops.{
  name_taken, is_below, new_inode, create_from, commit_inode, catfs_create, catfs_rename,
}
use atmkoala.Catfs.Ops.Parents.{HasParents, put-HasParents, child-dir}
use atmkoala.Catfs.Ops.Keeps.{
  journal_log-inodes, journal_commit-inodes, sync_inode-inodes, sync_superblock-inodes,
}

ℤ-cases : (z : ℤ) → ((n : ℕ) × (z ≡ pos n)) ⊎ ((n : ℕ) × (z ≡ negsuc n))
ℤ-cases (pos n) = inl (n, refl)
ℤ-cases (negsuc n) = inr (n, refl)

if-both : {A : Type 0} (P : A → Type 0) (c : Bool) (x y : A) → P x → P y → P (if c then x else y)
if-both P true x y p q = p
if-both P false x y p q = q

module _ {D : Type 0} (io : DiskOps D) (now : ℕ) where
  abbrev Fine : ℤ × World D → Type 0
  Fine r = HasParents r.1.cat.inodes

  -- A new inode in a free place, below a directory.
  create_from-HasParents :
      (n i : ℕ) (base : List ℕ) (type parent : ℕ) (w : World D)
      → HasParents w.cat.inodes
      → 0 < i
      → parent < catfs_inode_max
      → (w.cat.inodes parent).type ≡ type_dir
      → HasParents (create_from io now n i base type parent w).1.cat.inodes
  unfolding create_from
  create_from-HasParents zero i base type parent w h lo lt d = h
  create_from-HasParents (suc n) i base type parent w h lo lt d =
      elim (Bool-cases ((w.cat.inodes i).type == type_free)) [
        | inl e ↦
            let free : (w.cat.inodes i).type ≡ type_free = ground arith in
            rw e (
              subst HasParents
                (sym (
                  journal_commit-inodes io _
                  ∙ sync_superblock-inodes io _
                  ∙ sync_inode-inodes io i _
                  ∙ ap (λ (f : ℕ → Inode). update f i (new_inode io now base type parent))
                      (journal_log-inodes io 1 i parent type w)))
                (put-HasParents w.cat.inodes i (new_inode io now base type parent) h
                  (λ z. absurd (omega arith)) (inr (parent, refl, lt, ground arith))
                  (λ j lo' hi' ne ty e'.
                    absurd (let dd = child-dir w.cat.inodes i j h lo' hi' ty e' in ground arith))))
        | inr e ↦ rw e (create_from-HasParents n (i + 1) base type parent w h (omega arith) lt d)
      ]

  -- `catfs_create` keeps the root a directory and every inode in use below a directory, if the
  -- directory part of the path, where it is found, is a directory of the inode table.
  pub catfs_create-HasParents :
      (path : List ℕ) (type : ℕ) (w : World D)
      → HasParents w.cat.inodes
      → ((k : ℕ)
          → catfs_lookup (split_last path).0 w.cat ≡ pos k
          → (k < catfs_inode_max) × ((w.cat.inodes k).type ≡ type_dir))
      → HasParents (catfs_create io now path type w).1.cat.inodes
  unfolding catfs_create
  catfs_create-HasParents path type w h dir =
      if-both Fine (not w.cat.mounted) _ _ h
        (elim (ℤ-cases (catfs_lookup (split_last path).0 w.cat)) [
          | inl (k, e) ↦
              let (lt, d) = dir k e in
              rw e (
                if-both Fine (not (is_neg (catfs_lookup path w.cat))) _ _ h (
                  create_from-HasParents (catfs_inode_max - 1) 1 (split_last path).1 type k w h
                    (omega arith) lt d))
          | inr (k, e) ↦ rw e h
        ])

  -- The inodes after `commit_inode` are those before.
  commit_inode-inodes :
      (i : ℕ) (w : World D) → (commit_inode io now i w).1.cat.inodes ≡ w.cat.inodes
  commit_inode-inodes i w = elim (Bool-cases (sync_inode io i w).0) [
    | inl e ↦ elim (Bool-cases (sync_superblock io (sync_inode io i w).1).0) [
      | inl f ↦
          rw (e, f)
            (journal_commit-inodes io _ ∙ sync_superblock-inodes io _ ∙ sync_inode-inodes io i w)
      | inr f ↦ rw (e, f) (sync_superblock-inodes io _ ∙ sync_inode-inodes io i w)
    ]
    | inr e ↦ rw e (sync_inode-inodes io i w)
  ]

  -- The inodes after the body of `catfs_rename`.
  moved :
      (k p : ℕ) (new_name : List ℕ) (w : World D)
      → HasParents w.cat.inodes
      → 0 < k
      → p < catfs_inode_max
      → (w.cat.inodes p).type ≡ type_dir
      → Fine (
          commit_inode io now k
            (record (journal_log io 3 k (word_of (w.cat.inodes k).parent) p w).1 {
              cat =
                  set_inode
                    (journal_log io 3 k (word_of (w.cat.inodes k).parent) p w).1.cat
                    k
                    (record ((journal_log io 3 k (word_of (w.cat.inodes k).parent) p w).1.cat.inodes
                      k) { parent = pos p; name = new_name; mtime = now });
            }))
  moved k p new_name w h lo lt d =
      subst HasParents
        (sym (
          commit_inode-inodes k _
          ∙ ap
              (λ (f : ℕ → Inode).
                update f k (record (f k) { parent = pos p; name = new_name; mtime = now }))
              (journal_log-inodes io 3 k (word_of (w.cat.inodes k).parent) p w)))
        (put-HasParents w.cat.inodes k
          (record (w.cat.inodes k) { parent = pos p; name = new_name; mtime = now }) h
          (λ z. absurd (omega arith)) (inr (p, refl, lt, ground arith))
          (λ j lo' hi' ne ty e. child-dir w.cat.inodes k j h lo' hi' ty e))

  -- `catfs_rename` keeps the root a directory and every inode in use below a directory.
  pub catfs_rename-HasParents :
      (idx new_parent : ℤ) (new_name : List ℕ) (w : World D)
      → HasParents w.cat.inodes
      → HasParents (catfs_rename io now idx new_parent new_name w).1.cat.inodes
  unfolding catfs_rename
  catfs_rename-HasParents (negsuc k) new_parent new_name w h = h
  catfs_rename-HasParents (pos k) (negsuc p) new_name w h = h
  catfs_rename-HasParents (pos k) (pos p) new_name w h =
      elim (Bool-cases (not w.cat.mounted || k == 0 || leb catfs_inode_max k)) [
        | inl e1 ↦ rw e1 h
        | inr e1 ↦
            elim (Bool-cases (leb catfs_inode_max p || not ((w.cat.inodes p).type == type_dir))) [
              | inl e2 ↦ rw (e1, e2) h
              | inr e2 ↦
                  elim (Bool-cases (length new_name == 0 || leb catfs_name_max (length new_name))) [
                    | inl e3 ↦ rw (e1, e2, e3) h
                    | inr e3 ↦ elim (Bool-cases ((w.cat.inodes k).type == type_free)) [
                      | inl e4 ↦ rw (e1, e2, e3, e4) h
                      | inr e4 ↦
                          elim (Bool-cases (is_below (catfs_inode_max + 1) w.cat k (pos p))) [
                            | inl e5 ↦ rw (e1, e2, e3, e4, e5) h
                            | inr e5 ↦
                                elim (Bool-cases
                                  (name_taken (catfs_inode_max - 1) 1 w.cat k p new_name)) [
                                    | inl e6 ↦ rw (e1, e2, e3, e4, e5, e6) h
                                    | inr e6 ↦
                                        rw (e1, e2, e3, e4, e5, e6)
                                          (moved k p new_name w h (ground arith) (ground arith)
                                            (ground arith))
                                  ]
                          ]
                    ]
                  ]
            ]
      ]
