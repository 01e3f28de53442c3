-- ===== src/Catfs/Bitmap.antt =====
-- The block allocation of src/catfs.c: `bm_alloc` and `bm_free`.
use atmkoala.Base.{
  ℕ, zero, suc, ◌+◌, ◌-◌, ◌≤◌, ◌<◌, ◌≡◌, ◌⊎◌, inl, inr, refl, true, false, ◌==◌, update, ℤ, pos,
  negsuc, Bool-cases, arith,
}
use mathlib.Core.Path.{subst}
use atmkoala.Catfs.{Catfs, catfs_blocks_max, bm_alloc_from, bm_alloc, bm_free}

-- What the search for a clear bit from `i` to `hi` comes to.
abbrev pub Allocates : (i hi : ℕ) → Catfs → ℤ × Catfs → Type 0
Allocates i hi s r =
    ((r ≡ (negsuc 0, s)) × ((j : ℕ) → i ≤ j → j < hi → s.bitmap j ≡ true))
    ⊎ ((k : ℕ) × (r.0 ≡ pos k)
        × (k < hi)
        × (s.bitmap k ≡ false)
        × ((j : ℕ) → i ≤ j → j < k → s.bitmap j ≡ true)
        × (r.1.bitmap ≡ update s.bitmap k true)
        × (r.1.inodes ≡ s.inodes)
        × (r.1.sb.free_blocks ≡ s.sb.free_blocks - 1))

bm_alloc_from_lem : (n i : ℕ) (s : Catfs) → Allocates i (i + n) s (bm_alloc_from n i s)
unfolding bm_alloc_from
bm_alloc_from_lem zero i s = inl (refl, λ j lo hi. absurd (omega arith))
bm_alloc_from_lem (suc n) i s = elim (Bool-cases (s.bitmap i)) [
  | inr e ↦ inr (
    i,
    rw e refl,
    omega arith,
    e,
    (λ j lo hi. absurd (omega arith)),
    rw e refl,
    rw e refl,
    rw e refl,
  )
  | inl e ↦ elim (bm_alloc_from_lem n (i + 1) s) [
    | inl (q, full) ↦ inl (rw e q, λ j lo hi. before j e (i + 1 + n) full lo (omega arith))
    | inr (k, q, hi', clear, full, b, ino, f) ↦ inr (
      k,
      rw e q,
      omega arith,
      clear,
      (λ j lo hi. before j e k full lo hi),
      rw e b,
      rw e ino,
      rw e f,
    )
  ]
]
  where
    before :
        (j : ℕ)
        → s.bitmap i ≡ true
        → (hi : ℕ) → ((l : ℕ) → i + 1 ≤ l → l < hi → s.bitmap l ≡ true)
        → i ≤ j
        → j < hi
        → s.bitmap j ≡ true
    before j e hi full lo lt = elim (Bool-cases (i == j)) [
      | inl q ↦ subst (λ (l : ℕ). s.bitmap l ≡ true) (let same : i ≡ j = ground arith in same) e
      | inr q ↦ full j (ground arith) lt
    ]

-- `bm_alloc` either returns -1 and changes nothing, since all blocks are taken; or it returns the lowest
-- block that is not taken, takes that block and no other, lowers the number of free blocks by
-- one where it is not 0, and leaves the inodes alone.
pub bm_alloc_lem : (s : Catfs) → Allocates 0 catfs_blocks_max s (bm_alloc s)
unfolding bm_alloc
bm_alloc_lem s = bm_alloc_from_lem catfs_blocks_max 0 s

-- The block that `bm_alloc` returns is marked as taken afterwards, and `bm_free` of it then
-- restores the bitmap.
pub bm_free-bm_alloc :
    (s : Catfs) (k j : ℕ)
    → (bm_alloc s).0 ≡ pos k
    → ((bm_alloc s).1.bitmap k ≡ true) × ((bm_free k (bm_alloc s).1).bitmap j ≡ s.bitmap j)
unfolding bm_free
bm_free-bm_alloc s k j e = elim (bm_alloc_lem s) [
  | inl (q, full) ↦ absurd (ground (arith, q, e))
  | inr (k', q, hi, clear, full, b, ino, f) ↦
      let same : k ≡ k' = ground (arith, q, e) in
      let t : (bm_alloc s).1.bitmap k ≡ true = rw (b, same) (ground arith) in
      (
        t,
        rw t (elim (Bool-cases (j == k)) [
          | inl w ↦ rw w (
              let c : s.bitmap j ≡ false = rw (let jk : j ≡ k' = ground arith in jk) clear in
              ground (arith, c))
          | inr w ↦ rw (w, b) (ground arith)
        ]),
      )
]
