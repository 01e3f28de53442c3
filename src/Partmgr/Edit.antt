-- ===== src/Partmgr/Edit.antt =====
-- `mbr_add_partition` and `mbr_remove_partition` of src/partmgr.c.
use atmkoala.Base.{
  ℕ, zero, suc, ◌+◌, ◌≤◌, ◌<◌, ◌≡◌, ◌≢◌, ◌⊎◌, ◌↔◌, inl, inr, refl, sym, Bool, true, false, ◌==◌,
  if◌then◌else◌, ltb, leb, update, ℤ, pos, negsuc, Bool-cases, arith,
}
use mathlib.Core.Path.{subst}
use atmkoala.Partmgr.{
  MbrEntry, MbrTable, part_type_empty, part_max_entries, uint32_max, mbr_overlaps, zero_entry,
  add_from, mbr_add_partition, mbr_remove_partition,
}
use atmkoala.Partmgr.Table.{Clear, IsWords, IsEntry, IsApart, IsTable, mbr_overlaps_lem}

abbrev pub new_entry : (type lba_start sectors : ℕ) → Bool → MbrEntry
new_entry type lba_start sectors bootable = record {
  status = if bootable then 0x80 else 0;
  chs_start = 0;
  type = type;
  chs_end = 0;
  lba_start = lba_start;
  sector_count = sectors;
}

abbrev pub put : MbrTable → ℕ → MbrEntry → MbrTable
put t i e = record t { entries = update t.entries i e }

-- What the search for an empty entry comes to, from `i` on with `n` entries left.
record FirstFree (t : MbrTable) (i hi k : ℕ) : Type 0 where
  from : i ≤ k
  below : k < hi
  is_free : (t.entries k).type ≡ part_type_empty
  before : (j : ℕ) → i ≤ j → j < k → (t.entries j).type ≢ part_type_empty

add_from_lem :
    (n i : ℕ) (t : MbrTable) (type lba sectors : ℕ) (bootable : Bool)
    → (((j : ℕ) → i ≤ j → j < i + n → (t.entries j).type ≢ part_type_empty)
        × (add_from n i t type lba sectors bootable ≡ (negsuc 0, t)))
      ⊎ ((k : ℕ) × FirstFree t i (i + n) k
          × (add_from n i t type lba sectors bootable
              ≡ (pos k, put t k (new_entry type lba sectors bootable))))
unfolding add_from
add_from_lem zero i t type lba sectors bootable = inl ((λ j lo hi. absurd (omega arith)), refl)
add_from_lem (suc n) i t type lba sectors bootable =
    elim (Bool-cases ((t.entries i).type == part_type_empty)) [
      | inl e ↦ inr (
        i,
        record {
          from = omega arith;
          below = omega arith;
          is_free = ground arith;
          before = λ j lo hi. absurd (omega arith);
        },
        ground arith,
      )
      | inr e ↦ elim (add_from_lem n (i + 1) t type lba sectors bootable) [
        | inl (full, q) ↦ inl ((λ j lo hi. not_here j e full lo hi), ground (arith, q))
        | inr (k, f, q) ↦ inr (
          k,
          record {
            from = (let o = f.from in omega arith);
            below = (let o = f.below in omega arith);
            is_free = f.is_free;
            before = λ j lo hi. earlier k j e f lo hi;
          },
          ground (arith, q),
        )
      ]
    ]
  where
    not_here :
        (j : ℕ)
        → ((t.entries i).type == part_type_empty) ≡ false
        → ((l : ℕ) → i + 1 ≤ l → l < i + 1 + n → (t.entries l).type ≢ part_type_empty)
        → i ≤ j
        → j < i + suc n
        → (t.entries j).type ≢ part_type_empty
    not_here j e full lo hi = elim (Bool-cases (i == j)) [
      | inl s ↦
          subst (λ (l : ℕ). (t.entries l).type ≢ part_type_empty)
            (let same : i ≡ j = ground arith in same)
            (let ne : (t.entries i).type ≢ part_type_empty = ground arith in ne)
      | inr s ↦ full j (ground arith) (omega arith)
    ]

    earlier :
        (k j : ℕ)
        → ((t.entries i).type == part_type_empty) ≡ false
        → FirstFree t (i + 1) (i + 1 + n) k
        → i ≤ j
        → j < k
        → (t.entries j).type ≢ part_type_empty
    earlier k j e f lo hi = elim (Bool-cases (i == j)) [
      | inl s ↦
          subst (λ (l : ℕ). (t.entries l).type ≢ part_type_empty)
            (let same : i ≡ j = ground arith in same)
            (let ne : (t.entries i).type ≢ part_type_empty = ground arith in ne)
      | inr s ↦ f.before j (ground arith) hi
    ]

-- A right entry that is apart from the others may take the place of any entry.
put-IsTable :
    (t : MbrTable) (k : ℕ) (e : MbrEntry)
    → IsTable t
    → IsEntry e
    → ((j : ℕ) → j < part_max_entries → j ≢ k → IsApart e (t.entries j) × IsApart (t.entries j) e)
    → IsTable (put t k e)
put-IsTable t k e v ok a = record {
  entry = λ i lt. elim (Bool-cases (i == k)) [
    | inl s ↦ subst IsEntry (let q : e ≡ (put t k e).entries i = ground arith in q) ok
    | inr s ↦
        subst IsEntry (let q : t.entries i ≡ (put t k e).entries i = ground arith in q)
          (v.entry i lt)
  ];
  apart = λ i j lt lt' ne. elim (Bool-cases (i == k)) [
    | inl s ↦ elim (Bool-cases (j == k)) [
      | inl s' ↦ absurd (ne (ground arith))
      | inr s' ↦ rw (s, s') ((a j lt' (ground arith)).0)
    ]
    | inr s ↦ elim (Bool-cases (j == k)) [
      | inl s' ↦ rw (s, s') ((a i lt (ground arith)).1)
      | inr s' ↦ rw (s, s') (v.apart i j lt lt' ne)
    ]
  ];
}

-- The two outcomes of `mbr_add_partition`.
abbrev pub AddsOrNot : MbrTable → (type lba sectors : ℕ) → Bool → ℤ × MbrTable → Type 0
AddsOrNot t type lba sectors bootable r =
    ((r ≡ (negsuc 0, t))
      × ((lba ≡ 0)
          ⊎ (mbr_overlaps t lba sectors (negsuc 0) ≡ true)
          ⊎ ((j : ℕ) → j < part_max_entries → (t.entries j).type ≢ part_type_empty)))
    ⊎ ((k : ℕ) × (k < part_max_entries)
        × ((t.entries k).type ≡ part_type_empty)
        × ((j : ℕ) → j < k → (t.entries j).type ≢ part_type_empty)
        × (0 < lba)
        × (mbr_overlaps t lba sectors (negsuc 0) ≡ false)
        × (r ≡ (pos k, put t k (new_entry type lba sectors bootable))))

-- `mbr_add_partition` either returns -1 and leaves the table alone, because the range starts at sector
-- 0, or `mbr_overlaps` refuses it, or there is no empty entry; or none of these holds, and it
-- returns the first empty entry and writes there, and there only, the new partition.
pub mbr_add_partition_lem :
    (t : MbrTable) (type lba sectors : ℕ) (bootable : Bool)
    → AddsOrNot t type lba sectors bootable (mbr_add_partition t type lba sectors bootable)
unfolding mbr_add_partition
mbr_add_partition_lem t type lba sectors bootable = elim (Bool-cases (ltb lba 1)) [
  | inl z ↦ inl (ground arith, inl (ground arith))
  | inr z ↦ elim (Bool-cases (mbr_overlaps t lba sectors (negsuc 0))) [
    | inl o ↦ inl (ground arith, inr (inl o))
    | inr o ↦ elim (add_from_lem part_max_entries 0 t type lba sectors bootable) [
      | inl (full, q) ↦
          inl (ground (arith, q), inr (inr (λ j lt. full j (omega arith) (omega arith))))
      | inr (k, f, q) ↦ inr (
        k,
        (let b = f.below in omega arith),
        f.is_free,
        (λ j lt. f.before j (omega arith) lt),
        ground arith,
        o,
        ground (arith, q),
      )
    ]
  ]
]

-- `mbr_add_partition` of a partition type on a right table leaves a right table: no two partitions
-- share a sector.
pub mbr_add_partition-IsTable :
    (t : MbrTable) (type lba sectors : ℕ) (bootable : Bool)
    → IsTable t
    → IsWords t
    → sectors ≤ uint32_max
    → type ≢ part_type_empty
    → IsTable (mbr_add_partition t type lba sectors bootable).1
mbr_add_partition-IsTable t type lba sectors bootable v u w ty =
    elim (mbr_add_partition_lem t type lba sectors bootable) [
      | inl (q, why) ↦ subst (λ (r : ℤ × MbrTable). IsTable r.1) (sym q) v
      | inr (k, lt, fr, bef, pos_lba, clear, q) ↦
          let c = (mbr_overlaps_lem t lba sectors (negsuc 0) u w).0 clear in
          subst (λ (r : ℤ × MbrTable). IsTable r.1) (sym q)
            (put-IsTable t k (new_entry type lba sectors bootable) v
              (inr (ty, boot bootable, pos_lba, c.0)) (λ j lt' ne. both j (c.1 j lt' refl)))
    ]
  where
    boot :
        (b : Bool)
        → ((new_entry type lba sectors b).status ≡ 0)
          ⊎ ((new_entry type lba sectors b).status ≡ 0x80)
    boot false = inl refl
    boot true = inr refl

    both :
        (j : ℕ)
        → Clear (t.entries j) lba sectors
        → IsApart (new_entry type lba sectors bootable) (t.entries j)
          × IsApart (t.entries j) (new_entry type lba sectors bootable)
    both j (inl z) = (inr (inl z), inl z)
    both j (inr (ok, inl b)) = (inr (inr (inl b)), inr (inr (inr b)))
    both j (inr (ok, inr b)) = (inr (inr (inr b)), inr (inr (inl b)))

-- `mbr_remove_partition` keeps a table right; for an index that is not negative it returns 0 exactly
-- below 4.
pub mbr_remove_partition-IsTable :
    (t : MbrTable) (idx : ℕ)
    → IsTable t
    → IsTable (mbr_remove_partition t (pos idx)).1
      × ((mbr_remove_partition t (pos idx)).0 ≡ pos 0 ↔ idx < part_max_entries)
unfolding mbr_remove_partition
mbr_remove_partition-IsTable t idx v = elim (Bool-cases (leb part_max_entries idx)) [
  | inl e ↦ rw e (v, ((λ q. absurd (ground (arith, q))), (λ lt. absurd (ground arith))))
  | inr e ↦ rw e (
    put-IsTable t idx zero_entry v (inl (refl, refl, refl, refl))
        (λ j lt ne. (inl refl, inr (inl refl))),
    ((λ q. ground arith), (λ lt. refl)),
  )
]
