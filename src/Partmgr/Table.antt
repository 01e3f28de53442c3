-- ===== src/Partmgr/Table.antt =====
-- What the tests of src/partmgr.c mean, and the tables that satisfy them.
use atmkoala.Base.{
  ℕ, zero, suc, ◌+◌, ◌%◌, ◌≤◌, ◌<◌, ◌≡◌, ◌≢◌, ◌⊎◌, ◌↔◌, inl, inr, refl, Bool, true, false, ◌==◌,
  ◌&&◌, if◌then◌else◌, ltb, leb, ℤ, Bool-cases, arith,
}
use mathlib.Core.Path.{subst}
use atmkoala.Partmgr.{
  MbrEntry, MbrTable, part_type_empty, part_max_entries, uint32_max, is_idx, bad_range,
  overlaps_from, mbr_overlaps,
}

-- A range that is not empty and ends at most at `UINT32_MAX`.
pub record InRange (lba sectors : ℕ) : Type 0 where
  pub some_sectors : 0 < sectors
  pub fits : lba + sectors ≤ uint32_max

-- The fields of the entries are 32-bit numbers, as far as it matters here.
abbrev pub IsWords : MbrTable → Type 0
IsWords t = (i : ℕ) → (t.entries i).sector_count ≤ uint32_max

-- The entry is not used, or its range is right and apart from the given one.
abbrev pub Clear : MbrEntry → (lba sectors : ℕ) → Type 0
Clear e lba sectors =
    (e.type ≡ part_type_empty)
    ⊎ (InRange e.lba_start e.sector_count
        × ((lba + sectors ≤ e.lba_start) ⊎ (e.lba_start + e.sector_count ≤ lba)))

-- The test of one entry.
abbrev hits : MbrEntry → (lba sectors : ℕ) → Bool
hits e lba sectors =
    if e.type == part_type_empty
    then false
    else if bad_range e.lba_start e.sector_count
    then true
    else ltb lba ((e.lba_start + e.sector_count) % (uint32_max + 1))
      && ltb e.lba_start ((lba + sectors) % (uint32_max + 1))

hits-Clear :
    (e : MbrEntry) (lba sectors : ℕ)
    → InRange lba sectors
    → e.sector_count ≤ uint32_max
    → hits e lba sectors ≡ false
    → Clear e lba sectors
hits-Clear e lba sectors r u h = elim (Bool-cases (e.type == part_type_empty)) [
  | inl t ↦ inl (ground arith)
  | inr f ↦
      let ok : InRange e.lba_start e.sector_count = record {
        some_sectors = ground arith;
        fits = ground arith;
      } in
      elim (Bool-cases (leb (lba + sectors) e.lba_start)) [
        | inl b ↦ inr (ok, inl (ground arith))
        | inr b ↦ inr (ok, inr (let o1 = ok.fits in let o2 = r.fits in ground arith))
      ]
]

Clear-hits :
    (e : MbrEntry) (lba sectors : ℕ)
    → InRange lba sectors
    → Clear e lba sectors
    → hits e lba sectors ≡ false
Clear-hits e lba sectors r (inl t) = ground arith
Clear-hits e lba sectors r (inr (ok, inl b)) =
    let o1 = ok.fits in let o2 = r.fits in let o3 = ok.some_sectors in ground arith
Clear-hits e lba sectors r (inr (ok, inr b)) =
    let o1 = ok.fits in let o2 = r.fits in let o3 = ok.some_sectors in ground arith

pub overlaps_from-Clear :
    (n i : ℕ) (t : MbrTable) (lba sectors : ℕ) (ig : ℤ) (j : ℕ)
    → InRange lba sectors
    → IsWords t
    → overlaps_from n i t lba sectors ig ≡ false
    → i ≤ j
    → j < i + n
    → is_idx j ig ≡ false
    → Clear (t.entries j) lba sectors
unfolding overlaps_from
overlaps_from-Clear zero i t lba sectors ig j r u e lo hi ne = absurd (omega arith)
overlaps_from-Clear (suc n) i t lba sectors ig j r u e lo hi ne = elim (Bool-cases (i == j)) [
  | inl q ↦
      let same : i ≡ j = ground arith in
      subst (λ (k : ℕ). Clear (t.entries k) lba sectors) same
        (hits-Clear (t.entries i) lba sectors r (u i)
          (let ne' : is_idx i ig ≡ false = rw same ne in ground arith))
  | inr q ↦
      overlaps_from-Clear n (i + 1) t lba sectors ig j r u (ground arith) (ground arith)
        (omega arith) ne
]

pub Clear-overlaps_from :
    (n i : ℕ) (t : MbrTable) (lba sectors : ℕ) (ig : ℤ)
    → InRange lba sectors
    → ((j : ℕ) → i ≤ j → j < i + n → is_idx j ig ≡ false → Clear (t.entries j) lba sectors)
    → overlaps_from n i t lba sectors ig ≡ false
unfolding overlaps_from
Clear-overlaps_from zero i t lba sectors ig r c = refl
Clear-overlaps_from (suc n) i t lba sectors ig r c =
    let rest =
      Clear-overlaps_from n (i + 1) t lba sectors ig r
        (λ j lo hi ne. c j (omega arith) (omega arith) ne) in
    elim (Bool-cases (is_idx i ig)) [
      | inl q ↦ ground arith
      | inr q ↦
          let h = Clear-hits (t.entries i) lba sectors r (c i (omega arith) (omega arith) q) in
          ground arith
    ]

-- `mbr_overlaps` finds no overlap exactly when the range is right, and every entry but the ignored one
-- is empty or has a right range apart from it, in a table of 32-bit numbers.
pub mbr_overlaps_lem :
    (t : MbrTable) (lba sectors : ℕ) (ig : ℤ)
    → IsWords t
    → sectors ≤ uint32_max
    → mbr_overlaps t lba sectors ig ≡ false ↔ (
        InRange lba sectors
        × ((j : ℕ) → j < part_max_entries → is_idx j ig ≡ false → Clear (t.entries j) lba sectors))
unfolding mbr_overlaps
mbr_overlaps_lem t lba sectors ig u w = (
  (λ e.
      let r : InRange lba sectors = record { some_sectors = ground arith; fits = ground arith } in
      (
        r,
        λ j lt ne.
            overlaps_from-Clear part_max_entries 0 t lba sectors ig j r u (ground arith)
              (omega arith) (omega arith) ne,
      )),
  (λ (r, c).
      let o1 = r.some_sectors in
      let o2 = r.fits in
      let e =
        Clear-overlaps_from part_max_entries 0 t lba sectors ig r
          (λ j lo hi ne. c j (omega arith) ne) in
      ground arith),
)

-- An entry that `mbr_validate` accepts by itself.
abbrev pub IsEntry : MbrEntry → Type 0
IsEntry e =
    ((e.type ≡ part_type_empty) × (e.status ≡ 0) × (e.lba_start ≡ 0) × (e.sector_count ≡ 0))
    ⊎ ((e.type ≢ part_type_empty)
        × ((e.status ≡ 0) ⊎ (e.status ≡ 0x80))
        × (0 < e.lba_start)
        × InRange e.lba_start e.sector_count)

-- The ranges of two entries have no sector in common.
abbrev pub IsApart : MbrEntry → MbrEntry → Type 0
IsApart d e =
    (d.type ≡ part_type_empty)
    ⊎ (e.type ≡ part_type_empty)
    ⊎ (d.lba_start + d.sector_count ≤ e.lba_start)
    ⊎ (e.lba_start + e.sector_count ≤ d.lba_start)

-- A table with right entries, whose partitions have no sector in common.
pub record IsTable (t : MbrTable) : Type 0 where
  pub entry : (i : ℕ) → i < part_max_entries → IsEntry (t.entries i)
  pub apart :
      (i j : ℕ)
      → i < part_max_entries
      → j < part_max_entries
      → i ≢ j
      → IsApart (t.entries i) (t.entries j)
