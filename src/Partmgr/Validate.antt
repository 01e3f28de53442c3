-- ===== src/Partmgr/Validate.antt =====
-- `mbr_validate` of src/partmgr.c.
use atmkoala.Base.{
  ℕ, zero, suc, ◌+◌, ◌-◌, ◌≤◌, ◌<◌, ◌≡◌, ◌≢◌, ◌↔◌, inl, inr, refl, Bool, true, false, ◌==◌, ◌&&◌,
  ◌||◌, not, if◌then◌else◌, ltb, pos, Bool-cases, arith,
}
use mathlib.Core.Path.{subst}
use atmkoala.Partmgr.{
  MbrTable, part_type_empty, part_max_entries, uint32_max, mbr_overlaps, validate_from,
  mbr_validate,
}
use atmkoala.Partmgr.Table.{Clear, IsWords, IsEntry, IsApart, IsTable, mbr_overlaps_lem}

-- What a round of the loop asks of the entry at `i`.
abbrev accepts : MbrTable → ℕ → Bool
accepts t i =
    if (t.entries i).type == part_type_empty
    then (t.entries i).status == 0
      && (t.entries i).lba_start == 0
      && (t.entries i).sector_count == 0
    else ((t.entries i).status == 0 || (t.entries i).status == 0x80)
      && not ((t.entries i).sector_count == 0)
      && not (ltb (t.entries i).lba_start 1)
      && not (ltb (uint32_max - (t.entries i).sector_count) (t.entries i).lba_start)
      && not (mbr_overlaps t (t.entries i).lba_start (t.entries i).sector_count (pos i))

validate_from-accepts :
    (n i : ℕ) (t : MbrTable) (j : ℕ)
    → validate_from n i t ≡ pos 0
    → i ≤ j
    → j < i + n
    → accepts t j ≡ true
unfolding validate_from
validate_from-accepts zero i t j e lo hi = absurd (omega arith)
validate_from-accepts (suc n) i t j e lo hi = elim (Bool-cases (i == j)) [
  | inl q ↦
      subst (λ (k : ℕ). accepts t k ≡ true) (let same : i ≡ j = ground arith in same)
        (let here : accepts t i ≡ true = ground arith in here)
  | inr q ↦ validate_from-accepts n (i + 1) t j (ground arith) (ground arith) (omega arith)
]

accepts-validate_from :
    (n i : ℕ) (t : MbrTable)
    → ((j : ℕ) → i ≤ j → j < i + n → accepts t j ≡ true)
    → validate_from n i t ≡ pos 0
unfolding validate_from
accepts-validate_from zero i t c = refl
accepts-validate_from (suc n) i t c =
    let rest = accepts-validate_from n (i + 1) t (λ j lo hi. c j (omega arith) (omega arith)) in
    let here = c i (omega arith) (omega arith) in ground arith

accepts-IsEntry :
    (t : MbrTable) (i : ℕ)
    → (t.entries i).sector_count ≤ uint32_max
    → accepts t i ≡ true
    → IsEntry (t.entries i)
accepts-IsEntry t i u e = elim (Bool-cases ((t.entries i).type == part_type_empty)) [
  | inl q ↦ inl (ground arith, ground arith, ground arith, ground arith)
  | inr q ↦ inr (
    ground arith,
    (elim (Bool-cases ((t.entries i).status == 0)) [
      | inl z ↦ inl (ground arith)
      | inr z ↦ inr (ground arith)
    ]),
    ground arith,
    record { some_sectors = ground arith; fits = ground arith },
  )
]

accepts-IsApart :
    (t : MbrTable) (i j : ℕ)
    → IsWords t
    → j < part_max_entries
    → i ≢ j
    → accepts t i ≡ true
    → IsApart (t.entries i) (t.entries j)
accepts-IsApart t i j u lt ne e = elim (Bool-cases ((t.entries i).type == part_type_empty)) [
  | inl q ↦ inl (ground arith)
  | inr q ↦
      let no : mbr_overlaps t (t.entries i).lba_start (t.entries i).sector_count (pos i) ≡ false =
        ground arith in
      let r =
        (mbr_overlaps_lem t (t.entries i).lba_start (t.entries i).sector_count (pos i) u (u i)).0
          no in
      elim (r.1 j lt (ground arith)) [
        | inl z ↦ inr (inl z)
        | inr (ok, inl b) ↦ inr (inr (inl b))
        | inr (ok, inr b) ↦ inr (inr (inr b))
      ]
]

IsTable-accepts :
    (t : MbrTable) (i : ℕ) → IsWords t → i < part_max_entries → IsTable t → accepts t i ≡ true
IsTable-accepts t i u lt v = elim (v.entry i lt) [
  | inl (ty, st, lba, cnt) ↦ ground arith
  | inr (ty, st, lba, r) ↦
      let o1 = r.some_sectors in
      let o2 = r.fits in
      let no : mbr_overlaps t (t.entries i).lba_start (t.entries i).sector_count (pos i) ≡ false =
        (mbr_overlaps_lem t (t.entries i).lba_start (t.entries i).sector_count (pos i) u (u i)).1 (
          r,
          λ j lt' ne.
              clear j lt' (ground arith) ty (v.entry j lt') (v.apart i j lt lt' (ground arith)),
        ) in
      ground arith
]
  where
    clear :
        (j : ℕ)
        → j < part_max_entries
        → i ≢ j
        → (t.entries i).type ≢ part_type_empty
        → IsEntry (t.entries j)
        → IsApart (t.entries i) (t.entries j)
        → Clear (t.entries j) (t.entries i).lba_start (t.entries i).sector_count
    clear j lt' ne ty (inl w) a = inl w.0
    clear j lt' ne ty (inr w) (inl z) = absurd (ty z)
    clear j lt' ne ty (inr w) (inr (inl z)) = inl z
    clear j lt' ne ty (inr w) (inr (inr (inl b))) = inr (w.3, inl b)
    clear j lt' ne ty (inr w) (inr (inr (inr b))) = inr (w.3, inr b)

-- If the numbers of sectors of a table are 32-bit, `mbr_validate` returns 0 exactly when its entries are
-- right and its partitions have no sector in common, whatever its field `valid` is.
pub mbr_validate_lem : (t : MbrTable) → IsWords t → mbr_validate t ≡ pos 0 ↔ IsTable t
unfolding mbr_validate
mbr_validate_lem t u = (
  (λ e. record {
    entry = λ i lt.
        accepts-IsEntry t i (u i)
          (validate_from-accepts part_max_entries 0 t i e (omega arith) (omega arith));
    apart = λ i j lt lt' ne.
        accepts-IsApart t i j u lt' ne
          (validate_from-accepts part_max_entries 0 t i e (omega arith) (omega arith));
  }),
  (λ v.
      accepts-validate_from part_max_entries 0 t
        (λ j lo hi. IsTable-accepts t j u (omega arith) v)),
)
