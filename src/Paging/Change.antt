-- ===== src/Paging/Change.antt =====
-- The calls of src/paging.c that change the entry of a page.
use atmkoala.Base.{
  ℕ, ◌+◌, ◌/◌, ◌%◌, ◌≡◌, ◌≢◌, inl, inr, refl, Bool, true, false, ◌==◌, ◌||◌, ◌&&◌, if◌then◌else◌,
  leb, Option, is_some, none, some, Bool-cases, arith,
}
use atmkoala.Heap.{Heap, kfree}
use atmkoala.Paging.{
  page_size, user_pt_count, page_mask, Space, Memory, set_word, user_window, user_pt_slot,
  user_pt_page, table_of, user_entry, not_user, bad_page, paging_unmap_user_page,
  paging_release_user_page, paging_protect_user_page, paging_user_translate,
}
use atmkoala.Paging.View.{entry_at, reading, IsSpace, slot_in, paging_user_translate-entry_at}

-- The entry of `va`'s page becomes `e`, in a table that is there.
abbrev pub set_entry : (va e : ℕ) → Memory → Space → Memory
set_entry va e m s = set_word (table_of m s (user_pt_slot va)) (user_pt_page va) e m

pub translate_out :
    (m : Memory) (s : Space) (x : ℕ) → user_window x ≡ false → paging_user_translate m s x ≡ none
unfolding paging_user_translate
translate_out m s x o = ground arith

module _ (m : Memory) (s : Space) (v : IsSpace m s) (va e : ℕ) (win : user_window va ≡ true)
    (there : table_of m s (user_pt_slot va) ≢ 0) where
  pub set_entry-table_of : (i : ℕ) → table_of (set_entry va e m s) s i ≡ table_of m s i
  set_entry-table_of i =
      ground (arith, v.index_apart (user_pt_slot va) (slot_in va (ground arith)) there)

  set_entry-entry_at :
      (x : ℕ)
      → user_window x ≡ true
      → entry_at (set_entry va e m s) s x
        ≡ (if x / page_size == va / page_size then e else entry_at m s x)
  set_entry-entry_at x w = elim (Bool-cases (user_pt_slot x == user_pt_slot va)) [
    | inl q ↦
        let same : user_pt_slot x ≡ user_pt_slot va = ground arith in
        rw (set_entry-table_of (user_pt_slot x), same) (ground (arith, there))
    | inr q ↦
        rw (set_entry-table_of (user_pt_slot x))
          (ground (arith, v.tables_apart (user_pt_slot x) (user_pt_slot va)))
  ]

  pub set_entry-IsSpace : IsSpace (set_entry va e m s) s
  set_entry-IsSpace = record {
    valid = v.valid;
    dir_apart = v.dir_apart;
    tables_apart = λ i j a b ne p.
        rw (set_entry-table_of i, set_entry-table_of j)
          (v.tables_apart i j a b ne (rw (set_entry-table_of i) at p));
    index_apart =
        λ i a p. rw (set_entry-table_of i) (v.index_apart i a (rw (set_entry-table_of i) at p));
    tables_dir =
        λ i a p. rw (set_entry-table_of i) (v.tables_dir i a (rw (set_entry-table_of i) at p));
    linked = λ i a p. rw (set_entry-table_of i) (
        ground (
          arith,
          v.tables_dir (user_pt_slot va) (slot_in va (ground arith)) there,
          v.linked i a (rw (set_entry-table_of i) at p),
        ));
  }

  pub set_entry-translate :
      (x : ℕ)
      → paging_user_translate (set_entry va e m s) s x
        ≡ (if x / page_size == va / page_size then reading e x else paging_user_translate m s x)
  set_entry-translate x = elim (Bool-cases (user_window x)) [
    | inl w ↦
        rw
          (
            paging_user_translate-entry_at (set_entry va e m s) s x v.valid w,
            paging_user_translate-entry_at m s x v.valid w,
            set_entry-entry_at x w,
          )
          (ground arith)
    | inr o ↦ rw (translate_out (set_entry va e m s) s x o, translate_out m s x o) (ground arith)
  ]

pub reading-user_entry :
    (phys flags x : ℕ)
    → reading (user_entry phys flags) x
      ≡ some (page_mask phys + x % page_size, user_entry phys flags)
reading-user_entry phys flags x = ground arith

-- What a call does to the space: afterwards it is sound, and every address translates as `f` says.
abbrev pub Leaves : Memory → Space → (ℕ → Option (ℕ × ℕ)) → Type 0
Leaves m s f = IsSpace m s × ((x : ℕ) → paging_user_translate m s x ≡ f x)

-- Only the words of the memory matter.
pub IsSpace-words : (m m' : Memory) (s : Space) → m'.words ≡ m.words → IsSpace m s → IsSpace m' s
IsSpace-words m m' s e v = record {
  valid = v.valid;
  dir_apart = v.dir_apart;
  tables_apart = rw e v.tables_apart;
  index_apart = rw e v.index_apart;
  tables_dir = rw e v.tables_dir;
  linked = rw e v.linked;
}

Leaves-heap :
    (m : Memory) (s : Space) (heap : Heap) (f : ℕ → Option (ℕ × ℕ))
    → Leaves m s f
    → Leaves (record m { heap = heap }) s f
unfolding paging_user_translate
Leaves-heap m s heap f (v, t) = (IsSpace-words m (record m { heap = heap }) s refl v, t)

-- A guarded change of one entry, and of the heap.
guarded_entry :
    (c : Bool) (va e : ℕ) (m : Memory) (s : Space) (heap : Heap)
    → IsSpace m s
    → (c ≡ false → (user_window va ≡ true) × (table_of m s (user_pt_slot va) ≢ 0))
    → (h : ℕ → Option (ℕ × ℕ)) → (c ≡ false → (x : ℕ) → reading e x ≡ h x)
    → let r : Bool × Memory =
        if c then (false, m) else (true, record (set_entry va e m s) { heap = heap }) in
      Leaves r.1 s
        λ x. if r.0 && x / page_size == va / page_size then h x else paging_user_translate m s x
guarded_entry true va e m s heap v g h hr = (v, λ x. refl)
guarded_entry false va e m s heap v g h hr =
    let (w, there) = g refl in
    Leaves-heap (set_entry va e m s) s heap
      (λ x. if x / page_size == va / page_size then h x else paging_user_translate m s x)
      (
        set_entry-IsSpace m s v va e w there,
        λ x. rw (set_entry-translate m s v va e w there x) (ground (arith, hr refl x)),
      )

-- `paging_protect_user_page` on a sound space keeps it sound. When it succeeds, the addresses of the
-- page translate to the same physical addresses as before, with the entry that has the new W and NX
-- flags; all other addresses, and all addresses when it fails, translate as before.
pub paging_protect_user_page_lem :
    (va flags : ℕ) (m : Memory) (s : Space)
    → IsSpace m s
    → let r = paging_protect_user_page va flags m s in
      Leaves r.1 s λ x.
        if r.0 && x / page_size == va / page_size
        then some (page_mask (entry_at m s va) + x % page_size, user_entry (entry_at m s va) flags)
        else paging_user_translate m s x
unfolding paging_protect_user_page
paging_protect_user_page_lem va flags m s v =
    let old = m.words (table_of m s (user_pt_slot va)) (user_pt_page va) in
    guarded_entry
      (bad_page s va
        || leb user_pt_count (user_pt_slot va)
        || table_of m s (user_pt_slot va) == 0
        || not_user old)
      va (user_entry old flags) m s m.heap v (λ g. ground arith)
      (λ x. some (page_mask (entry_at m s va) + x % page_size, user_entry (entry_at m s va) flags))
      (λ g x.
        let e : entry_at m s va ≡ old = ground (arith, g) in rw e (reading-user_entry old flags x))

-- `paging_unmap_user_page` on a sound space keeps it sound. When it succeeds, the addresses of the page
-- do not translate any more; all other addresses, and all addresses when it fails, translate as before.
pub paging_unmap_user_page_lem :
    (va : ℕ) (m : Memory) (s : Space)
    → IsSpace m s
    → let r = paging_unmap_user_page va m s in
      Leaves r.1 s
        λ x. if r.0 && x / page_size == va / page_size then none else paging_user_translate m s x
unfolding paging_unmap_user_page
paging_unmap_user_page_lem va m s v =
    ground (arith, set_entry-IsSpace m s v va 0, set_entry-translate m s v va 0)

-- `paging_release_user_page` on a sound space keeps it sound, and does to the addresses what
-- `paging_unmap_user_page` does. It succeeds exactly on a page of the window that translates, in a
-- space that is valid.
pub paging_release_user_page_lem :
    (va : ℕ) (m : Memory) (s : Space)
    → IsSpace m s
    → let r = paging_release_user_page va m s in
      (Leaves r.1 s
        λ x. if r.0 && x / page_size == va / page_size then none else paging_user_translate m s x)
      × (r.0 ≡ (if bad_page s va then false else is_some (paging_user_translate m s va)))
unfolding paging_release_user_page paging_user_translate
paging_release_user_page_lem va m s v =
    let old = m.words (table_of m s (user_pt_slot va)) (user_pt_page va) in
    (
      guarded_entry
          (bad_page s va
            || leb user_pt_count (user_pt_slot va)
            || table_of m s (user_pt_slot va) == 0
            || not_user old)
          va 0 m s (kfree (page_mask old) m.heap) v (λ g. ground arith) (λ x. none) (λ g x. refl),
      ground arith,
    )
