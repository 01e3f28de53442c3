-- ===== src/Paging/Map.antt =====
-- `paging_map_user_page` of src/paging.c, and the page tables that it allocates.
use atmkoala.Base.{
  ℕ, ◌+◌, ◌/◌, ◌%◌, ◌<◌, ◌≡◌, ◌≢◌, inl, inr, refl, ap, ◌∙◌, Bool, true, false, ◌==◌, ◌&&◌, not,
  if◌then◌else◌, leb, Option, fun_ext, ◌↔◌, some, Bool-cases, arith,
}
use mathlib.Core.Path.{sym, ap₂}
use atmkoala.Paging.{
  page_size, user_pt_count, page_mask, Space, Memory, set_word, set_block, user_window,
  user_pt_slot, user_pt_page, table_of, user_entry, dir_entry, page_alloc, obtain_table, bad_page,
  paging_map_user_page, paging_user_translate,
}
use atmkoala.Paging.View.{
  entry_at, reading, IsSpace, IsFresh, slot_in, paging_user_translate-entry_at,
}
use atmkoala.Paging.Change.{
  set_entry, set_entry-IsSpace, set_entry-translate, IsSpace-words, Leaves, reading-user_entry,
  translate_out,
}

entry_at-words :
    (m m' : Memory) (s : Space) (x : ℕ) → m'.words ≡ m.words → entry_at m' s x ≡ entry_at m s x
entry_at-words m m' s x e =
    ap
      (λ w.
        if w s.user_pt (user_pt_slot x) == 0
        then 0
        else w (w s.user_pt (user_pt_slot x)) (user_pt_page x))
      e

page_alloc-null : (m : Memory) → (page_alloc m).0 ≡ 0 → (page_alloc m).1.words ≡ m.words
unfolding page_alloc
page_alloc-null m z = ground arith

page_alloc-words :
    (m : Memory)
    → (page_alloc m).0 ≢ 0
    → (page_alloc m).1.words ≡ (set_block (page_alloc m).0 (λ i. 0) m).words
unfolding page_alloc
page_alloc-words m z = ground arith

-- A zeroed block `p` becomes the table of a slot that has none.
abbrev attach : (p slot : ℕ) → Memory → Space → Memory
attach p slot m s =
    set_word (s.pd 1) slot (dir_entry p) (set_word s.user_pt slot p (set_block p (λ i. 0) m))

module _ (p slot : ℕ) (m : Memory) (s : Space) (slot_ok : slot < user_pt_count) (v : IsSpace m s)
    (fresh : IsFresh p m s) (some_p : p ≢ 0) (no_table : table_of m s slot ≡ 0) where
  attach-table_of :
      (i : ℕ) → table_of (attach p slot m s) s i ≡ (if i == slot then p else table_of m s i)
  attach-table_of i = ground (arith, fresh.not_index, v.dir_apart)

  attach-entry_at :
      (x : ℕ) → user_window x ≡ true → entry_at (attach p slot m s) s x ≡ entry_at m s x
  attach-entry_at x w =
      rw (attach-table_of (user_pt_slot x)) (elim (Bool-cases (user_pt_slot x == slot)) [
        | inl q ↦ rw q (ground (arith, fresh.not_index, fresh.not_dir))
        | inr q ↦ rw q (
            ground (
              arith,
              fresh.not_table (user_pt_slot x) (slot_in x (ground arith)),
              v.index_apart (user_pt_slot x) (slot_in x (ground arith)),
              v.tables_dir (user_pt_slot x) (slot_in x (ground arith)),
            ))
      ])

  attach-IsSpace : IsSpace (attach p slot m s) s
  attach-IsSpace = record {
    valid = v.valid;
    dir_apart = v.dir_apart;
    tables_apart = λ i j a b ne.
        rw (attach-table_of i, attach-table_of j)
          (ground (arith, v.tables_apart i j a b ne, fresh.not_table i a, fresh.not_table j b));
    index_apart =
        λ i a. rw (attach-table_of i) (ground (arith, v.index_apart i a, fresh.not_index));
    tables_dir = λ i a. rw (attach-table_of i) (ground (arith, v.tables_dir i a, fresh.not_dir));
    linked =
        λ i a. rw (attach-table_of i) (ground (arith, v.linked i a, v.dir_apart, fresh.not_dir));
  }

-- What comes after `obtain_table`, whose result is `r`.
record Obtained (slot : ℕ) (m : Memory) (s : Space) (r : Bool × Memory) : Type 0 where
  sound : IsSpace r.1 s
  there : r.0 ≡ true → table_of r.1 s slot ≢ 0
  entries : (x : ℕ) → user_window x ≡ true → entry_at r.1 s x ≡ entry_at m s x
  fails : r.0 ≡ false ↔ ((table_of m s slot ≡ 0) × ((page_alloc m).0 ≡ 0))

obtain_table-null :
    (slot : ℕ) (m : Memory) (s : Space)
    → table_of m s slot ≡ 0
    → (page_alloc m).0 ≡ 0
    → ((obtain_table slot m s).0 ≡ false) × ((obtain_table slot m s).1.words ≡ m.words)
unfolding obtain_table
obtain_table-null slot m s z p =
    rw (z, p, page_alloc-null m p) (refl, fun_ext λ q. fun_ext λ i. ground arith)

obtain_table-attach :
    (slot : ℕ) (m : Memory) (s : Space)
    → table_of m s slot ≡ 0
    → ((page_alloc m).0 == 0) ≡ false
    → ((obtain_table slot m s).0 ≡ true)
      × ((obtain_table slot m s).1.words ≡ (attach (page_alloc m).0 slot m s).words)
unfolding obtain_table
obtain_table-attach slot m s z p = rw (z, p, page_alloc-words m (ground arith)) (refl, refl)

module _ (slot : ℕ) (m : Memory) (s : Space) (slot_ok : slot < user_pt_count) (v : IsSpace m s)
    (fresh : IsFresh (page_alloc m).0 m s) where
  Obtained-there : table_of m s slot ≢ 0 → Obtained slot m s (obtain_table slot m s)
  unfolding obtain_table
  Obtained-there z =
      let e : obtain_table slot m s ≡ (true, m) = ground arith in
      rw e (record { sound = v; there = λ h. z; entries = λ x w. refl; fails = ground arith })

  Obtained-null :
      table_of m s slot ≡ 0 → (page_alloc m).0 ≡ 0 → Obtained slot m s (obtain_table slot m s)
  Obtained-null z p =
      let (e0, e1) = obtain_table-null slot m s z p in
      record {
        sound = IsSpace-words m (obtain_table slot m s).1 s e1 v;
        there = λ h. ground (arith, e0);
        entries = λ x w. entry_at-words m (obtain_table slot m s).1 s x e1;
        fails = rw e0 ((λ h. (z, p)), (λ h. refl));
      }

  Obtained-attach :
      table_of m s slot ≡ 0
      → ((page_alloc m).0 == 0) ≡ false
      → Obtained slot m s (obtain_table slot m s)
  Obtained-attach z p =
      let (e0, e1) = obtain_table-attach slot m s z p in
      let new = (page_alloc m).0 in
      let some_p : new ≢ 0 = ground arith in
      record {
        sound =
            IsSpace-words (attach new slot m s) (obtain_table slot m s).1 s e1
              (attach-IsSpace new slot m s slot_ok v fresh some_p z);
        there = λ h.
            rw
              (ap (λ f. f s.user_pt slot) e1
                ∙ attach-table_of new slot m s slot_ok v fresh some_p z slot)
              (ground arith);
        entries = λ x w.
            entry_at-words (attach new slot m s) (obtain_table slot m s).1 s x e1
            ∙ attach-entry_at new slot m s slot_ok v fresh some_p z x w;
        fails = ground (arith, e0);
      }

  obtain_table-Obtained : Obtained slot m s (obtain_table slot m s)
  obtain_table-Obtained = elim (Bool-cases (table_of m s slot == 0)) [
    | inl z ↦ elim (Bool-cases ((page_alloc m).0 == 0)) [
      | inl p ↦ Obtained-null (ground arith) (ground arith)
      | inr p ↦ Obtained-attach (ground arith) p
    ]
    | inr z ↦ Obtained-there (ground arith)
  ]

-- The new count of pages is not read by the translation.
Leaves-pages :
    (m : Memory) (s : Space) (n : ℕ) (f : ℕ → Option (ℕ × ℕ))
    → Leaves m s f
    → Leaves m (record s { mapped_pages = n }) f
unfolding paging_user_translate
Leaves-pages m s n f (v, t) = (
  record {
    valid = v.valid;
    dir_apart = v.dir_apart;
    tables_apart = v.tables_apart;
    index_apart = v.index_apart;
    tables_dir = v.tables_dir;
    linked = v.linked;
  },
  t,
)

Obtained-translate :
    (slot : ℕ) (m : Memory) (s : Space) (r : Bool × Memory)
    → s.valid ≡ true
    → Obtained slot m s r
    → (x : ℕ) → paging_user_translate r.1 s x ≡ paging_user_translate m s x
Obtained-translate slot m s r v o x = elim (Bool-cases (user_window x)) [
  | inl w ↦
      paging_user_translate-entry_at r.1 s x v w
      ∙ ap (λ e. reading e x) (o.entries x w)
      ∙ sym (paging_user_translate-entry_at m s x v w)
  | inr w ↦ translate_out r.1 s x w ∙ sym (translate_out m s x w)
]

-- The entry is set, and the count of pages.
mapped :
    (va phys flags : ℕ) (m : Memory) (s : Space)
    → IsSpace m s
    → user_window va ≡ true
    → table_of m s (user_pt_slot va) ≢ 0
    → (f : ℕ → Option (ℕ × ℕ)) → ((x : ℕ) → paging_user_translate m s x ≡ f x)
    → {n : ℕ}
    → Leaves
        (set_entry va (user_entry phys flags) m s)
        (record s { mapped_pages = n })
        λ x.
          if x / page_size == va / page_size
          then some (page_mask phys + x % page_size, user_entry phys flags)
          else f x
mapped va phys flags m s v w there f moved {n} =
    let e = user_entry phys flags in
    Leaves-pages (set_entry va e m s) s n
      (λ x.
        if x / page_size == va / page_size then some (page_mask phys + x % page_size, e) else f x)
      (
        set_entry-IsSpace m s v va e w there,
        λ x.
            set_entry-translate m s v va e w there x
            ∙ ap₂ (λ a c. if x / page_size == va / page_size then a else c)
                (reading-user_entry phys flags x) (moved x),
      )

-- `paging_map_user_page` on a sound space, where the page that `page_alloc` hands out is none of the
-- space's own, keeps it sound. When it succeeds, the addresses of the page translate to those of the
-- given physical page, with the given W and NX flags; all other addresses, and all addresses when it
-- fails, translate as before. It fails exactly outside the window, off a page boundary, and where the
-- page has no page table and none can be allocated.
pub paging_map_user_page_lem :
    (va phys flags : ℕ) (m : Memory) (s : Space)
    → IsSpace m s
    → IsFresh (page_alloc m).0 m s
    → let r = paging_map_user_page va phys flags m s in
      (Leaves r.1 r.2 λ x.
        if r.0 && x / page_size == va / page_size
        then some (page_mask phys + x % page_size, user_entry phys flags)
        else paging_user_translate m s x)
      × (r.0 ≡ (
          if bad_page s va
          then false
          else not (table_of m s (user_pt_slot va) == 0 && (page_alloc m).0 == 0)))
unfolding paging_map_user_page
paging_map_user_page_lem va phys flags m s v fresh = elim (Bool-cases (bad_page s va)) [
  | inl b ↦ rw b ((v, λ x. refl), refl)
  | inr b ↦
      let slot = user_pt_slot va in
      let r1 = obtain_table slot m s in
      let o = obtain_table-Obtained slot m s (slot_in va (ground arith)) v fresh in
      let high : leb user_pt_count slot ≡ false = ground arith in
      let moved = Obtained-translate slot m s r1 v.valid o in
      elim (Bool-cases r1.0) [
        | inl ok ↦
            rw (b, high, ok)
              (
                mapped va phys flags r1.1 s o.sound (ground arith) (o.there ok)
                    (paging_user_translate m s) moved,
                ground (arith, o.fails, ok),
              )
        | inr ko ↦ rw (b, high, ko) ((o.sound, moved), ground (arith, o.fails, ko))
      ]
]
