-- ===== src/Paging/View.antt =====
-- What the page tables of src/paging.c mean: the entry of each page of the window, and the spaces
-- whose tables are blocks of their own.
use atmkoala.Base.{ℕ, ◌+◌, ◌%◌, ◌<◌, ◌≡◌, ◌≢◌, true, ◌==◌, if◌then◌else◌, Option, none, some, arith}
use atmkoala.Paging.{
  page_size, user_top, user_pt_count, page_mask, Space, Memory, user_window, user_pt_slot,
  user_pt_page, table_of, dir_entry, not_user, paging_user_translate,
}

-- The entry of page `va / 4096`, 0 where there is no table.
abbrev pub entry_at : Memory → Space → ℕ → ℕ
entry_at m s va =
    if table_of m s (user_pt_slot va) == 0
    then 0
    else m.words (table_of m s (user_pt_slot va)) (user_pt_page va)

-- What an entry gives for an address of its page.
abbrev pub reading : ℕ → ℕ → Option (ℕ × ℕ)
reading e va = if not_user e then none else some (page_mask e + va % page_size, e)

-- The page tables, their index and the page directory are different blocks, and the directory
-- has every table, as its index has.
pub record IsSpace (m : Memory) (s : Space) : Type 0 where
  pub valid : s.valid ≡ true
  pub dir_apart : s.pd 1 ≢ s.user_pt
  pub tables_apart :
      (i j : ℕ)
      → i < user_pt_count
      → j < user_pt_count
      → i ≢ j
      → table_of m s i ≢ 0
      → table_of m s i ≢ table_of m s j
  pub index_apart : (i : ℕ) → i < user_pt_count → table_of m s i ≢ 0 → table_of m s i ≢ s.user_pt
  pub tables_dir : (i : ℕ) → i < user_pt_count → table_of m s i ≢ 0 → table_of m s i ≢ s.pd 1
  pub linked :
      (i : ℕ)
      → i < user_pt_count
      → table_of m s i ≢ 0
      → m.words (s.pd 1) i ≡ dir_entry (table_of m s i)

-- The block is none of those of the space.
pub record IsFresh (p : ℕ) (m : Memory) (s : Space) : Type 0 where
  pub not_index : p ≢ s.user_pt
  pub not_dir : p ≢ s.pd 1
  pub not_table : (i : ℕ) → i < user_pt_count → table_of m s i ≢ 0 → table_of m s i ≢ p

-- The slot of an address of the window is in the index.
pub slot_in : (va : ℕ) → va < user_top → user_pt_slot va < user_pt_count
slot_in va h = omega arith

pub paging_user_translate-entry_at :
    (m : Memory) (s : Space) (va : ℕ)
    → s.valid ≡ true
    → user_window va ≡ true
    → paging_user_translate m s va ≡ reading (entry_at m s va) va
unfolding paging_user_translate
paging_user_translate-entry_at m s va v h = ground arith
