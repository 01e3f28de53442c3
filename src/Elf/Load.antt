-- ===== src/Elf/Load.antt =====
-- `elf64_load_user` of src/elf.c: the pages, the bytes and the checks of the segments.
use atmkoala.Base.{
  ℕ, zero, suc, ◌+◌, ◌-◌, ◌*◌, ◌/◌, ◌%◌, min, Bool, true, false, ◌==◌, ◌||◌, not, if◌then◌else◌,
  ltb, leb, Option, none, some, is_some, List, [], ◌∷◌,
}
use atmkoala.Heap.{kmalloc_aligned, u64_mod}
use atmkoala.Paging.{
  page_size, page_mask, user_base, user_top, user_window_size, pte_nx, Space, Memory,
  paging_map_user_page, paging_user_translate,
}
use atmkoala.Paging.Uaccess.{store, round_bytes}
use atmkoala.Elf.{Ehdr, ehdr_of, Phdr, phdr_size, phdr_at, elf64_validate_native}

-- `ATM_USER_STACK_TOP`
abbrev pub user_stack_top : ℕ
user_stack_top = user_top - 0x1000

-- `pf & PF_X` and `pf & PF_W`
abbrev pub pf_x : ℕ → ℕ
pf_x pf = pf % 2

abbrev pub pf_w : ℕ → ℕ
pf_w pf = pf / 2 % 2

unfoldable pub elf64_map_page : (va pf : ℕ) → Memory → Space → Bool × Memory × Space
elf64_map_page va pf m s =
    let (page, h) = kmalloc_aligned page_size page_size m.heap in
    let m1 : Memory = record m { heap = h } in
    let flags = (if pf_w pf == 0 then 0 else 2) + (if pf_x pf == 0 then pte_nx else 0) in
    if is_some (paging_user_translate m s va)
    then (true, m, s)
    else if page == 0
    then (false, m1, s)
    else paging_map_user_page va page flags m1 s

-- The loop on the pages of a segment, for at most `fuel` pages; nothing when they do not suffice.
unfoldable pub map_pages : (fuel page last pf : ℕ) → Memory → Space → Option (Bool × Memory × Space)
map_pages zero page last pf m s = none
map_pages (suc fuel) page last pf m s =
    let (ok, m1, s1) = elf64_map_page page pf m s in
    let rest = map_pages fuel ((page + page_size) % u64_mod) last pf m1 s1 in
    if not ok then some (false, m1, s1) else if page == last then some (true, m1, s1) else rest

-- The bytes of the file from `src` on, `n` of them.
abbrev pub file_bytes : (src n : ℕ) → (ℕ → ℕ) → List ℕ
file_bytes src zero buf = []
file_bytes src (suc n) buf = buf src ∷ file_bytes (src + 1) n buf

abbrev pub zero_bytes : ℕ → List ℕ
zero_bytes zero = []
zero_bytes (suc n) = 0 ∷ zero_bytes n

-- The loops of `elf64_copy_to_mapped` and `elf64_zero_mapped`; `bytes_from` has the bytes to write, by
-- their place and number. A round takes at least one byte.
unfoldable pub write_mapped :
    (fuel va at n : ℕ) → (bytes_from : ℕ → ℕ → List ℕ) → Space → Memory → Bool × Memory
write_mapped zero va at n bytes_from s m = (false, m)
write_mapped (suc fuel) va at n bytes_from s m =
    let take = round_bytes va n in
    if n == 0 then (true, m) else (elim (paging_user_translate m s va) [
      | none ↦ (false, m)
      | some (p, f) ↦
          write_mapped fuel (va + take) (at + take) (n - take) bytes_from s
            (record m { bytes = store p (bytes_from at take) m.bytes })
    ])

abbrev pub elf64_copy_to_mapped : (va src n : ℕ) → (ℕ → ℕ) → Space → Memory → Bool × Memory
elf64_copy_to_mapped va src n buf s m =
    write_mapped (suc n) va src n (λ at k. file_bytes at k buf) s m

abbrev pub elf64_zero_mapped : (va n : ℕ) → Space → Memory → Bool × Memory
elf64_zero_mapped va n s m = write_mapped (suc n) va 0 n (λ at k. zero_bytes k) s m

-- The errors.
pub data Reason : Type 0 where
  invalid headers_outside malformed outside_window no_pages copy_failed invalid_entry no_stack :
      Reason

-- `base`, `end` and `loads`
pub record Progress : Type 0 where
  pub base : ℕ
  pub end : ℕ
  pub loads : ℕ

pub data Segments : Type 0 where
  refused : Reason → Segments
  accepted : Progress → Segments

-- `p->p_filesz>p->p_memsz || ...`
abbrev pub is_malformed : (size : ℕ) → Phdr → Bool
is_malformed size p =
    ltb p.p_memsz p.p_filesz || ltb size p.p_offset || ltb (size - p.p_offset) p.p_filesz

abbrev pub seg_end : Phdr → ℕ
seg_end p = (p.p_vaddr + p.p_memsz) % u64_mod

abbrev pub is_outside : Phdr → Bool
is_outside p =
    ltb (seg_end p) p.p_vaddr || ltb p.p_vaddr user_base || ltb user_stack_top (seg_end p)

-- The bytes of a segment whose pages are mapped.
unfoldable pub fill_segment : (ℕ → ℕ) → Phdr → Progress → Memory → Space → Segments × Memory × Space
fill_segment buf p g m s =
    let (ok1, m1) = elf64_copy_to_mapped p.p_vaddr p.p_offset p.p_filesz buf s m in
    let (ok2, m2) =
      elf64_zero_mapped ((p.p_vaddr + p.p_filesz) % u64_mod) (p.p_memsz - p.p_filesz) s m1 in
    if not ok1
    then (refused copy_failed, m1, s)
    else if not ok2
    then (refused copy_failed, m2, s)
    else (
      accepted (record {
        base = min p.p_vaddr g.base;
        end = (if ltb g.end (seg_end p) then seg_end p else g.end);
        loads = g.loads + 1;
      }),
      m2,
      s,
    )

-- One program header. Nothing is a loop on pages without end.
unfoldable pub load_segment :
    (ℕ → ℕ) → (size : ℕ) → Phdr → Progress → Memory → Space → Option (Segments × Memory × Space)
load_segment buf size p g m s =
    let mapped =
      map_pages (user_window_size / page_size) (page_mask p.p_vaddr) (page_mask (seg_end p - 1))
        p.p_flags m s in
    if not (p.p_type == 1) || p.p_memsz == 0
    then some (accepted g, m, s)
    else if is_malformed size p
    then some (refused malformed, m, s)
    else if is_outside p
    then some (refused outside_window, m, s)
    else (elim mapped [
      | none ↦ none
      | some (ok, m1, s1) ↦
          if ok then some (fill_segment buf p g m1 s1) else some (refused no_pages, m1, s1)
    ])

-- The loop on the program headers from `i` on, `n` of them.
unfoldable pub load_segments :
    (n i : ℕ)
    → (ℕ → ℕ)
    → (size phoff : ℕ) → Progress
    → Memory
    → Space
    → Option (Segments × Memory × Space)
load_segments zero i buf size phoff g m s = some (accepted g, m, s)
load_segments (suc n) i buf size phoff g m s =
    elim (load_segment buf size (phdr_at (phoff + i * phdr_size) buf) g m s) [
      | none ↦ none
      | some (refused e, m1, s1) ↦ some (refused e, m1, s1)
      | some (accepted g1, m1, s1) ↦ load_segments n (i + 1) buf size phoff g1 m1 s1
    ]

-- `elf64_user_image_t`
pub record Image : Type 0 where
  pub entry : ℕ
  pub load_base : ℕ
  pub load_end : ℕ
  pub stack_top : ℕ

pub data Loaded : Type 0 where
  rejected : Reason → Loaded
  image : Image → Loaded

-- The entry and the stack, behind the segments.
unfoldable pub finish_load : Ehdr → Progress → Memory → Space → Loaded × Memory × Space
finish_load h g m s =
    let (ok, m1, s1) = elf64_map_page user_stack_top 2 m s in
    if g.loads == 0 || ltb h.e_entry user_base || leb user_stack_top h.e_entry
    then (rejected invalid_entry, m, s)
    else if not ok
    then (rejected no_stack, m1, s1)
    else (
      image (record {
        entry = h.e_entry;
        load_base = g.base;
        load_end = g.end;
        stack_top = user_stack_top + page_size;
      }),
      m1,
      s1,
    )

unfoldable pub elf64_load_user :
    (ℕ → ℕ) → (size : ℕ) → Memory → Space → Option (Loaded × Memory × Space)
elf64_load_user buf size m s =
    let h = ehdr_of buf in
    let first : Progress = record { base = u64_mod - 1; end = 0; loads = 0 } in
    if not s.valid || not (elf64_validate_native buf size)
    then some (rejected invalid, m, s)
    else if ltb size h.e_phoff || ltb (size - h.e_phoff) (h.e_phnum * phdr_size)
    then some (rejected headers_outside, m, s)
    else (elim (load_segments h.e_phnum 0 buf size h.e_phoff first m s) [
      | none ↦ none
      | some (refused e, m1, s1) ↦ some (rejected e, m1, s1)
      | some (accepted g, m1, s1) ↦ some (finish_load h g m1 s1)
    ])
