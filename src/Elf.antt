-- ===== src/Elf.antt =====
-- The loader of 64-bit programs of src/elf.c, over the address spaces of src/paging.c. The file is the function
-- from an offset to its byte, with its size. The texts of the errors are the constructors of
-- `Reason`.
pub mod Load
pub mod Bounds
mod Tests
use atmkoala.Base.{
  ℕ, zero, suc, ◌+◌, ◌-◌, ◌*◌, ◌/◌, ◌%◌, min, Bool, true, false, ◌==◌, ◌&&◌, ◌||◌, not,
  if◌then◌else◌, ltb, leb, Option, none, some, is_some, List, [], ◌∷◌,
}
use atmkoala.Heap.{kmalloc_aligned, u64_mod}
use atmkoala.Paging.{
  page_size, page_mask, user_base, user_top, user_window_size, pte_nx, Space, Memory,
  paging_map_user_page, paging_user_translate,
}
use atmkoala.Paging.Uaccess.{store, round_bytes}

-- The `n` bytes from `off` on as a little-endian number.
unfoldable pub le : (n off : ℕ) → (ℕ → ℕ) → ℕ
le zero off buf = 0
le (suc n) off buf = buf off % 256 + 256 * le n (off + 1) buf

-- The fields of `Elf64_Ehdr` that the loader reads.
pub record Ehdr : Type 0 where
  pub e_type : ℕ
  pub e_machine : ℕ
  pub e_entry : ℕ
  pub e_phoff : ℕ
  pub e_ehsize : ℕ
  pub e_phentsize : ℕ
  pub e_phnum : ℕ

abbrev pub ehdr_size : ℕ
ehdr_size = 64

unfoldable pub ehdr_of : (ℕ → ℕ) → Ehdr
ehdr_of buf = record {
  e_type = le 2 16 buf;
  e_machine = le 2 18 buf;
  e_entry = le 8 24 buf;
  e_phoff = le 8 32 buf;
  e_ehsize = le 2 52 buf;
  e_phentsize = le 2 54 buf;
  e_phnum = le 2 56 buf;
}

-- `Elf64_Phdr`, less the physical address and the alignment
pub record Phdr : Type 0 where
  pub p_type : ℕ
  pub p_flags : ℕ
  pub p_offset : ℕ
  pub p_vaddr : ℕ
  pub p_filesz : ℕ
  pub p_memsz : ℕ

abbrev pub phdr_size : ℕ
phdr_size = 56

unfoldable pub phdr_at : (off : ℕ) → (ℕ → ℕ) → Phdr
phdr_at off buf = record {
  p_type = le 4 off buf;
  p_flags = le 4 (off + 4) buf;
  p_offset = le 8 (off + 8) buf;
  p_vaddr = le 8 (off + 16) buf;
  p_filesz = le 8 (off + 32) buf;
  p_memsz = le 8 (off + 40) buf;
}

unfoldable pub elf64_validate_native : (ℕ → ℕ) → (size : ℕ) → Bool
elf64_validate_native buf size =
    let h = ehdr_of buf in
    if ltb size ehdr_size
    then false
    else buf 0 == 0x7F
      && buf 1 == b'E'
      && buf 2 == b'L'
      && buf 3 == b'F'
      && buf 4 == 2
      && buf 5 == 1
      && buf 6 == 1
      && h.e_machine == 62
      && h.e_type == 2
      && h.e_ehsize == ehdr_size
      && h.e_phentsize == phdr_size
      && ltb 0 h.e_phnum
