-- ===== src/Paging/Uaccess.antt =====
-- The copies between the kernel and a user space of src/uaccess.c. A kernel buffer is the list of its
-- bytes, and is never null.
pub mod Copy
pub mod Text
use atmkoala.Base.{
  ℕ, zero, suc, ◌+◌, ◌-◌, ◌%◌, min, Bool, true, false, ◌==◌, ◌&&◌, ◌||◌, not, if◌then◌else◌, ltb,
  update, Option, none, some, List, [], ◌∷◌, ◌++◌, length, take, drop, get_or,
}
use atmkoala.Heap.{u64_mod}
use atmkoala.Paging.{page_size, Space, Memory, paging_user_translate, paging_user_range}

-- `kmemcpy` to and from physical memory.
unfoldable pub store : ℕ → List ℕ → (ℕ → ℕ) → ℕ → ℕ
store p [] b = b
store p (x ∷ xs) b = store (p + 1) xs (update b p x)

unfoldable pub load : (p n : ℕ) → (ℕ → ℕ) → List ℕ
load p zero b = []
load p (suc n) b = b p ∷ load (p + 1) n b

-- The bytes of the next round: what is left, or what is left of the page.
abbrev pub round_bytes : (va len : ℕ) → ℕ
round_bytes va len = min len (page_size - va % page_size)

-- The loop of `user_copy` to the user, with the bytes left to copy, and fuel for its rounds.
unfoldable pub to_user_loop : (fuel va : ℕ) → List ℕ → Space → Memory → Bool × Memory
to_user_loop zero va k s m = (false, m)
to_user_loop (suc fuel) va k s m =
    let n = round_bytes va (length k) in
    if length k == 0 then (true, m) else (elim (paging_user_translate m s va) [
      | none ↦ (false, m)
      | some (p, f) ↦
          to_user_loop fuel (va + n) (drop n k) s (record m { bytes = store p (take n k) m.bytes })
    ])

-- The loop of `user_copy` from the user: whether it ends well, and the bytes that it has copied.
unfoldable pub from_user_loop : (fuel va len : ℕ) → Space → Memory → Bool × List ℕ
from_user_loop zero va len s m = (false, [])
from_user_loop (suc fuel) va len s m =
    let n = round_bytes va len in
    if len == 0 then (true, []) else (elim (paging_user_translate m s va) [
      | none ↦ (false, [])
      | some (p, f) ↦
          let r = from_user_loop fuel (va + n) (len - n) s m in (r.0, load p n m.bytes ++ r.1)
    ])

unfoldable pub copy_to_user : (va : ℕ) → List ℕ → Space → Memory → Bool × Memory
copy_to_user va src s m =
    if length src == 0
    then (true, m)
    else if not (paging_user_range m s va (length src) true)
    then (false, m)
    else to_user_loop (suc (length src)) va src s m

unfoldable pub copy_from_user : (va len : ℕ) → Space → Memory → Bool × List ℕ
copy_from_user va len s m =
    if len == 0
    then (true, [])
    else if not (paging_user_range m s va len false)
    then (false, [])
    else from_user_loop (suc len) va len s m

unfoldable pub user_range_valid : (va len : ℕ) → (write_access : Bool) → Space → Memory → Bool
user_range_valid va len write_access s m =
    if va == 0 && not (len == 0) then false else paging_user_range m s va len write_access

-- The loop of `strnlen_user` at the index `n`, with `left` rounds to go.
unfoldable pub strnlen_loop : (left n addr : ℕ) → Space → Memory → Option ℕ
strnlen_loop zero n addr s m = none
strnlen_loop (suc left) n addr s m =
    let rest = strnlen_loop left (n + 1) addr s m in
    let r = copy_from_user ((addr + n) % u64_mod) 1 s m in
    if not r.0 then none else if get_or r.1 0 0 == 0 then some n else rest

unfoldable pub strnlen_user : (va max : ℕ) → Space → Memory → Option ℕ
strnlen_user va max s m = if va == 0 || max == 0 then none else strnlen_loop max 0 va s m

-- The bytes that are written to the buffer, with the final 0.
unfoldable pub copy_string_from_user : (dst_size va : ℕ) → Space → Memory → Option (List ℕ)
copy_string_from_user dst_size va s m =
    if ltb dst_size 2 then none else (elim (strnlen_user va (dst_size - 1) s m) [
      | none ↦ none
      | some n ↦ let r = copy_from_user va (n + 1) s m in if r.0 then some r.1 else none
    ])
