-- ===== src/Catfs/Path.antt =====
-- The names and paths of src/catfs.c: `split_last` and `catfs_lookup`.
use atmkoala.Base.{
  ℕ, zero, suc, ◌+◌, ◌-◌, Bool, true, false, ◌==◌, ◌&&◌, not, if◌then◌else◌, List, [], ◌∷◌, ℤ, pos,
  negsuc, take, drop, length,
}
use atmkoala.Catfs.{catfs_inode_max, catfs_name_max, type_free, type_dir, Catfs}

-- '/'
abbrev pub slash : ℕ
slash = 47

-- `kstrcmp(a, b) == 0`
unfoldable pub is_same : List ℕ → List ℕ → Bool
is_same [] [] = true
is_same [] (y ∷ ys) = false
is_same (x ∷ xs) [] = false
is_same (x ∷ xs) (y ∷ ys) = let rest = is_same xs ys in x == y && rest

-- `parent == i`
abbrev pub is_at : ℤ → ℕ → Bool
is_at (pos n) i = n == i
is_at (negsuc n) i = false

-- The index of the last slash behind the index `i`, or `last`.
unfoldable pub last_slash : (i last : ℕ) → List ℕ → ℕ
last_slash i last [] = last
last_slash i last (c ∷ cs) = last_slash (i + 1) (if c == slash then i else last) cs

-- The directory and the base name of a path.
unfoldable pub split_last : List ℕ → List ℕ × List ℕ
split_last path =
    let last = last_slash 0 0 path in
    if last == 0 then (slash ∷ [], drop 1 path) else (take last path, drop (last + 1) path)

-- The bytes up to a slash, `n` at most, and the rest.
unfoldable pub next_comp : ℕ → List ℕ → List ℕ × List ℕ
next_comp zero p = ([], p)
next_comp (suc n) [] = ([], [])
next_comp (suc n) (c ∷ p) =
    let r = next_comp n p in if c == slash then ([], c ∷ p) else (c ∷ r.0, r.1)

-- `if (*p == '/') p++;`
abbrev pub skip_slash : List ℕ → List ℕ
skip_slash [] = []
skip_slash (c ∷ p) = if c == slash then p else c ∷ p

abbrev pub is_child : Catfs → (cur : ℕ) → (comp : List ℕ) → ℕ → Bool
is_child s cur comp i =
    not ((s.inodes i).type == type_free)
    && is_at (s.inodes i).parent cur
    && is_same (s.inodes i).name comp

-- The search for a child from the inode `i`, with `n` inodes left.
unfoldable pub find_child : (n i : ℕ) → Catfs → (cur : ℕ) → (comp : List ℕ) → ℤ
find_child zero i s cur comp = negsuc 0
find_child (suc n) i s cur comp =
    let rest = find_child n (i + 1) s cur comp in if is_child s cur comp i then pos i else rest

-- The walk over the components, with at most `n` of them; a round takes at least one byte, so as
-- many rounds as the path has bytes are enough.
unfoldable pub lookup_walk : ℕ → Catfs → (cur : ℕ) → List ℕ → ℤ
lookup_walk n s cur [] = pos cur
lookup_walk zero s cur (c ∷ p) = negsuc 0
lookup_walk (suc n) s cur (c ∷ p) =
    let (comp, rest) = next_comp (catfs_name_max - 1) (c ∷ p) in
    (elim comp [
      | [] ↦ lookup_walk n s cur (skip_slash rest)
      | d ∷ ds ↦ (elim (find_child (catfs_inode_max - 1) 1 s cur (d ∷ ds)) [
        | pos i ↦ lookup_walk n s i (skip_slash rest)
        | negsuc k ↦ negsuc 0
      ])
    ])

unfoldable pub catfs_lookup : List ℕ → Catfs → ℤ
catfs_lookup path s =
    if not s.mounted
    then negsuc 0
    else if is_same path (slash ∷ [])
    then pos 0
    else if not ((s.inodes 0).type == type_dir)
    then negsuc 0
    else lookup_walk (length path) s 0 (skip_slash path)
