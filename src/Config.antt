-- ===== src/Config.antt =====
-- The configuration files of src/config.c and src/config.h. A string is the list of its bytes without
-- the final 0, and the sections and the entries in use are lists. A copy of a string that runs over
-- the end of its array sets `overrun`: the bytes of the configuration are not followed from there on.
-- The file operations of src/vfs.c are parameters.
pub mod Table
pub mod Lines
pub mod Parse
mod Tests
use atmkoala.Base.{
  ℕ, zero, suc, ◌+◌, ◌-◌, Bool, true, false, ◌==◌, ◌&&◌, ◌||◌, not, if◌then◌else◌, ltb, leb, Option,
  none, some, List, [], ◌∷◌, ◌++◌, length, ℤ, pos, negsuc,
}
use atmkoala.Catfs.Path.{is_same}

abbrev pub cfg_max_sections : ℕ
cfg_max_sections = 16

abbrev pub cfg_max_keys : ℕ
cfg_max_keys = 32

abbrev pub cfg_key_len : ℕ
cfg_key_len = 64

abbrev pub cfg_val_len : ℕ
cfg_val_len = 128

-- `cfg_pair_t`
pub record Pair : Type 0 where
  pub key : List ℕ
  pub val : List ℕ

-- `cfg_section_t`
pub record Section : Type 0 where
  pub name : List ℕ
  pub entries : List Pair

-- `cfg_file_t`, and whether a copy has run over the end of an array.
pub record CfgFile : Type 0 where
  pub sections : List Section
  pub path : List ℕ
  pub dirty : Bool
  pub overrun : Bool

-- The string and its final 0 fit an array of this size: `kstrcpy` stays inside.
abbrev pub fits : (size : ℕ) → List ℕ → Bool
fits size s = ltb (length s) size

abbrev pub newline : ℕ
newline = 10

-- ' ' or '\t'
abbrev pub is_blank : ℕ → Bool
is_blank c = c == 32 || c == 9

-- "global"
abbrev pub global : List ℕ
global = 103 ∷ 108 ∷ 111 ∷ 98 ∷ 97 ∷ 108 ∷ []

-- `while (*p && !stop(*p)) p++;`
unfoldable pub skip_until : (ℕ → Bool) → List ℕ → List ℕ
skip_until stop [] = []
skip_until stop (c ∷ p) = let rest = skip_until stop p in if stop c then c ∷ p else rest

-- The bytes up to one that stops, `n` at most, and what follows.
unfoldable pub copy_until : (n : ℕ) → (ℕ → Bool) → List ℕ → List ℕ × List ℕ
copy_until zero stop p = ([], p)
copy_until (suc n) stop [] = ([], [])
copy_until (suc n) stop (c ∷ p) =
    let r = copy_until n stop p in if stop c then ([], c ∷ p) else (c ∷ r.0, r.1)

abbrev pub skip_blanks : List ℕ → List ℕ
skip_blanks = skip_until λ c. not (is_blank c)

abbrev pub skip_line : List ℕ → List ℕ
skip_line = skip_until λ c. c == newline

-- The loop on a key, with room for `n` bytes; `some_key` once it has one.
unfoldable pub copy_key : (n : ℕ) → (some_key : Bool) → List ℕ → List ℕ × List ℕ
copy_key zero some_key p = ([], p)
copy_key (suc n) some_key [] = ([], [])
copy_key (suc n) some_key (c ∷ p) =
    let taken = copy_key n true p in
    let skipped = copy_key (suc n) some_key p in
    if c == 61 || c == newline
    then ([], c ∷ p)
    else if not (is_blank c)
    then (c ∷ taken.0, taken.1)
    else if some_key
    then ([], p)
    else skipped

-- Drops the blanks at the end.
unfoldable pub trim_end : List ℕ → List ℕ
trim_end [] = []
trim_end (c ∷ cs) = let rest = trim_end cs in if is_blank c && is_same rest [] then [] else c ∷ rest

-- The current section is the newest. `cur->count++` on a full section is not reached.
abbrev pub add_pair : Pair → List Section → List Section
add_pair kv [] = []
add_pair kv (s ∷ ss) = record s { entries = s.entries ++ (kv ∷ []) } ∷ ss

-- There is a current section, and it has room for a key.
abbrev pub has_room : List Section → Bool
has_room [] = false
has_room (s ∷ ss) = ltb (length s.entries) cfg_max_keys

-- The implicit section.
abbrev pub ensure_section : List Section → List Section
ensure_section [] = record { name = global; entries = [] } ∷ []
ensure_section (s ∷ ss) = s ∷ ss

-- The value behind '=', and the pair added if its key is not empty.
unfoldable pub parse_value : (key p : List ℕ) → List Section → List ℕ × List Section
parse_value key p secs =
    let (val, p1) = copy_until (cfg_val_len - 1) (λ c. c == newline || c == 13) (skip_blanks p) in
    (
      p1,
      (if is_same key [] then secs else add_pair (record { key = key; val = trim_end val }) secs),
    )

-- `if (*p == '=') ...` behind a key
abbrev pub parse_equals : (key p : List ℕ) → List Section → List ℕ × List Section
parse_equals key [] secs = ([], secs)
parse_equals key (c ∷ p) secs = if c == 61 then parse_value key p secs else (c ∷ p, secs)

-- A line with a key.
unfoldable pub parse_pair : List ℕ → List Section → List ℕ × List Section
parse_pair p secs =
    let secs1 = ensure_section secs in
    let (key, p1) = copy_key (cfg_key_len - 1) false p in
    let (p2, secs2) = parse_equals key p1 secs1 in
    if has_room secs1 then (skip_line p2, secs2) else (skip_line p, secs1)

-- A line with the name of a section, behind its '['.
unfoldable pub parse_header : List ℕ → List Section → List ℕ × List Section
parse_header p secs =
    let (name, p1) = copy_until (cfg_key_len - 1) (λ c. c == 93 || c == newline) p in
    if leb cfg_max_sections (length secs)
    then (skip_line p, secs)
    else (skip_line p1, record { name = name; entries = [] } ∷ secs)

-- One round of the loop of `cfg_parse`, behind the blanks, with the sections so far, the newest first.
unfoldable pub parse_round : List ℕ → List Section → List ℕ × List Section
parse_round [] secs = parse_pair [] secs
parse_round (c ∷ p) secs =
    if c == newline || c == 13
    then (p, secs)
    else if c == 35 || c == 59
    then (skip_line (c ∷ p), secs)
    else if c == 91
    then parse_header p secs
    else parse_pair (c ∷ p) secs

unfoldable pub parse_loop : (fuel : ℕ) → List ℕ → List Section → List ℕ × List Section
parse_loop zero p secs = (p, secs)
parse_loop (suc fuel) [] secs = ([], secs)
parse_loop (suc fuel) (c ∷ p) secs =
    let (p1, secs1) = parse_round (skip_blanks (c ∷ p)) secs in parse_loop fuel p1 secs1

abbrev pub oldest_first : List Section → List Section → List Section
oldest_first [] acc = acc
oldest_first (s ∷ ss) acc = oldest_first ss (s ∷ acc)

-- `cfg_parse`; a round takes at least one byte.
unfoldable pub cfg_parse : (buf path : List ℕ) → CfgFile
cfg_parse buf path = record {
  sections = oldest_first (parse_loop (suc (length buf)) buf []).1 [];
  path = path;
  dirty = false;
  overrun = not (fits 256 path);
}

unfoldable pub pair_text : Pair → List ℕ
pair_text kv = kv.key ++ (61 ∷ kv.val ++ (newline ∷ []))

-- The loop on the entries of a section; `out` is written already.
unfoldable pub serialize_pairs : List Pair → (bufsz : ℕ) → List ℕ → List ℕ
serialize_pairs [] bufsz out = out
serialize_pairs (kv ∷ kvs) bufsz out =
    let rest = serialize_pairs kvs bufsz (out ++ pair_text kv) in
    if leb bufsz (length out + (length kv.key + length kv.val + 3)) then out else rest

unfoldable pub header_text : Section → List ℕ
header_text s = if is_same s.name global then [] else 91 ∷ s.name ++ (93 ∷ newline ∷ [])

unfoldable pub serialize_sections : List Section → (bufsz : ℕ) → List ℕ → List ℕ
serialize_sections [] bufsz out = out
serialize_sections (s ∷ ss) bufsz out =
    let rest =
      serialize_sections ss bufsz
        (serialize_pairs s.entries bufsz (out ++ header_text s) ++ (newline ∷ [])) in
    if not (is_same s.name global) && leb bufsz (length out + length s.name + 4) then out else rest

unfoldable pub cfg_serialize : CfgFile → (bufsz : ℕ) → List ℕ
cfg_serialize cfg bufsz = serialize_sections cfg.sections bufsz []

unfoldable pub find_pair : List Pair → List ℕ → Option (List ℕ)
find_pair [] key = none
find_pair (kv ∷ kvs) key =
    let rest = find_pair kvs key in if is_same kv.key key then some kv.val else rest

unfoldable pub get_in : List Section → (section key : List ℕ) → Option (List ℕ)
get_in [] section key = none
get_in (s ∷ ss) section key =
    let rest = get_in ss section key in
    if is_same s.name section
    then (elim (find_pair s.entries key) [ none ↦ rest | some v ↦ some v ])
    else rest

abbrev pub cfg_get : CfgFile → (section key : List ℕ) → Option (List ℕ)
cfg_get cfg section key = get_in cfg.sections section key

abbrev pub cfg_get_default : CfgFile → (section key def : List ℕ) → List ℕ
cfg_get_default cfg section key def = elim (cfg_get cfg section key) [ none ↦ def | some v ↦ v ]

-- What a write leaves: no room for it, a copy that runs over the end of an array, or the new contents.
pub data Written (A : Type 0) : Type 0 where
  full overruns : Written A
  done : A → Written A

abbrev pub map_written : {A B : Type 0} → (A → B) → Written A → Written B
map_written f full = full
map_written f overruns = overruns
map_written f (done x) = done (f x)

-- `kstrcpy(entries[count].key, key); kstrcpy(entries[count].val, val);`
abbrev pub new_pair : (key val : List ℕ) → Written (List Pair)
new_pair key val =
    if fits cfg_key_len key && fits cfg_val_len val
    then done (record { key = key; val = val } ∷ [])
    else overruns

-- `kstrcpy(entries[k].val, val)` on the first of the entries
abbrev pub new_val : Pair → List Pair → (val : List ℕ) → Written (List Pair)
new_val kv kvs val = if fits cfg_val_len val then done (record kv { val = val } ∷ kvs) else overruns

-- The entries after the write of a key, with room for `room` more than are there.
unfoldable pub set_pair : (room : ℕ) → List Pair → (key val : List ℕ) → Written (List Pair)
set_pair zero [] key val = full
set_pair (suc room) [] key val = new_pair key val
set_pair room (kv ∷ kvs) key val =
    let rest = set_pair (room - 1) kvs key val in
    if is_same kv.key key then new_val kv kvs val else map_written (λ r. kv ∷ r) rest

-- The entries of a section that is new, or found.
abbrev pub set_entries : (name : List ℕ) → List Pair → (key val : List ℕ) → Written Section
set_entries name es key val =
    map_written (λ r. record { name = name; entries = r }) (set_pair cfg_max_keys es key val)

-- The sections after the write. A new section has room for the key.
unfoldable pub set_in :
    (room : ℕ) → List Section → (section key val : List ℕ) → Written (List Section)
set_in zero [] section key val = full
set_in (suc room) [] section key val =
    if fits cfg_key_len section
    then map_written (λ s. s ∷ []) (set_entries section [] key val)
    else overruns
set_in room (s ∷ ss) section key val =
    let rest = set_in (room - 1) ss section key val in
    if is_same s.name section
    then map_written (λ z. z ∷ ss) (set_entries s.name s.entries key val)
    else map_written (λ r. s ∷ r) rest

unfoldable pub cfg_set : CfgFile → (section key val : List ℕ) → ℤ × CfgFile
cfg_set cfg section key val = elim (set_in cfg_max_sections cfg.sections section key val) [
  | full ↦ (negsuc 0, cfg)
  | overruns ↦ (pos 0, record cfg { dirty = true; overrun = true })
  | done ss ↦ (pos 0, record cfg { sections = ss; dirty = true })
]
