-- ===== src/Config/Lines.antt =====
-- The lines of the texts of src/config.c, and the names, keys and values that stand on one.
use atmkoala.Base.{
  ℕ, zero, suc, ◌-◌, ◌≤◌, ◌<◌, ◌≡◌, refl, Bool, true, false, ◌==◌, ◌&&◌, ◌||◌, not, leb, List, [],
  ◌∷◌, ◌++◌, length, arith,
}
use atmkoala.Catfs.Path.{is_same}
use atmkoala.Config.{
  cfg_max_keys, cfg_max_sections, cfg_key_len, cfg_val_len, Pair, Section, newline, is_blank,
  global, skip_until, copy_until, skip_blanks, copy_key, trim_end, add_pair, has_room, parse_value,
  parse_pair, parse_header, parse_round, parse_loop,
}

-- No byte stops.
abbrev pub none_of : (ℕ → Bool) → List ℕ → Bool
none_of stop [] = true
none_of stop (x ∷ xs) = not (stop x) && none_of stop xs

abbrev pub is_key_end : ℕ → Bool
is_key_end c = c == 61 || c == newline || is_blank c

abbrev pub is_val_end : ℕ → Bool
is_val_end c = c == newline || c == 13

abbrev pub is_name_end : ℕ → Bool
is_name_end c = c == 93 || c == newline

-- A key may begin with this byte.
abbrev pub begins_key : ℕ → Bool
begins_key c = not (c == 13 || c == 35 || c == 59 || c == 91)

abbrev pub IsKey : List ℕ → Type 0
IsKey [] = ⊥
IsKey (c ∷ cs) =
    (begins_key c ≡ true) × (none_of is_key_end (c ∷ cs) ≡ true) × (length (c ∷ cs) < cfg_key_len)

-- No blank at either end.
abbrev pub begins_blank : List ℕ → Bool
begins_blank [] = false
begins_blank (c ∷ cs) = is_blank c

pub record IsPair (kv : Pair) : Type 0 where
  pub key_ok : IsKey kv.key
  pub val_line : none_of is_val_end kv.val ≡ true
  pub val_short : length kv.val < cfg_val_len
  pub val_begin : begins_blank kv.val ≡ false
  pub val_end : trim_end kv.val ≡ kv.val

abbrev pub ArePairs : List Pair → Type 0
ArePairs [] = Unit {0}
ArePairs (kv ∷ kvs) = IsPair kv × ArePairs kvs

pub record IsSection (s : Section) : Type 0 where
  pub name_line : none_of is_name_end s.name ≡ true
  pub name_short : length s.name < cfg_key_len
  pub not_global : is_same s.name global ≡ false
  pub pairs_ok : ArePairs s.entries
  pub few : length s.entries ≤ cfg_max_keys

abbrev pub AreSections : List Section → Type 0
AreSections [] = Unit {0}
AreSections (s ∷ ss) = IsSection s × AreSections ss

copy_until-stop :
    (n : ℕ) (stop : ℕ → Bool) (xs : List ℕ) (y : ℕ) (p : List ℕ)
    → none_of stop xs ≡ true
    → length xs ≤ n
    → stop y ≡ true
    → copy_until n stop (xs ++ (y ∷ p)) ≡ (xs, y ∷ p)
unfolding copy_until
copy_until-stop zero stop [] y p h l s = refl
copy_until-stop zero stop (x ∷ xs) y p h l s = absurd (omega arith)
copy_until-stop (suc n) stop [] y p h l s = rw s refl
copy_until-stop (suc n) stop (x ∷ xs) y p h l s = ground (arith, copy_until-stop n stop xs y p)

skip_until-stop :
    (stop : ℕ → Bool) (xs : List ℕ) (y : ℕ) (p : List ℕ)
    → none_of stop xs ≡ true
    → stop y ≡ true
    → skip_until stop (xs ++ (y ∷ p)) ≡ y ∷ p
unfolding skip_until
skip_until-stop stop [] y p h s = rw s refl
skip_until-stop stop (x ∷ xs) y p h s = ground (arith, skip_until-stop stop xs y p)

copy_key-stop :
    (n : ℕ) (b : Bool) (xs p : List ℕ)
    → none_of is_key_end xs ≡ true
    → length xs ≤ n
    → copy_key n b (xs ++ (61 ∷ p)) ≡ (xs, 61 ∷ p)
unfolding copy_key
copy_key-stop zero b [] p h l = refl
copy_key-stop zero b (x ∷ xs) p h l = absurd (omega arith)
copy_key-stop (suc n) b [] p h l = refl
copy_key-stop (suc n) b (x ∷ xs) p h l = ground (arith, copy_key-stop n true xs p)

skip_blanks-val :
    (v p : List ℕ) → begins_blank v ≡ false → skip_blanks (v ++ (newline ∷ p)) ≡ v ++ (newline ∷ p)
unfolding skip_until
skip_blanks-val [] p h = refl
skip_blanks-val (c ∷ v) p h = ground arith

key_facts :
    (k : List ℕ)
    → IsKey k
    → (none_of is_key_end k ≡ true) × (length k ≤ cfg_key_len - 1) × (is_same k [] ≡ false)
unfolding is_same
key_facts [] h = absurd h
key_facts (c ∷ cs) (b, n, l) = (n, omega arith, refl)

parse_value-text :
    (kv : Pair) (p : List ℕ) (secs : List Section)
    → IsPair kv
    → parse_value kv.key (kv.val ++ (newline ∷ p)) secs ≡ (newline ∷ p, add_pair kv secs)
unfolding parse_value
parse_value-text kv p secs ok =
    let (n, l, e) = key_facts kv.key ok.key_ok in
    let short = ok.val_short in
    rw
      (
        skip_blanks-val kv.val p ok.val_begin,
        copy_until-stop (cfg_val_len - 1) is_val_end kv.val newline p ok.val_line (omega arith)
            refl,
        e,
        ok.val_end,
      )
      refl

-- One line with a pair, up to its end.
pub parse_pair-text :
    (kv : Pair) (p : List ℕ) (s : Section) (ss : List Section)
    → IsPair kv
    → length s.entries < cfg_max_keys
    → parse_pair (kv.key ++ (61 ∷ kv.val ++ (newline ∷ p))) (s ∷ ss)
      ≡ (newline ∷ p, add_pair kv (s ∷ ss))
unfolding parse_pair skip_until
parse_pair-text kv p s ss ok room =
    let (n, l, e) = key_facts kv.key ok.key_ok in
    let r : has_room (s ∷ ss) ≡ true = ground arith in
    rw
      (
        copy_key-stop (cfg_key_len - 1) false kv.key (kv.val ++ (newline ∷ p)) n l,
        parse_value-text kv p (s ∷ ss) ok,
        r,
      )
      refl

-- A round on a line with a pair.
pub parse_round-pair :
    (k q : List ℕ) (secs : List Section)
    → IsKey k
    → parse_round (skip_blanks (k ++ q)) secs ≡ parse_pair (k ++ q) secs
unfolding parse_round skip_until
parse_round-pair [] q secs h = absurd h
parse_round-pair (c ∷ cs) q secs (b, n, l) = ground (arith, b, n)

pub parse_round-newline :
    (p : List ℕ) (secs : List Section) → parse_round (skip_blanks (newline ∷ p)) secs ≡ (p, secs)
unfolding parse_round skip_until
parse_round-newline p secs = refl

-- A round on the header of a section.
pub parse_round-header :
    (s : Section) (p : List ℕ) (secs : List Section)
    → IsSection s
    → length secs < cfg_max_sections
    → parse_round (skip_blanks (91 ∷ s.name ++ (93 ∷ newline ∷ p))) secs
      ≡ (newline ∷ p, record { name = s.name; entries = [] } ∷ secs)
unfolding parse_round skip_until parse_header
parse_round-header s p secs ok room =
    let short = ok.name_short in
    let r : leb cfg_max_sections (length secs) ≡ false = ground arith in
    rw
      (
        copy_until-stop (cfg_key_len - 1) is_name_end s.name 93 (newline ∷ p) ok.name_line
            (omega arith) refl,
        r,
      )
      refl

pub parse_loop-cons :
    (fuel c : ℕ) (p : List ℕ) (secs : List Section)
    → parse_loop (suc fuel) (c ∷ p) secs
      ≡ (let r = parse_round (skip_blanks (c ∷ p)) secs in parse_loop fuel r.0 r.1)
unfolding parse_loop
parse_loop-cons fuel c p secs = refl
