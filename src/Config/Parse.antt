-- ===== src/Config/Parse.antt =====
-- Texts of src/config.c, and the configurations that they stand for.
use atmkoala.Base.{
  ℕ, zero, suc, ◌+◌, ◌-◌, ◌*◌, ◌≤◌, ◌<◌, ◌≡◌, refl, ap, sym, ◌∙◌, false, leb, List, [], ◌∷◌, ◌++◌,
  length, length-append, append_assoc, append-nil, arith,
}
use mathlib.Core.Path.{ap₂}
use atmkoala.Catfs.Path.{is_same}
use atmkoala.Config.{
  cfg_max_keys, cfg_max_sections, Pair, Section, CfgFile, newline, skip_blanks, add_pair,
  parse_round, parse_loop, oldest_first, cfg_parse, pair_text, serialize_pairs, header_text,
  serialize_sections, cfg_serialize,
}
use atmkoala.Config.Lines.{
  IsKey, IsPair, ArePairs, IsSection, AreSections, parse_pair-text, parse_round-pair,
  parse_round-newline, parse_round-header, parse_loop-cons,
}

-- Two rounds take a line and its end.
parse_loop-line :
    (fuel : ℕ) (q p : List ℕ) (secs out : List Section)
    → is_same q [] ≡ false
    → parse_round (skip_blanks q) secs ≡ (newline ∷ p, out)
    → parse_loop (suc (suc fuel)) q secs ≡ parse_loop fuel p out
unfolding is_same
parse_loop-line fuel [] p secs out h e = cc
parse_loop-line fuel (c ∷ q) p secs out h e =
    rw
      (
        parse_loop-cons (suc fuel) c q secs,
        e,
        parse_loop-cons fuel newline p out,
        parse_round-newline p out,
      )
      refl

key_not_empty : (k q : List ℕ) → IsKey k → is_same (k ++ q) [] ≡ false
unfolding is_same
key_not_empty [] q h = absurd h
key_not_empty (c ∷ k) q h = refl

pair_text-append :
    (kv : Pair) (p : List ℕ) → pair_text kv ++ p ≡ kv.key ++ (61 ∷ kv.val ++ (newline ∷ p))
unfolding pair_text
pair_text-append kv p =
    append_assoc kv.key (61 ∷ kv.val ++ (newline ∷ [])) p
    ∙ ap (λ r. kv.key ++ (61 ∷ r)) (append_assoc kv.val (newline ∷ []) p)

parse_loop-pair :
    (fuel : ℕ) (kv : Pair) (p : List ℕ) (s : Section) (ss : List Section)
    → IsPair kv
    → length s.entries < cfg_max_keys
    → parse_loop (suc (suc fuel)) (pair_text kv ++ p) (s ∷ ss)
      ≡ parse_loop fuel p (add_pair kv (s ∷ ss))
parse_loop-pair fuel kv p s ss ok room =
    let q = 61 ∷ kv.val ++ (newline ∷ p) in
    ap (λ r. parse_loop (suc (suc fuel)) r (s ∷ ss)) (pair_text-append kv p)
    ∙ parse_loop-line fuel (kv.key ++ q) p (s ∷ ss) (add_pair kv (s ∷ ss))
        (key_not_empty kv.key q ok.key_ok)
        (parse_round-pair kv.key q (s ∷ ss) ok.key_ok ∙ parse_pair-text kv p s ss ok room)

abbrev pub pairs_text : List Pair → List ℕ
pairs_text [] = []
pairs_text (kv ∷ kvs) = pair_text kv ++ pairs_text kvs

parse_loop-pairs :
    (kvs : List Pair) (g f : ℕ) (p : List ℕ) (s : Section) (ss : List Section)
    → ArePairs kvs
    → length s.entries + length kvs ≤ cfg_max_keys
    → g ≡ 2 * length kvs + f
    → parse_loop g (pairs_text kvs ++ p) (s ∷ ss)
      ≡ parse_loop f p (record s { entries = s.entries ++ kvs } ∷ ss)
parse_loop-pairs [] g f p s ss ok room e =
    ap₂ (λ n es. parse_loop n p (record s { entries = es } ∷ ss)) (omega arith)
      (sym (append-nil s.entries))
parse_loop-pairs (kv ∷ kvs) zero f p s ss ok room e = absurd (omega arith)
parse_loop-pairs (kv ∷ kvs) (suc zero) f p s ss ok room e = absurd (omega arith)
parse_loop-pairs (kv ∷ kvs) (suc (suc g)) f p s ss (kv_ok, ok) room e =
    let s' : Section = record s { entries = s.entries ++ (kv ∷ []) } in
    ap (λ r. parse_loop (suc (suc g)) r (s ∷ ss)) (append_assoc (pair_text kv) (pairs_text kvs) p)
    ∙ parse_loop-pair g kv (pairs_text kvs ++ p) s ss kv_ok (omega arith)
    ∙ parse_loop-pairs kvs g f p s' ss ok (omega (arith, length-append s.entries (kv ∷ [])))
        (omega arith)
    ∙ ap (λ es. parse_loop f p (record s { entries = es } ∷ ss))
        (append_assoc s.entries (kv ∷ []) kvs)

abbrev pub section_text : Section → List ℕ
section_text s = 91 ∷ s.name ++ (93 ∷ newline ∷ pairs_text s.entries ++ (newline ∷ []))

abbrev pub sections_text : List Section → List ℕ
sections_text [] = []
sections_text (s ∷ ss) = section_text s ++ sections_text ss

-- The rounds that a section takes.
abbrev rounds : List Section → ℕ
rounds [] = 0
rounds (s ∷ ss) = 3 + 2 * length s.entries + rounds ss

parse_loop-section :
    (s : Section) (g f : ℕ) (p : List ℕ) (secs : List Section)
    → IsSection s
    → length secs < cfg_max_sections
    → g ≡ 3 + 2 * length s.entries + f
    → parse_loop g (section_text s ++ p) secs ≡ parse_loop f p (s ∷ secs)
unfolding is_same
parse_loop-section s zero f p secs ok room e = absurd (omega arith)
parse_loop-section s (suc zero) f p secs ok room e = absurd (omega arith)
parse_loop-section s (suc (suc g)) f p secs ok room e =
    let empty : Section = record { name = s.name; entries = [] } in
    let pairs = pairs_text s.entries in
    let body = pairs ++ (newline ∷ p) in
    let few = ok.few in
    ap (λ r. parse_loop (suc (suc g)) (91 ∷ r) secs)
      (append_assoc s.name (93 ∷ newline ∷ pairs ++ (newline ∷ [])) p
        ∙ ap (λ r. s.name ++ (93 ∷ newline ∷ r)) (append_assoc pairs (newline ∷ []) p))
    ∙ parse_loop-line g (91 ∷ s.name ++ (93 ∷ newline ∷ body)) body secs (empty ∷ secs) refl
        (parse_round-header s body secs ok room)
    ∙ parse_loop-pairs s.entries g (suc f) (newline ∷ p) empty secs ok.pairs_ok (omega arith)
        (omega arith)
    ∙ parse_loop-cons f newline p (s ∷ secs)
    ∙ ap (λ r. parse_loop f r.0 r.1) (parse_round-newline p (s ∷ secs))

parse_loop-sections :
    (ss : List Section) (g f : ℕ) (p : List ℕ) (secs : List Section)
    → AreSections ss
    → length secs + length ss ≤ cfg_max_sections
    → g ≡ rounds ss + f
    → parse_loop g (sections_text ss ++ p) secs ≡ parse_loop f p (oldest_first ss secs)
parse_loop-sections [] g f p secs ok room e = ap (λ n. parse_loop n p secs) (omega arith)
parse_loop-sections (s ∷ ss) g f p secs (s_ok, ok) room e =
    ap (λ r. parse_loop g r secs) (append_assoc (section_text s) (sections_text ss) p)
    ∙ parse_loop-section s g (rounds ss + f) (sections_text ss ++ p) secs s_ok (omega arith)
        (omega arith)
    ∙ parse_loop-sections ss (rounds ss + f) f p (s ∷ secs) ok (omega arith) refl

parse_loop-end : (f : ℕ) (secs : List Section) → parse_loop f [] secs ≡ ([], secs)
unfolding parse_loop
parse_loop-end zero secs = refl
parse_loop-end (suc f) secs = refl

oldest_first-twice :
    (ss acc : List Section) → oldest_first (oldest_first ss acc) [] ≡ oldest_first acc ss
oldest_first-twice [] acc = refl
oldest_first-twice (s ∷ ss) acc = oldest_first-twice ss (s ∷ acc)

length-pairs_text : (kvs : List Pair) → ArePairs kvs → 2 * length kvs ≤ length (pairs_text kvs)
unfolding pair_text
length-pairs_text [] ok = omega arith
length-pairs_text (kv ∷ kvs) (kv_ok, ok) = omega (
  arith,
  length-pairs_text kvs ok,
  length-append (kv.key ++ (61 ∷ kv.val ++ (newline ∷ []))) (pairs_text kvs),
  length-append kv.key (61 ∷ kv.val ++ (newline ∷ [])),
  length-append kv.val (newline ∷ []),
)

length-section_text :
    (s : Section) → length (section_text s) ≡ 4 + length s.name + length (pairs_text s.entries)
length-section_text s = omega (
  arith,
  length-append s.name (93 ∷ newline ∷ pairs_text s.entries ++ (newline ∷ [])),
  length-append (pairs_text s.entries) (newline ∷ []),
)

rounds_few : (ss : List Section) → AreSections ss → rounds ss ≤ length (sections_text ss)
rounds_few [] ok = omega arith
rounds_few (s ∷ ss) (s_ok, ok) = omega (
  arith,
  rounds_few ss ok,
  length-append (section_text s) (sections_text ss),
  length-section_text s,
  length-pairs_text s.entries s_ok.pairs_ok,
)

length-pair_text : (kv : Pair) → length (pair_text kv) ≡ length kv.key + length kv.val + 2
unfolding pair_text
length-pair_text kv = omega (
  arith,
  length-append kv.key (61 ∷ kv.val ++ (newline ∷ [])),
  length-append kv.val (newline ∷ []),
)

-- What is written where it fits.
serialize_pairs-text :
    (kvs : List Pair) (bufsz : ℕ) (out : List ℕ)
    → length out + length (pairs_text kvs) + 1 < bufsz
    → serialize_pairs kvs bufsz out ≡ out ++ pairs_text kvs
unfolding serialize_pairs
serialize_pairs-text [] bufsz out h = sym (append-nil out)
serialize_pairs-text (kv ∷ kvs) bufsz out h =
    let size : length (pair_text kv) ≡ length kv.key + length kv.val + 2 = length-pair_text kv in
    let whole = length-append (pair_text kv) (pairs_text kvs) in
    let c : leb bufsz (length out + (length kv.key + length kv.val + 3)) ≡ false =
      ground (arith, size, whole, h) in
    rw c (
      serialize_pairs-text kvs bufsz (out ++ pair_text kv)
        (omega (arith, length-append out (pair_text kv), whole))
      ∙ append_assoc out (pair_text kv) (pairs_text kvs))

serialize_sections-text :
    (ss : List Section) (bufsz : ℕ) (out : List ℕ)
    → AreSections ss
    → length out + length (sections_text ss) < bufsz
    → serialize_sections ss bufsz out ≡ out ++ sections_text ss
unfolding serialize_sections header_text
serialize_sections-text [] bufsz out ok h = sym (append-nil out)
serialize_sections-text (s ∷ ss) bufsz out (s_ok, ok) h =
    let head = 91 ∷ s.name ++ (93 ∷ newline ∷ []) in
    let pairs = pairs_text s.entries in
    let size = length-section_text s in
    let whole = length-append (section_text s) (sections_text ss) in
    let head_size : length head ≡ 3 + length s.name =
      omega (arith, length-append s.name (93 ∷ newline ∷ [])) in
    let out_size = length-append out head in
    let c : leb bufsz (length out + length s.name + 4) ≡ false = ground (arith, size, whole, h) in
    let written =
      serialize_pairs-text s.entries bufsz (out ++ head)
        (omega (arith, size, whole, head_size, out_size)) in
    let shape : ((out ++ head) ++ pairs) ++ (newline ∷ []) ≡ out ++ section_text s =
      append_assoc (out ++ head) pairs (newline ∷ [])
      ∙ append_assoc out head (pairs ++ (newline ∷ []))
      ∙ ap (λ r. out ++ (91 ∷ r))
          (append_assoc s.name (93 ∷ newline ∷ []) (pairs ++ (newline ∷ []))) in
    rw (s_ok.not_global, c, written, shape)
      (serialize_sections-text ss bufsz (out ++ section_text s) ok
          (omega (arith, whole, length-append out (section_text s)))
        ∙ append_assoc out (section_text s) (sections_text ss))

-- The text that `cfg_serialize` writes for a configuration, `cfg_parse` reads back: the same sections
-- with the same keys and values. It has at most 16 sections with names of one line without ']'
-- other than "global", at most 32 keys in each, keys and values that stand on a line as they are,
-- and a text that fits the buffer.
pub cfg_parse-cfg_serialize :
    (cfg : CfgFile) (bufsz : ℕ) (path : List ℕ)
    → AreSections cfg.sections
    → length cfg.sections ≤ cfg_max_sections
    → length (sections_text cfg.sections) < bufsz
    → (cfg_parse (cfg_serialize cfg bufsz) path).sections ≡ cfg.sections
unfolding cfg_parse cfg_serialize
cfg_parse-cfg_serialize cfg bufsz path ok few fits =
    let t = sections_text cfg.sections in
    let f = suc (length t) - rounds cfg.sections in
    ap (λ r. oldest_first (parse_loop (suc (length r)) r []).1 [])
      (serialize_sections-text cfg.sections bufsz [] ok (omega arith))
    ∙ ap (λ r. oldest_first (parse_loop (suc (length t)) r []).1 []) (sym (append-nil t))
    ∙ ap (λ r. oldest_first r.1 [])
        (parse_loop-sections cfg.sections (suc (length t)) f [] [] ok (omega arith)
            (omega (arith, rounds_few cfg.sections ok))
          ∙ parse_loop-end f (oldest_first cfg.sections []))
    ∙ oldest_first-twice cfg.sections []
