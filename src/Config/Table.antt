-- ===== src/Config/Table.antt =====
-- Reading and writing values of src/config.c.
use atmkoala.Base.{
  ℕ, zero, suc, ◌-◌, ◌≡◌, refl, ap, ◌∙◌, sym, true, ◌&&◌, if◌then◌else◌, some, List, [], ◌∷◌, inl,
  inr, Bool-cases, pos, arith, length, ◌<◌, ◌≢◌, ◌⊎◌, false,
}
use mathlib.Core.Path.{subst}
use atmkoala.Catfs.Path.{is_same}
use atmkoala.Config.{
  cfg_max_keys, cfg_max_sections, Pair, Section, CfgFile, find_pair, get_in, cfg_get, fits, Written,
  full, overruns, done, map_written, set_entries, set_pair, set_in, cfg_set, cfg_key_len,
  cfg_val_len,
}

pub is_same_refl : (xs : List ℕ) → is_same xs xs ≡ true
unfolding is_same
is_same_refl [] = refl
is_same_refl (x ∷ xs) = ground (arith, is_same_refl xs)

pub is_same→≡ : (xs ys : List ℕ) → is_same xs ys ≡ true → xs ≡ ys
unfolding is_same
is_same→≡ [] [] h = refl
is_same→≡ [] (y ∷ ys) h = cc
is_same→≡ (x ∷ xs) [] h = cc
is_same→≡ (x ∷ xs) (y ∷ ys) h = ground (arith, is_same→≡ xs ys)

Written-cases :
    {A : Type 0} (w : Written A) → (w ≡ full) ⊎ (w ≡ overruns) ⊎ ((x : A) × (w ≡ done x))
Written-cases full = inl refl
Written-cases overruns = inr (inl refl)
Written-cases (done x) = inr (inr (x, refl))

-- What a write has done with the contents in part is done with the whole.
map_written-done :
    {A B : Type 0} (f : A → B) (w : Written A) {y : B}
    → map_written f w ≡ done y
    → (x : A) × (w ≡ done x) × (f x ≡ y)
map_written-done f full h = cc
map_written-done f overruns h = cc
map_written-done f (done x) h = (x, refl, cc)

map_written-overruns :
    {A B : Type 0} (f : A → B) (w : Written A) → w ≢ overruns → map_written f w ≢ overruns
map_written-overruns f full h e = cc
map_written-overruns f overruns h e = h refl
map_written-overruns f (done x) h e = cc

-- The value of a key in a list of entries, after a write.
find_pair-set_pair :
    (room : ℕ) (es : List Pair) (key val k : List ℕ) {out : List Pair}
    → set_pair room es key val ≡ done out
    → find_pair out k ≡ (if is_same key k then some val else find_pair es k)
unfolding set_pair find_pair
find_pair-set_pair zero [] key val k h = cc
find_pair-set_pair (suc room) [] key val k h = ground arith
find_pair-set_pair room (kv ∷ es) key val k {out} h = elim (Bool-cases (is_same kv.key key)) [
  | inl e ↦
      let q : kv.key ≡ key = is_same→≡ kv.key key e in
      let o : record kv { val = val } ∷ es ≡ out = ground (arith, h, e) in
      subst (λ z. find_pair z k ≡ (if is_same key k then some val else find_pair (kv ∷ es) k)) o
        (rw q (ground arith))
  | inr e ↦
      let (r, n, o) = map_written-done (λ r. kv ∷ r) (set_pair (room - 1) es key val) (rw e at h) in
      let ih = find_pair-set_pair (room - 1) es key val k n in
      subst (λ z. find_pair z k ≡ (if is_same key k then some val else find_pair (kv ∷ es) k)) o
        (elim (Bool-cases (is_same key k)) [
          | inl s ↦
              let q : key ≡ k = is_same→≡ key k s in
              let d : is_same kv.key k ≡ false = rw (sym q) e in ground (arith, ih, s, d)
          | inr s ↦ ground (arith, ih, s)
        ])
]

-- The value of a key after a write to the first section.
get_in-set_entries :
    (name : List ℕ) (es : List Pair) (ss : List Section) (key val sn k : List ℕ)
    {out : List Section}
    → map_written (λ z. z ∷ ss) (set_entries name es key val) ≡ done out
    → get_in out sn k ≡ (
        if is_same name sn && is_same key k
        then some val
        else get_in (record { name = name; entries = es } ∷ ss) sn k)
unfolding get_in
get_in-set_entries name es ss key val sn k {out} h =
    let (z, n, o) = map_written-done (λ z. z ∷ ss) (set_entries name es key val) h in
    let named : List Pair → Section = λ r. record { name = name; entries = r } in
    let (r, m, q) = map_written-done named (set_pair cfg_max_keys es key val) n in
    let whole : named r ∷ ss ≡ out = ap (λ y. y ∷ ss) q ∙ o in
    subst
      (λ y.
        get_in y sn k
        ≡ (if is_same name sn && is_same key k then some val else get_in (named es ∷ ss) sn k))
      whole (rw (find_pair-set_pair cfg_max_keys es key val k m) (ground arith))

-- The same for the sections.
get_in-set_in :
    (room : ℕ) (ss : List Section) (section key val sn k : List ℕ) {out : List Section}
    → set_in room ss section key val ≡ done out
    → get_in out sn k ≡ (if is_same section sn && is_same key k then some val else get_in ss sn k)
unfolding set_in get_in find_pair
get_in-set_in zero [] section key val sn k h = cc
get_in-set_in (suc room) [] section key val sn k h = elim (Bool-cases (fits cfg_key_len section)) [
  | inl e ↦
      let found = get_in-set_entries section [] [] key val sn k (rw e at h) in ground (arith, found)
  | inr e ↦ absurd (ground (arith, h, e))
]
get_in-set_in room (s ∷ ss) section key val sn k {out} h =
    elim (Bool-cases (is_same s.name section)) [
      | inl e ↦
          let q : s.name ≡ section = is_same→≡ s.name section e in
          rw (sym q) (get_in-set_entries s.name s.entries ss key val sn k (rw e at h))
      | inr e ↦
          let (r, n, o) =
            map_written-done (λ r. s ∷ r) (set_in (room - 1) ss section key val) (rw e at h) in
          let ih = get_in-set_in (room - 1) ss section key val sn k n in
          subst
            (λ z.
              get_in z sn k
              ≡ (if is_same section sn && is_same key k then some val else get_in (s ∷ ss) sn k))
            o
            (rw ih (elim (Bool-cases (is_same section sn)) [
              | inl m ↦
                  let q : section ≡ sn = is_same→≡ section sn m in
                  let d : is_same s.name sn ≡ false = rw (sym q) e in ground (arith, m, d)
              | inr m ↦ ground (arith, m)
            ]))
    ]

-- A write of strings that fit stays inside the arrays.
set_pair-fits :
    (room : ℕ) (es : List Pair) (key val : List ℕ)
    → fits cfg_key_len key ≡ true
    → fits cfg_val_len val ≡ true
    → set_pair room es key val ≢ overruns
unfolding set_pair
set_pair-fits zero [] key val f g h = cc
set_pair-fits (suc room) [] key val f g h = ground (arith, f, g, h)
set_pair-fits room (kv ∷ es) key val f g h = elim (Bool-cases (is_same kv.key key)) [
  | inl e ↦ ground (arith, g, e, h)
  | inr e ↦
      map_written-overruns (λ r. kv ∷ r) (set_pair (room - 1) es key val)
        (set_pair-fits (room - 1) es key val f g) (rw e at h)
]

set_entries-fits :
    (name : List ℕ) (es : List Pair) (key val : List ℕ)
    → fits cfg_key_len key ≡ true
    → fits cfg_val_len val ≡ true
    → set_entries name es key val ≢ overruns
set_entries-fits name es key val f g =
    map_written-overruns (λ r. record { name = name; entries = r })
      (set_pair cfg_max_keys es key val) (set_pair-fits cfg_max_keys es key val f g)

set_in-fits :
    (room : ℕ) (ss : List Section) (section key val : List ℕ)
    → fits cfg_key_len section ≡ true
    → fits cfg_key_len key ≡ true
    → fits cfg_val_len val ≡ true
    → set_in room ss section key val ≢ overruns
unfolding set_in
set_in-fits zero [] section key val a f g h = cc
set_in-fits (suc room) [] section key val a f g h =
    map_written-overruns (λ s. s ∷ []) (set_entries section [] key val)
      (set_entries-fits section [] key val f g) (rw a at h)
set_in-fits room (s ∷ ss) section key val a f g h = elim (Bool-cases (is_same s.name section)) [
  | inl e ↦
      map_written-overruns (λ z. z ∷ ss) (set_entries s.name s.entries key val)
        (set_entries-fits s.name s.entries key val f g) (rw e at h)
  | inr e ↦
      map_written-overruns (λ r. s ∷ r) (set_in (room - 1) ss section key val)
        (set_in-fits (room - 1) ss section key val a f g) (rw e at h)
]

-- When the names of the section and the key are shorter than 64 bytes and the value is shorter than
-- 128, and `cfg_set` returns 0, no copy runs over the end of an array, and `cfg_get` finds the new
-- value at that section and key, and the old one everywhere else.
pub cfg_get-cfg_set :
    (cfg : CfgFile) (section key val sn k : List ℕ)
    → length section < cfg_key_len
    → length key < cfg_key_len
    → length val < cfg_val_len
    → (cfg_set cfg section key val).0 ≡ pos 0
    → ((cfg_set cfg section key val).1.overrun ≡ cfg.overrun)
      × (cfg_get (cfg_set cfg section key val).1 sn k
          ≡ (if is_same section sn && is_same key k then some val else cfg_get cfg sn k))
unfolding cfg_set
cfg_get-cfg_set cfg section key val sn k a b c h =
    elim (Written-cases (set_in cfg_max_sections cfg.sections section key val)) [
      | inl e ↦ absurd (ground (arith, h, e))
      | inr (inl e) ↦ absurd (
          set_in-fits cfg_max_sections cfg.sections section key val (ground arith) (ground arith)
            (ground arith) e)
      | inr (inr (ss, e)) ↦
          rw (e, cfg_set) (refl, get_in-set_in cfg_max_sections cfg.sections section key val sn k e)
    ]
