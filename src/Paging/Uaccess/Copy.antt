-- ===== src/Paging/Uaccess/Copy.antt =====
-- The copies of src/uaccess.c, page by page, against copies byte by byte.
use atmkoala.Base.{
  ℕ, zero, suc, ◌+◌, ◌-◌, ◌%◌, ◌≤◌, ◌<◌, ◌≡◌, ◌≢◌, ◌∙◌, ap, inl, inr, refl, Bool, true, false, ◌==◌,
  ◌||◌, if◌then◌else◌, update, none, some, is_some, Option-cases, Bool-cases, List, [], ◌∷◌, ◌++◌,
  length, take, drop, take-append-drop, length-take, length-drop, arith,
}
use mathlib.Core.Path.{sym, ap₂}
use atmkoala.Paging.{
  page_size, Space, Memory, user_pt_slot, user_pt_page, may_access, paging_user_range,
  paging_user_translate,
}
use atmkoala.Paging.Range.{IsRange, paging_user_range_lem}
use atmkoala.Paging.Uaccess.{
  store, load, round_bytes, to_user_loop, from_user_loop, copy_to_user, copy_from_user,
}

-- The physical address of a user address, 0 where there is none.
abbrev pub frame : Memory → Space → ℕ → ℕ
frame m s va = elim (paging_user_translate m s va) [ none ↦ 0 | some (p, f) ↦ p ]

-- The bytes at `n` user addresses from `va` on, one after the other.
abbrev pub user_load : Memory → Space → (va n : ℕ) → List ℕ
user_load m s va zero = []
user_load m s va (suc n) = m.bytes (frame m s va) ∷ user_load m s (va + 1) n

-- Bytes stored at the user addresses from `va` on, one after the other.
abbrev pub user_store : Memory → Space → ℕ → List ℕ → (ℕ → ℕ) → ℕ → ℕ
user_store m s va [] b = b
user_store m s va (x ∷ xs) b = user_store m s (va + 1) xs (update b (frame m s va) x)

-- Within a page, physical addresses follow each other.
frame-next :
    (m : Memory) (s : Space) (va : ℕ)
    → va % page_size + 1 < page_size
    → is_some (paging_user_translate m s va) ≡ true
    → frame m s (va + 1) ≡ frame m s va + 1
unfolding paging_user_translate
frame-next m s va h t =
    let slot : user_pt_slot (va + 1) ≡ user_pt_slot va = ground (arith) in
    let index : user_pt_page (va + 1) ≡ user_pt_page va = ground arith in
    ground (arith, slot, index)

module _ (m : Memory) (s : Space) where
  load-user_load :
      (n va k : ℕ)
      → va % page_size + n ≤ page_size
      → ((x : ℕ) → va ≤ x → x < va + n → is_some (paging_user_translate m s x) ≡ true)
      → load (frame m s va) n m.bytes ++ user_load m s (va + n) k ≡ user_load m s va (n + k)
  unfolding load
  load-user_load zero va k h t = ap₂ (user_load m s) (omega arith) (omega arith)
  load-user_load (suc zero) va k h t =
      let e : suc k ≡ 1 + k = omega arith in ap (user_load m s va) e
  load-user_load (suc (suc n)) va k h t =
      let rest =
        load-user_load (suc n) (va + 1) k (omega arith)
          (λ x a b. t x (omega arith) (omega arith)) in
      let e = frame-next m s va (omega arith) (t va (omega arith) (omega arith)) in
      let q : suc (suc n + k) ≡ suc (suc n) + k = omega arith in
      ap (λ r. m.bytes (frame m s va) ∷ r)
        (ap₂ (λ p a. load p (suc n) m.bytes ++ user_load m s a k) (sym e) (omega arith) ∙ rest)
      ∙ ap (user_load m s va) q

  store-user_store :
      (xs : List ℕ) (va : ℕ) (ys : List ℕ) (b : ℕ → ℕ)
      → va % page_size + length xs ≤ page_size
      → ((x : ℕ) → va ≤ x → x < va + length xs → is_some (paging_user_translate m s x) ≡ true)
      → user_store m s (va + length xs) ys (store (frame m s va) xs b)
        ≡ user_store m s va (xs ++ ys) b
  unfolding store
  store-user_store [] va ys b h t = ap (λ a. user_store m s a ys b) (omega arith)
  store-user_store (x ∷ []) va ys b h t = refl
  store-user_store (x ∷ y ∷ xs) va ys b h t =
      let rest =
        store-user_store (y ∷ xs) (va + 1) ys (update b (frame m s va) x) (omega arith)
          (λ z a c. t z (omega arith) (omega arith)) in
      let e = frame-next m s va (omega arith) (t va (omega arith) (omega arith)) in
      ap₂ (λ a p. user_store m s a ys (store p (y ∷ xs) (update b (frame m s va) x))) (omega arith)
        (sym e)
      ∙ rest

  -- Every address of the range translates.
  abbrev Mapped : (va n : ℕ) → Type 0
  Mapped va n = (x : ℕ) → va ≤ x → x < va + n → is_some (paging_user_translate m s x) ≡ true

  from_user_loop_lem :
      (fuel va len : ℕ)
      → len < fuel
      → Mapped va len
      → from_user_loop fuel va len s m ≡ (true, user_load m s va len)
  unfolding from_user_loop
  from_user_loop_lem zero va len h t = absurd (omega arith)
  from_user_loop_lem (suc fuel) va zero h t = refl
  from_user_loop_lem (suc fuel) va (suc len) h t =
      let n = round_bytes va (suc len) in
      elim (Option-cases (paging_user_translate m s va)) [
        | inl o ↦ absurd (ground (arith, o, t va (omega arith) (omega arith)))
        | inr ((p, f), o) ↦
            let rest =
              from_user_loop_lem fuel (va + n) (suc len - n) (omega arith)
                (λ x a b. t x (omega arith) (omega arith)) in
            let fr : frame m s va ≡ p = rw (o, frame) refl in
            let z : (suc len == 0) ≡ false = ground arith in
            let whole =
              load-user_load n va (suc len - n) (omega arith)
                (λ x a b. t x (omega arith) (omega arith)) in
            let q : n + (suc len - n) ≡ suc len = omega arith in
            rw (z, o, rest)
              (ap (λ r. (true, r))
                (ap (λ p. load p n m.bytes ++ user_load m s (va + n) (suc len - n)) (sym fr)
                  ∙ whole
                  ∙ ap (user_load m s va) q))
      ]

  translate-bytes :
      (x : ℕ) (b : ℕ → ℕ)
      → paging_user_translate (record m { bytes = b }) s x ≡ paging_user_translate m s x
  unfolding paging_user_translate
  translate-bytes x b = refl

  to_user_loop_lem :
      (fuel va : ℕ) (k : List ℕ) (b : ℕ → ℕ)
      → length k < fuel
      → Mapped va (length k)
      → to_user_loop fuel va k s (record m { bytes = b })
        ≡ (true, record m { bytes = user_store m s va k b })
  unfolding to_user_loop
  to_user_loop_lem zero va k b h t = absurd (omega arith)
  to_user_loop_lem (suc fuel) va [] b h t = refl
  to_user_loop_lem (suc fuel) va (y ∷ ys) b h t =
      let k = y ∷ ys in
      let n = round_bytes va (length k) in
      let tk : length (take n k) ≡ n = omega (arith, length-take n k) in
      elim (Option-cases (paging_user_translate m s va)) [
        | inl o ↦ absurd (ground (arith, o, t va (omega arith) (omega arith)))
        | inr ((p, f), o) ↦
            let rest =
              to_user_loop_lem fuel (va + n) (drop n k) (store p (take n k) b)
                (omega (arith, length-drop n k))
                (λ x a c. t x (omega arith) (omega (arith, length-drop n k))) in
            let fr : frame m s va ≡ p = rw (o, frame) refl in
            let z : (suc (length ys) == 0) ≡ false = ground arith in
            let whole =
              store-user_store (take n k) va (drop n k) b (omega arith)
                (λ x a c. t x (omega arith) (omega arith)) in
            rw (z, translate-bytes va b, o, rest)
              (ap (λ c. (true, record m { bytes = c }))
                (ap₂ (λ a q. user_store m s (va + a) (drop n k) (store q (take n k) b)) (sym tk)
                    (sym fr)
                  ∙ whole
                  ∙ ap (λ r. user_store m s va r b) (take-append-drop n k)))
      ]

mapped_range :
    {m : Memory} {s : Space} {va n : ℕ} {write : Bool}
    → IsRange m s va n write
    → (x : ℕ) → va ≤ x
    → x < va + n
    → is_some (paging_user_translate m s x) ≡ true
mapped_range r x a b = ground (arith, r.access x a b)

-- `copy_to_user` succeeds exactly when there is nothing to copy, or the range passes the test for
-- writing; then it has stored the bytes one by one at their user addresses, whatever pages they
-- cross. When it fails, it has stored nothing.
pub copy_to_user_lem :
    (va : ℕ) (src : List ℕ) (s : Space) (m : Memory)
    → copy_to_user va src s m ≡ (
        if length src == 0 || paging_user_range m s va (length src) true
        then (true, record m { bytes = user_store m s va src m.bytes })
        else (false, m))
unfolding copy_to_user
copy_to_user_lem va [] s m = refl
copy_to_user_lem va (x ∷ xs) s m =
    let src = x ∷ xs in
    let z : (suc (length xs) == 0) ≡ false = ground arith in
    elim (Bool-cases (paging_user_range m s va (length src) true)) [
      | inl e ↦
          let r = (paging_user_range_lem m s va (length src) true).0 e in
          rw (z, e)
            (to_user_loop_lem m s (suc (length src)) va src m.bytes (omega arith) (mapped_range r))
      | inr e ↦ rw (z, e) refl
    ]

-- `copy_from_user` succeeds exactly when there is nothing to copy, or the range passes the test for
-- reading; then it returns the bytes at the user addresses, one by one, whatever pages they cross.
pub copy_from_user_lem :
    (va len : ℕ) (s : Space) (m : Memory)
    → copy_from_user va len s m ≡ (
        if len == 0 || paging_user_range m s va len false
        then (true, user_load m s va len)
        else (false, []))
unfolding copy_from_user
copy_from_user_lem va zero s m = refl
copy_from_user_lem va (suc n) s m =
    let z : (suc n == 0) ≡ false = ground arith in
    elim (Bool-cases (paging_user_range m s va (suc n) false)) [
      | inl e ↦
          let r = (paging_user_range_lem m s va (suc n) false).0 e in
          rw (z, e) (from_user_loop_lem m s (suc (suc n)) va (suc n) (omega arith) (mapped_range r))
      | inr e ↦ rw (z, e) refl
    ]

-- Different addresses of the range have different physical addresses.
abbrev pub NoAlias : Memory → Space → (va n : ℕ) → Type 0
NoAlias m s va n = (x y : ℕ) → va ≤ x → x < y → y < va + n → frame m s x ≢ frame m s y

module _ (m : Memory) (s : Space) where
  user_store-outside :
      (xs : List ℕ) (va : ℕ) (b : ℕ → ℕ) (p : ℕ)
      → ((y : ℕ) → va ≤ y → y < va + length xs → p ≢ frame m s y)
      → user_store m s va xs b p ≡ b p
  user_store-outside [] va b p h = refl
  user_store-outside (x ∷ xs) va b p h =
      user_store-outside xs (va + 1) (update b (frame m s va) x) p
        (λ y a c. h y (omega arith) (omega arith))
      ∙ ground (arith, h va (omega arith) (omega arith))

  user_load-user_store :
      (xs : List ℕ) (va : ℕ) (b : ℕ → ℕ)
      → NoAlias m s va (length xs)
      → user_load (record m { bytes = user_store m s va xs b }) s va (length xs) ≡ xs
  unfolding paging_user_translate
  user_load-user_store [] va b h = refl
  user_load-user_store (x ∷ xs) va b h =
      let rest =
        user_load-user_store xs (va + 1) (update b (frame m s va) x)
          (λ y z a c d. h y z (omega arith) c (omega arith)) in
      let head =
        user_store-outside xs (va + 1) (update b (frame m s va) x) (frame m s va)
          (λ y a c. h va y (omega arith) (omega arith) (omega arith)) in
      ap₂ (λ a r. a ∷ r) (head ∙ ground arith) rest

-- What may be written may be read, whatever the bytes are.
range-readable :
    (m : Memory) (s : Space) (va n : ℕ) (b : ℕ → ℕ)
    → paging_user_range m s va n true ≡ true
    → paging_user_range (record m { bytes = b }) s va n false ≡ true
unfolding paging_user_translate
range-readable m s va n b h =
    let r = (paging_user_range_lem m s va n true).0 h in
    (paging_user_range_lem (record m { bytes = b }) s va n false).1 (record {
      some_bytes = r.some_bytes;
      low = r.low;
      high = r.high;
      access = λ x a c. readable x (r.access x a c);
    })
  where
    readable :
        (x : ℕ)
        → may_access m s true x ≡ true
        → may_access (record m { bytes = b }) s false x ≡ true
    readable x h = ground arith

-- What `copy_to_user` has copied, `copy_from_user` at the same place returns, where the addresses of
-- the range have different physical addresses.
pub copy_from_user-copy_to_user :
    (va : ℕ) (src : List ℕ) (s : Space) (m : Memory)
    → NoAlias m s va (length src)
    → (copy_to_user va src s m).0 ≡ true
    → copy_from_user va (length src) s (copy_to_user va src s m).1 ≡ (true, src)
copy_from_user-copy_to_user va src s m h ok =
    elim (Bool-cases (length src == 0 || paging_user_range m s va (length src) true)) [
      | inl e ↦
          let m2 : Memory = record m { bytes = user_store m s va src m.bytes } in
          let readable : (length src == 0 || paging_user_range m2 s va (length src) false) ≡ true =
            ground (arith, range-readable m s va (length src) (user_store m s va src m.bytes)) in
          let to : copy_to_user va src s m ≡ (true, m2) = copy_to_user_lem va src s m ∙ rw e refl in
          ap (λ r. copy_from_user va (length src) s r.1) to
          ∙ copy_from_user_lem va (length src) s m2
          ∙ rw readable (ap (λ r. (true, r)) (user_load-user_store m s src va m.bytes h))
      | inr e ↦
          let failed = copy_to_user_lem va src s m in
          absurd (ground (arith, ap (λ r. r.0) failed, e))
    ]
