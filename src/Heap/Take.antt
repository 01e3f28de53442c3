-- ===== src/Heap/Take.antt =====
-- The headers after `kmalloc` of src/kmalloc.c has taken a block, whole or split.
use atmkoala.Base.{
  ℕ, ◌+◌, ◌-◌, ◌%◌, ◌≤◌, ◌<◌, ◌≡◌, ap, sym, ◌∙◌, true, false, leb, update, some, inl, inr,
  Bool-cases, List, [], ◌∷◌, arith,
}
use mathlib.Core.Path.{subst}
use atmkoala.Heap.{
  Header, Heap, heap_magic, header_size, min_split, u64_mod, take_block, set_header,
}
use atmkoala.Heap.Fit.{first_fit-Fits, first_fit-cases}
use atmkoala.Heap.Blocks.{
  Block, next_of, end_of, Tiles, TilesFrom, end_of-le, Tiles-update, split, first_fit,
}

Tiles-size :
    (m : ℕ → Header) (a : ℕ) (b : Block) (bs : List Block) → Tiles m a b bs → (m a).size ≡ b.size
Tiles-size m a b [] t = ap (λ x. x.size) t
Tiles-size m a b (c ∷ bs) t = ap (λ x. x.size) t.0

-- After the block has been taken the headers are those of the new blocks, up to the same end.
module _ (n : ℕ) (h : Heap) (n_al : n % 8 ≡ 0) where
  -- The headers that `take_block` leaves, in both cases.
  take_whole :
      (a : ℕ)
      → leb (n + header_size + min_split) (h.headers a).size ≡ false
      → n + header_size + min_split < u64_mod
      → take_block n a h ≡ set_header h a (record (h.headers a) { free = false })
  unfolding take_block
  take_whole a e w = ground (arith, e)

  take_split :
      (a : ℕ)
      → leb (n + header_size + min_split) (h.headers a).size ≡ true
      → n + header_size + min_split < u64_mod
      → a + header_size + n < u64_mod
      → take_block n a h
        ≡ set_header
            (set_header h (a + header_size + n) (record {
              magic = heap_magic;
              size = (h.headers a).size - n - header_size;
              free = true;
              next = (h.headers a).next;
            }))
            a
            (record (h.headers a) { size = n; next = a + header_size + n; free = false })
  unfolding take_block
  take_split a e w lt = ground (arith, e)

  -- The block at `a` is taken and not split.
  whole-Tiles :
      (a : ℕ) (b : Block) (bs : List Block)
      → Tiles h.headers a b bs
      → Tiles
          (set_header h a (record (h.headers a) { free = false })).headers
          a
          (record b { free = false })
          bs
  whole-Tiles a b [] t = ground (arith, ap (λ x. x.size) t, ap (λ x. x.magic) t, ap (λ x. x.next) t)
  whole-Tiles a b (c ∷ bs) t = (
    ground (arith, ap (λ x. x.size) t.0, ap (λ x. x.magic) t.0, ap (λ x. x.next) t.0),
    t.1,
    Tiles-update h.headers a (record (h.headers a) { free = false }) (next_of a b) c bs
        (omega arith) t.2,
  )

  -- The block at `a` is split.
  split-Tiles :
      (a : ℕ) (b : Block) (bs : List Block)
      → Tiles h.headers a b bs
      → n + header_size + min_split ≤ b.size
      → next_of a b < u64_mod
      → Tiles
          (update
            (update h.headers (a + header_size + n) (record {
              magic = heap_magic;
              size = (h.headers a).size - n - header_size;
              free = true;
              next = (h.headers a).next;
            }))
            a
            (record (h.headers a) { size = n; next = a + header_size + n; free = false }))
          a
          (record { size = n; free = false })
          (record { size = b.size - n - header_size; free = true } ∷ bs)
  split-Tiles a b [] t le w = (
    ground (arith, ap (λ x. x.magic) t),
    n_al,
    ground (arith, ap (λ x. x.size) t, ap (λ x. x.next) t),
  )
  split-Tiles a b (c ∷ bs) t le w = (
    ground (arith, ap (λ x. x.magic) t.0),
    n_al,
    let e : a + header_size + n + header_size + (b.size - n - header_size) ≡ next_of a b =
          omega arith in
        (
          ground (arith, e, ap (λ x. x.size) t.0, ap (λ x. x.next) t.0),
          (let al = t.1 in omega arith),
          subst
              (λ (i : ℕ).
                Tiles
                  (update
                    (update h.headers (a + header_size + n) (record {
                      magic = heap_magic;
                      size = (h.headers a).size - n - header_size;
                      free = true;
                      next = (h.headers a).next;
                    }))
                    a (record (h.headers a) { size = n; next = a + header_size + n; free = false }))
                  i c bs)
              (sym e)
              (Tiles-update _ a _ (next_of a b) c bs (omega arith) (
                Tiles-update h.headers (a + header_size + n) _ (next_of a b) c bs (omega arith)
                  t.2)),
        ),
  )

  -- The headers below the block are left alone.
  take_block-below :
      (a p : ℕ) → a < p → p + header_size + n < u64_mod → (take_block n p h).headers a ≡ h.headers a
  unfolding take_block
  take_block-below a p lt w = ground arith

  -- The block taken heads the tiles that follow from its address.
  taken-Tiles :
      (a : ℕ) (b : Block) (bs : List Block)
      → Tiles h.headers a b bs
      → n ≤ b.size
      → n + header_size + min_split < u64_mod
      → end_of a (b ∷ bs) < u64_mod
      → TilesFrom (take_block n a h).headers a (split n b bs)
  taken-Tiles a b bs t le w hi = elim (Bool-cases (leb (n + header_size + min_split) b.size)) [
    | inl e ↦
        let up = end_of-le (next_of a b) bs in
        let q =
          take_split a (ground (arith, Tiles-size h.headers a b bs t)) w (ground (arith, up)) in
        rw e (
          subst
            (λ (k : Heap). TilesFrom k.headers a (
              record { size = n; free = false }
              ∷ record { size = b.size - n - header_size; free = true }
              ∷ bs))
            (sym q) (split-Tiles a b bs t (ground arith) (omega arith)))
    | inr e ↦ rw e (
        subst (λ (k : Heap). TilesFrom k.headers a (record b { free = false } ∷ bs))
          (sym (take_whole a (ground (arith, Tiles-size h.headers a b bs t)) w))
          (whole-Tiles a b bs t))
  ]

  -- A block in front of the tiles stays there.
  tail-Tiles :
      (a p : ℕ) (b c : Block) (bs ds : List Block)
      → Tiles h.headers a b (c ∷ bs)
      → next_of a b ≤ p
      → p + header_size + n < u64_mod
      → TilesFrom (take_block n p h).headers (next_of a b) ds
      → TilesFrom (take_block n p h).headers a (b ∷ ds)
  tail-Tiles a p b c bs [] t le room r = absurd r
  tail-Tiles a p b c bs (d ∷ ds) t le room r =
      (take_block-below a p (omega arith) room ∙ t.0, t.1, r)

  head-Tiles :
      (a : ℕ) (b : Block) (bs cs : List Block) {p : ℕ}
      → Tiles h.headers a b bs
      → n ≤ b.size
      → n + header_size + min_split < u64_mod
      → end_of a (b ∷ bs) < u64_mod
      → a ≡ p
      → split n b bs ≡ cs
      → TilesFrom (take_block n p h).headers a cs
  head-Tiles a b bs cs t le w hi q e =
      subst (λ (i : ℕ). TilesFrom (take_block n i h).headers a cs) q
        (subst (λ (xs : List Block). TilesFrom (take_block n a h).headers a xs) e
          (taken-Tiles a b bs t le w hi))

  -- The tiles after first fit, from the first block on.
  pub fit-Tiles :
      (a : ℕ) (b : Block) (bs : List Block) {p : ℕ} {cs : List Block}
      → Tiles h.headers a b bs
      → a % 8 ≡ 0
      → first_fit n a (b ∷ bs) ≡ some (p, cs)
      → n + header_size + min_split < u64_mod
      → end_of a (b ∷ bs) < u64_mod
      → TilesFrom (take_block n p h).headers a cs
  unfolding first_fit
  fit-Tiles a b [] {p} {cs} t al f w hi = elim (first_fit-cases n a b [] f) [
    | inl (le, q, e) ↦ head-Tiles a b [] cs t le w hi q e
    | inr (ds, o, e) ↦ absurd (ground arith)
  ]
  fit-Tiles a b (c ∷ bs) {p} {cs} t al f w hi = elim (first_fit-cases n a b (c ∷ bs) f) [
    | inl (le, q, e) ↦ head-Tiles a b (c ∷ bs) cs t le w hi q e
    | inr (ds, o, e) ↦
        let al' : next_of a b % 8 ≡ 0 = let al8 = t.1 in omega arith in
        let r = first_fit-Fits n h.headers (next_of a b) c bs t.2 al' o in
        let ih = fit-Tiles (next_of a b) c bs t.2 al' o w hi in
        subst (λ (xs : List Block). TilesFrom (take_block n p h).headers a xs) e
          (tail-Tiles a p b c bs ds t r.above (let m = r.room in omega arith) ih)
  ]
