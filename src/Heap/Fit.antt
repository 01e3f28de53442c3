-- ===== src/Heap/Fit.antt =====
-- What first fit of Heap/Blocks finds: where the block lies, and what becomes of the tiles.
use atmkoala.Base.{
  ◌⊎◌, ℕ, ◌+◌, ◌%◌, ◌≤◌, ◌≡◌, ap, sym, ◌∙◌, ◌&&◌, leb, some, inl, inr, Bool-cases, Option-cases,
  List, [], ◌∷◌, arith,
}
use atmkoala.Heap.{Header, header_size}
use atmkoala.Heap.Blocks.{Block, next_of, end_of, Tiles, end_of-le, split, first_fit}

-- The block that first fit takes lies among those searched, and has the room.
pub record Fits (n a hi : ℕ) (p : ℕ) : Type 0 where
  pub above : a ≤ p
  pub aligned : p % 8 ≡ 0
  pub room : p + header_size + n ≤ hi

pub first_fit-Fits :
    (n : ℕ) (m : ℕ → Header) (a : ℕ) (b : Block) (bs : List Block) {p : ℕ} {cs : List Block}
    → Tiles m a b bs
    → a % 8 ≡ 0
    → first_fit n a (b ∷ bs) ≡ some (p, cs)
    → Fits n a (end_of a (b ∷ bs)) p
unfolding first_fit
first_fit-Fits n m a b [] {p} {cs} t al f =
    let here : a ≡ p = ground arith in
    record { above = ground arith; aligned = ground arith; room = ground arith }
first_fit-Fits n m a b (c ∷ bs) {p} {cs} t al f = elim (Bool-cases (b.free && leb n b.size)) [
  | inl e ↦ record {
    above = ground arith;
    aligned = ground arith;
    room = ground (arith, end_of-le (next_of a b) (c ∷ bs));
  }
  | inr e ↦ elim (Option-cases (first_fit n (next_of a b) (c ∷ bs))) [
    | inl o ↦ absurd (ground arith)
    | inr ((q, ds), o) ↦
        let r = first_fit-Fits n m (next_of a b) c bs {p = q} {cs = ds} t.2 (omega arith) o in
        record {
          above = ground (arith, r.above);
          aligned = ground (arith, r.aligned);
          room = ground (arith, r.room);
        }
  ]
]

-- First fit takes the first block, or it finds one among the rest.
abbrev pub FitCases : (n a : ℕ) → Block → List Block → ℕ → List Block → Type 0
FitCases n a b bs p cs =
    ((n ≤ b.size) × (a ≡ p) × (split n b bs ≡ cs))
    ⊎ ((ds : List Block) × (first_fit n (next_of a b) bs ≡ some (p, ds)) × (b ∷ ds ≡ cs))

pub first_fit-cases :
    (n a : ℕ) (b : Block) (bs : List Block) {p : ℕ} {cs : List Block}
    → first_fit n a (b ∷ bs) ≡ some (p, cs)
    → FitCases n a b bs p cs
unfolding first_fit
first_fit-cases n a b bs {p} {cs} f = elim (Bool-cases (b.free && leb n b.size)) [
  | inl e ↦ inl (ground arith, ground arith, ground arith)
  | inr e ↦ elim (Option-cases (first_fit n (next_of a b) bs)) [
    | inl o ↦ absurd (ground arith)
    | inr ((q, ds), o) ↦ inr (ds, ground arith, ground arith)
  ]
]

-- The blocks end where they did.
pub first_fit-end_of :
    (n a : ℕ) (bs : List Block) {p : ℕ} {cs : List Block}
    → first_fit n a bs ≡ some (p, cs)
    → end_of a cs ≡ end_of a bs
unfolding first_fit
first_fit-end_of n a [] f = absurd (ground arith)
first_fit-end_of n a (b ∷ bs) f = elim (first_fit-cases n a b bs f) [
  | inl (le, q, e) ↦ ground (arith, e)
  | inr (ds, o, e) ↦
      ap (λ (xs : List Block). end_of a xs) (sym e) ∙ first_fit-end_of n (next_of a b) bs o
]
