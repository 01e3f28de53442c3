-- ===== src/Heap/Merge.antt =====
-- `coalesce` of src/kmalloc.c and `merge` of Heap/Blocks.
use atmkoala.Base.{
  ℕ, zero, suc, ◌+◌, ◌%◌, ◌≤◌, ◌<◌, ◌≡◌, refl, ap, sym, ◌∙◌, true, false, ◌&&◌, List, [], ◌∷◌,
  length, Bool-cases, inl, inr, arith,
}
use mathlib.Core.Path.{subst}
use atmkoala.Heap.{
  Header, Heap, heap_magic, header_size, u64_mod, is_sound, set_header, coalesce_walk,
}
use atmkoala.Heap.Blocks.{
  Block, header, next_of, end_of, Tiles, TilesFrom, end_of-le, Tiles-update, is_sound-at, joined,
  merge,
}

-- Where the heap lies, and that the walk is within it.
pub record Within (h : Heap) (a : ℕ) (b : Block) (bs : List Block) : Type 0 where
  pub tiles : Tiles h.headers a b bs
  pub start_pos : 0 < h.heap_start
  pub above : h.heap_start ≤ a
  pub aligned : a % 8 ≡ 0
  pub end_at : end_of a (b ∷ bs) ≡ h.heap_start + h.heap_total + header_size
  pub small : h.heap_start + h.heap_total + header_size < u64_mod

-- What the walk from `a` leaves.
pub record Merged (h h' : Heap) (a : ℕ) (cs : List Block) : Type 0 where
  pub tiles : TilesFrom h'.headers a cs
  pub below : (i : ℕ) → i < a → h'.headers i ≡ h.headers i
  pub same_start : h'.heap_start ≡ h.heap_start
  pub same_total : h'.heap_total ≡ h.heap_total

-- The headers after the block at `a` has taken in the next.
abbrev join_heap : ℕ → Block → Block → Heap → Heap
join_heap a b c h = set_header h a (header (joined b c) (h.headers (next_of a b)).next)

Tiles-head :
    (m : ℕ → Header) (a : ℕ) (b : Block) (bs : List Block)
    → Tiles m a b bs
    → ((m a).magic ≡ heap_magic) × ((m a).size ≡ b.size) × ((m a).free ≡ b.free)
Tiles-head m a b [] t = (ap (λ x. x.magic) t, ap (λ x. x.size) t, ap (λ x. x.free) t)
Tiles-head m a b (c ∷ bs) t = (ap (λ x. x.magic) t.0, ap (λ x. x.size) t.0, ap (λ x. x.free) t.0)

module _ (h : Heap) (a : ℕ) (b c : Block) (bs : List Block) (w : Within h a b (c ∷ bs)) where
  sound_here : is_sound h a ≡ true
  sound_here =
      is_sound-at h a w.start_pos w.small w.above w.aligned
        (let e = w.end_at in omega (arith, end_of-le (next_of (next_of a b) c) bs))
        (ap (λ x. x.magic) w.tiles.0)

  sound_next : is_sound h (next_of a b) ≡ true
  sound_next =
      is_sound-at h (next_of a b) w.start_pos w.small (let e = w.above in omega arith)
        (let e = w.aligned in let e' = w.tiles.1 in omega arith)
        (let e = w.end_at in omega (arith, end_of-le (next_of (next_of a b) c) bs))
        (Tiles-head h.headers (next_of a b) c bs w.tiles.2).0

  step_join :
      (k : ℕ)
      → b.free && c.free ≡ true
      → coalesce_walk (suc k) a h ≡ coalesce_walk k a (join_heap a b c h)
  unfolding coalesce_walk
  step_join k e =
      let q = Tiles-head h.headers (next_of a b) c bs w.tiles.2 in
      let t = w.tiles in
      let e1 = w.end_at in
      let e2 = w.small in
      let e3 = w.start_pos in
      let e4 = w.above in
      ground (
        arith,
        sound_here,
        sound_next,
        ap (λ x. x.next) t.0,
        ap (λ x. x.size) t.0,
        ap (λ x. x.free) t.0,
        ap (λ x. x.magic) t.0,
        end_of-le (next_of (next_of a b) c) bs,
      )

  step_onward :
      (k : ℕ)
      → b.free && c.free ≡ false
      → coalesce_walk (suc k) a h ≡ coalesce_walk k (next_of a b) h
  unfolding coalesce_walk
  step_onward k e =
      let q = Tiles-head h.headers (next_of a b) c bs w.tiles.2 in
      let t = w.tiles in
      let e3 = w.start_pos in
      let e4 = w.above in
      ground (arith, sound_here, sound_next, ap (λ x. x.next) t.0, ap (λ x. x.free) t.0)

join-Within :
    (h : Heap) (a : ℕ) (b c : Block) (bs : List Block)
    → Within h a b (c ∷ bs)
    → Within (join_heap a b c h) a (joined b c) bs
join-Within h a b c bs w = record {
  tiles = join-Tiles bs w.tiles (omega arith);
  start_pos = w.start_pos;
  above = w.above;
  aligned = w.aligned;
  end_at =
      subst (λ (i : ℕ). end_of i bs ≡ h.heap_start + h.heap_total + header_size)
        (let e : next_of (next_of a b) c ≡ next_of a (joined b c) = omega arith in e) w.end_at;
  small = w.small;
}
  where
    join-Tiles :
        (xs : List Block)
        → Tiles h.headers a b (c ∷ xs)
        → next_of (next_of a b) c ≡ next_of a (joined b c)
        → Tiles (join_heap a b c h).headers a (joined b c) xs
    join-Tiles [] t e = ground (arith, ap (λ x. x.next) t.2)
    join-Tiles (d ∷ xs) t e = (
      ground (arith, ap (λ x. x.next) t.2.0),
      (let e1 = t.1 in let e2 = t.2.1 in omega arith),
      subst (λ (i : ℕ). Tiles (join_heap a b c h).headers i d xs) e
          (Tiles-update h.headers a _ (next_of (next_of a b) c) d xs (omega arith) t.2.2),
    )

onward-Within :
    (h : Heap) (a : ℕ) (b c : Block) (bs : List Block)
    → Within h a b (c ∷ bs)
    → Within h (next_of a b) c bs
onward-Within h a b c bs w =
    let e = w.tiles.1 in
    let e' = w.above in
    let e'' = w.aligned in
    record {
      tiles = w.tiles.2;
      start_pos = w.start_pos;
      above = omega arith;
      aligned = omega arith;
      end_at = w.end_at;
      small = w.small;
    }

walk_last :
    (k : ℕ) (h : Heap) (a : ℕ) (b : Block) → Tiles h.headers a b [] → coalesce_walk k a h ≡ h
unfolding coalesce_walk
walk_last zero h a b t = refl
walk_last (suc k) h a b t = ground (arith, ap (λ x. x.next) t)

-- A block in front of what the walk has merged.
behind :
    (h h' : Heap) (a : ℕ) (b c : Block) (bs cs : List Block)
    → Tiles h.headers a b (c ∷ bs)
    → Merged h h' (next_of a b) cs
    → Merged h h' a (b ∷ cs)
behind h h' a b c bs [] t m = absurd m.tiles
behind h h' a b c bs (d ∷ cs) t m = record {
  tiles = (m.below a (omega arith) ∙ t.0, t.1, m.tiles);
  below = λ i lt. m.below i (omega arith);
  same_start = m.same_start;
  same_total = m.same_total;
}

pub coalesce_walk_lem :
    (k : ℕ) (h : Heap) (a : ℕ) (b : Block) (bs : List Block)
    → Within h a b bs
    → length bs ≤ k
    → Merged h (coalesce_walk k a h) a (merge b bs)
unfolding merge
coalesce_walk_lem k h a b [] w le =
    subst (λ (h' : Heap). Merged h h' a (b ∷ [])) (sym (walk_last k h a b w.tiles))
      (record { tiles = w.tiles; below = λ i lt. refl; same_start = refl; same_total = refl })
coalesce_walk_lem zero h a b (c ∷ bs) w le = absurd (omega arith)
coalesce_walk_lem (suc k) h a b (c ∷ bs) w le = elim (Bool-cases (b.free && c.free)) [
  | inl e ↦
      let r =
        coalesce_walk_lem k (join_heap a b c h) a (joined b c) bs (join-Within h a b c bs w)
          (omega arith) in
      rw e (
        subst (λ (h' : Heap). Merged h h' a (merge (joined b c) bs))
          (sym (step_join h a b c bs w k e))
          (record {
            tiles = r.tiles;
            below = λ i lt. r.below i lt ∙ ground arith;
            same_start = r.same_start;
            same_total = r.same_total;
          }))
  | inr e ↦
      let r = coalesce_walk_lem k h (next_of a b) c bs (onward-Within h a b c bs w) (omega arith) in
      rw e (
        subst (λ (h' : Heap). Merged h h' a (b ∷ merge c bs)) (sym (step_onward h a b c bs w k e))
          (behind h (coalesce_walk k (next_of a b) h) a b c bs (merge c bs) w.tiles r))
]
