-- ===== src/Base/Search.antt =====
-- `for (i = lo; i < lo + n; i++) if (p(i)) return i;`, the first-fit search of the kernel's tables.
use Prim.Native.Nat.{ℕ, zero, suc, ◌+◌, ◌≤◌, ◌<◌}
use mathlib.Core.Path.{◌≡◌}
use mathlib.Core.Logic.{inl, inr}
use mathlib.Core.Bool.{Bool, true, false}
use mathlib.Core.Option.{Option, none, some}
use native.Mathlib.Omega.{arith}
use atmkoala.Base.Tests.{if◌then◌else◌, Bool-cases}

unfoldable pub find_from : (ℕ → Bool) → ℕ → ℕ → Option ℕ
find_from p i zero = none
find_from p i (suc n) = let rest = find_from p (i + 1) n in if p i then some i else rest

-- What a search that succeeds has found: the first place in the range that passes.
pub record Found (p : ℕ → Bool) (lo n i : ℕ) : Type 0 where
  pub low : lo ≤ i
  pub high : i < lo + n
  pub hit : p i ≡ true
  pub first : (j : ℕ) → lo ≤ j → j < i → p j ≡ false

pub find_from-Found : (p : ℕ → Bool) (lo n : ℕ) {i : ℕ} → find_from p lo n ≡ some i → Found p lo n i
unfolding find_from
find_from-Found p lo zero h = cc
find_from-Found p lo (suc n) {i} h = elim (Bool-cases (p lo)) [
  | inl e ↦
      let q : lo ≡ i = ground arith in
      record {
        low = omega arith;
        high = omega arith;
        hit = ground arith;
        first = λ j a b. absurd (omega arith);
      }
  | inr e ↦
      let r = find_from-Found p (lo + 1) n {i = i} (rw e at h) in
      record {
        low = omega (arith, r.low);
        high = omega (arith, r.high);
        hit = r.hit;
        first = λ j a b. grind (arith, r.first);
      }
]

-- A search that fails has tried every place of the range.
pub find_from-none :
    (p : ℕ → Bool) (lo n : ℕ)
    → find_from p lo n ≡ none
    → (i : ℕ) → lo ≤ i
    → i < lo + n
    → p i ≡ false
unfolding find_from
find_from-none p lo zero h i a b = absurd (omega arith)
find_from-none p lo (suc n) h i a b = elim (Bool-cases (p lo)) [
  | inl e ↦ ground arith
  | inr e ↦ grind (arith, find_from-none p (lo + 1) n (rw e at h) i)
]
