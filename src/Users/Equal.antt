-- ===== src/Users/Equal.antt =====
-- The comparison of digests of src/users.c.
use atmkoala.Base.{
  ℕ, zero, suc, ◌+◌, ◌≤◌, ◌<◌, ◌≡◌, ◌↔◌, refl, inl, inr, true, ◌==◌, List, get_or, Bool-cases,
  arith, bit_or-zero, bit_xor-zero, bit_xor_same,
}
use Prim.Native.Nat.{bit_or, bit_xor}
use mathlib.Core.Path.{subst}
use atmkoala.Users.{diff_from, secure_equal}

-- The 64 bytes of two digests are the same.
abbrev pub SameDigest : (a b : List ℕ) → Type 0
SameDigest a b = (j : ℕ) → j < 64 → get_or a j 0 ≡ get_or b j 0

diff_from-zero :
    (n i : ℕ) (a b : List ℕ) (diff : ℕ)
    → diff_from n i a b diff ≡ 0
    → (diff ≡ 0) × ((j : ℕ) → i ≤ j → j < i + n → get_or a j 0 ≡ get_or b j 0)
unfolding diff_from
diff_from-zero zero i a b diff h = (h, λ j lo hi. absurd (omega arith))
diff_from-zero (suc n) i a b diff h =
    let x = get_or a i 0 in
    let y = get_or b i 0 in
    let (d, later) = diff_from-zero n (i + 1) a b (bit_or diff (bit_xor x y)) h in
    let (p, q) = bit_or-zero diff (bit_xor x y) d in
    let here : get_or a i 0 ≡ get_or b i 0 = bit_xor-zero x y q in
    (
      p,
      λ j lo hi. elim (Bool-cases (i == j)) [
        | inl e ↦
            let same : i ≡ j = ground arith in subst (λ k. get_or a k 0 ≡ get_or b k 0) same here
        | inr e ↦ later j (ground arith) (omega arith)
      ],
    )

diff_from_same :
    (n i : ℕ) (a b : List ℕ)
    → ((j : ℕ) → i ≤ j → j < i + n → get_or a j 0 ≡ get_or b j 0)
    → diff_from n i a b 0 ≡ 0
unfolding diff_from
diff_from_same zero i a b h = refl
diff_from_same (suc n) i a b h =
    rw (h i (omega arith) (omega arith), bit_xor_same (get_or b i 0))
      (diff_from_same n (i + 1) a b (λ j lo hi. h j (omega arith) (omega arith)))

pub secure_equal_lem : (a b : List ℕ) → secure_equal a b ≡ true ↔ SameDigest a b
unfolding secure_equal
secure_equal_lem a b = (
  (λ h j lt.
      let e : diff_from 64 0 a b 0 ≡ 0 = ground arith in
      (diff_from-zero 64 0 a b 0 e).1 j (omega arith) (omega arith)),
  (λ h. rw (diff_from_same 64 0 a b (λ j lo hi. h j (omega arith))) refl),
)
