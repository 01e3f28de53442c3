-- ===== src/Paging/Uaccess/Text.antt =====
-- The texts of src/uaccess.c that end with a 0.
use atmkoala.Base.{
  ℕ, zero, suc, ◌+◌, ◌-◌, ◌%◌, ◌≤◌, ◌<◌, ◌≡◌, ◌≢◌, ◌∙◌, inl, inr, refl, true, false, ◌==◌, ◌||◌,
  not, if◌then◌else◌, none, some, Option-cases, Bool-cases, List, [], ◌∷◌, arith,
}
use mathlib.Core.Path.{subst}
use atmkoala.Heap.{u64_mod}
use atmkoala.Paging.{Space, Memory, paging_user_range}
use atmkoala.Paging.Range.{AllAccess, paging_user_range_lem}
use atmkoala.Paging.Uaccess.{copy_from_user, strnlen_loop, strnlen_user, copy_string_from_user}
use atmkoala.Paging.Uaccess.Copy.{frame, user_load, copy_from_user_lem}

-- The text at `va` has `n` bytes before its 0, and all of them may be read.
pub record IsText (m : Memory) (s : Space) (va n : ℕ) : Type 0 where
  pub access : AllAccess m s false va (va + n + 1)
  pub ends : m.bytes (frame m s (va + n)) ≡ 0
  pub goes_on : (i : ℕ) → i < n → m.bytes (frame m s (va + i)) ≢ 0

-- One byte.
copy_byte :
    (va : ℕ) (s : Space) (m : Memory)
    → copy_from_user va 1 s m ≡ (
        if paging_user_range m s va 1 false
        then (true, m.bytes (frame m s va) ∷ [])
        else (false, []))
copy_byte va s m = copy_from_user_lem va 1 s m

-- What the loop at the index `n` has found at `k`.
record StopsAt (m : Memory) (s : Space) (addr n left k : ℕ) : Type 0 where
  low : n ≤ k
  high : k < n + left
  access : AllAccess m s false (addr + n) (addr + k + 1)
  ends : m.bytes (frame m s (addr + k)) ≡ 0
  goes_on : (i : ℕ) → n ≤ i → i < k → m.bytes (frame m s (addr + i)) ≢ 0

-- One round of the loop.
strnlen_round :
    (left n addr : ℕ) (s : Space) (m : Memory)
    → addr + n < u64_mod
    → strnlen_loop (suc left) n addr s m ≡ (
        if not (paging_user_range m s (addr + n) 1 false)
        then none
        else if m.bytes (frame m s (addr + n)) == 0
        then some n
        else strnlen_loop left (n + 1) addr s m)
unfolding strnlen_loop
strnlen_round left n addr s m w =
    let e : (addr + n) % u64_mod ≡ addr + n = omega arith in
    elim (Bool-cases (paging_user_range m s (addr + n) 1 false)) [
      | inl r ↦ rw (e, copy_byte (addr + n) s m, r) refl
      | inr r ↦ rw (e, copy_byte (addr + n) s m, r) refl
    ]

strnlen_loop-StopsAt :
    (left n addr : ℕ) (s : Space) (m : Memory) {k : ℕ}
    → addr + n + left < u64_mod
    → strnlen_loop left n addr s m ≡ some k
    → StopsAt m s addr n left k
unfolding strnlen_loop
strnlen_loop-StopsAt zero n addr s m w h = cc
strnlen_loop-StopsAt (suc left) n addr s m {k} w h =
    let round = strnlen_round left n addr s m (omega arith) in
    elim (Bool-cases (paging_user_range m s (addr + n) 1 false)) [
      | inl r ↦
          let acc = ((paging_user_range_lem m s (addr + n) 1 false).0 r).access in
          elim (Bool-cases (m.bytes (frame m s (addr + n)) == 0)) [
            | inl z ↦
                let q : n ≡ k = ground (arith, round, h, r, z) in
                subst (StopsAt m s addr n (suc left)) q (record {
                  low = omega arith;
                  high = omega arith;
                  access = λ x a b. acc x a (omega arith);
                  ends = ground arith;
                  goes_on = λ i a b. absurd (omega arith);
                })
            | inr z ↦
                let rest =
                  strnlen_loop-StopsAt left (n + 1) addr s m {k = k} (omega arith)
                    (ground (arith, round, h, r, z)) in
                let lo = rest.low in
                let hi = rest.high in
                record {
                  low = omega arith;
                  high = omega arith;
                  access = λ x a b. elim (Bool-cases (x == addr + n)) [
                    | inl q ↦ acc x a (ground arith)
                    | inr q ↦ rest.access x (ground arith) b
                  ];
                  ends = rest.ends;
                  goes_on = λ i a b. elim (Bool-cases (i == n)) [
                    | inl q ↦
                        let e : n ≡ i = ground arith in
                        subst (λ j. m.bytes (frame m s (addr + j)) ≢ 0) e (ground (arith, z))
                    | inr q ↦ rest.goes_on i (ground arith) b
                  ];
                }
          ]
      | inr r ↦ absurd (ground (arith, round, h, r))
    ]

copied_bytes :
    (va n : ℕ) (s : Space) (m : Memory) {bs : List ℕ}
    → (let r = copy_from_user va (n + 1) s m in if r.0 then some r.1 else none) ≡ some bs
    → bs ≡ user_load m s va (n + 1)
copied_bytes va n s m {bs} h =
    elim (Bool-cases (n + 1 == 0 || paging_user_range m s va (n + 1) false)) [
      | inl e ↦
          let run : copy_from_user va (n + 1) s m ≡ (true, user_load m s va (n + 1)) =
            copy_from_user_lem va (n + 1) s m ∙ rw e refl in
          ground (arith, rw run at h)
      | inr e ↦
          let run : copy_from_user va (n + 1) s m ≡ (false, []) =
            copy_from_user_lem va (n + 1) s m ∙ rw e refl in
          absurd (ground (arith, rw run at h))
    ]

-- When `copy_string_from_user` returns bytes, they are those of a text at the user address, with its 0,
-- all of them readable and fewer than the size of the buffer, for an address that leaves the size
-- below 2 ^ 64.
pub copy_string_from_user_lem :
    (dst_size va : ℕ) (s : Space) (m : Memory) {bs : List ℕ}
    → va + dst_size < u64_mod
    → copy_string_from_user dst_size va s m ≡ some bs
    → (n : ℕ) × (n + 1 < dst_size) × IsText m s va n × (bs ≡ user_load m s va (n + 1))
unfolding copy_string_from_user strnlen_user
copy_string_from_user_lem dst_size va s m {bs} w h =
    elim (Option-cases (strnlen_user va (dst_size - 1) s m)) [
      | inl o ↦ absurd (ground (arith, h, o))
      | inr (n, o) ↦
          let fits : (2 ≤ dst_size) × (strnlen_loop (dst_size - 1) 0 va s m ≡ some n) =
            ground (arith, h, o) in
          let t = strnlen_loop-StopsAt (dst_size - 1) 0 va s m {k = n} (omega arith) fits.1 in
          let hi = t.high in
          (
            n,
            omega (arith, fits.0),
            record {
              access = λ x a b. t.access x (omega arith) b;
              ends = t.ends;
              goes_on = λ i b. t.goes_on i (omega arith) b;
            },
            copied_bytes va n s m (ground (arith, h, o)),
          )
    ]
