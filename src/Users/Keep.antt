-- ===== src/Users/Keep.antt =====
-- The changes of a right table of src/users.c, and the search for a user id.
use atmkoala.Base.{
  ℕ, zero, suc, ◌+◌, ◌%◌, ◌≤◌, ◌<◌, ◌≡◌, ◌≢◌, refl, ap, sym, ◌∙◌, inl, inr, true, false, ◌==◌, ◌&&◌,
  if◌then◌else◌, ltb, leb, some, List, [], ◌∷◌, ◌++◌, length, length-append, Bool-cases, arith,
}
use mathlib.Core.Path.{subst}
use atmkoala.Kernel.{u32_mod}
use atmkoala.Users.{
  user_max, user_uid_root, user_uid_first, user_uid_guest, Role, is_admin, is_guest, Account,
  text_root, account_at, uid_used, free_uid, next_uid,
}
use atmkoala.Users.Ops.{without, change_account}
use atmkoala.Users.Invariant.{
  IsUsers, account_at-append, account_at-without, length-without, account_at-change, length-change,
}

-- A new account, whose name and user id are not taken.
pub IsUsers-append :
    (us : List Account) (u : Account)
    → IsUsers us
    → length us < user_max
    → u.active ≡ true
    → ((i : ℕ) → i < length us → (account_at us i).name ≢ u.name)
    → ((i : ℕ) → i < length us → (account_at us i).uid ≢ u.uid)
    → (is_admin u.role ≡ true → u.name ≡ text_root)
    → IsUsers (us ++ (u ∷ []))
IsUsers-append us u v room a n d r =
    let size = length-append us (u ∷ []) in
    record {
      few = omega (arith, size);
      alive = λ i h. at i (λ w. w.active ≡ true) h (v.alive i) a;
      names = λ i j h l.
          at j (λ w. (account_at (us ++ (u ∷ [])) i).name ≢ w.name) l
            (λ q. rw (low i (omega arith)) (v.names i j h q))
            (rw (low i (omega (arith, size))) (n i (omega (arith, size))));
      uids = λ i j h l.
          at j (λ w. (account_at (us ++ (u ∷ [])) i).uid ≢ w.uid) l
            (λ q. rw (low i (omega arith)) (v.uids i j h q))
            (rw (low i (omega (arith, size))) (d i (omega (arith, size))));
      admins = λ i h. at i (λ w. is_admin w.role ≡ true → w.name ≡ text_root) h (v.admins i) r;
    }
  where
    low : (i : ℕ) → i < length us → account_at (us ++ (u ∷ [])) i ≡ account_at us i
    low i h = account_at-append us u i ∙ ground arith

    last : (i : ℕ) → i ≡ length us → account_at (us ++ (u ∷ [])) i ≡ u
    last i h = account_at-append us u i ∙ ground arith

    at :
        (i : ℕ) (P : Account → Type 0)
        → i < length (us ++ (u ∷ []))
        → (i < length us → P (account_at us i))
        → P u
        → P (account_at (us ++ (u ∷ [])) i)
    at i P h p q = elim (Bool-cases (ltb i (length us))) [
      | inl e ↦ subst P (sym (low i (ground arith))) (p (ground arith))
      | inr e ↦ subst P (sym (last i (ground (arith, length-append us (u ∷ []), h)))) q
    ]

pub IsUsers-without :
    (us : List Account) (k : ℕ) → IsUsers us → k < length us → IsUsers (without k us)
IsUsers-without us k v h =
    let size = length-without us k h in
    let few = v.few in
    record {
      few = omega arith;
      alive = λ i l. rw (account_at-without us k i) (v.alive (old i) (ground (arith, size)));
      names = λ i j a l.
          rw (account_at-without us k i, account_at-without us k j)
            (v.names (old i) (old j) (ground arith) (ground (arith, size)));
      uids = λ i j a l.
          rw (account_at-without us k i, account_at-without us k j)
            (v.uids (old i) (old j) (ground arith) (ground (arith, size)));
      admins = λ i l. rw (account_at-without us k i) (v.admins (old i) (ground (arith, size)));
    }
  where
    old : ℕ → ℕ
    old i = if ltb i k then i else i + 1

-- A change that keeps names and user ids, and makes nobody an administrator.
pub IsUsers-change :
    (us : List Account) (f : Account → Account) (k : ℕ)
    → IsUsers us
    → ((u : Account) → (f u).name ≡ u.name)
    → ((u : Account) → (f u).uid ≡ u.uid)
    → ((u : Account) → (f u).active ≡ u.active)
    → ((u : Account) → is_admin (f u).role ≡ true → is_admin u.role ≡ true)
    → IsUsers (change_account k f us)
IsUsers-change us f k v fn fu fa fr =
    let size = length-change us f k in
    let few = v.few in
    record {
      few = omega arith;
      alive = λ i h. kept (λ w. w.active) fa i ∙ v.alive i (omega arith);
      names = λ i j a l.
          rw (kept (λ w. w.name) fn i, kept (λ w. w.name) fn j) (v.names i j a (omega arith));
      uids = λ i j a l.
          rw (kept (λ w. w.uid) fu i, kept (λ w. w.uid) fu j) (v.uids i j a (omega arith));
      admins = λ i h a. kept (λ w. w.name) fn i ∙ v.admins i (omega arith) (was_admin i a);
    }
  where
    kept :
        {A : Type 0} (g : Account → A)
        → ((u : Account) → g (f u) ≡ g u)
        → (i : ℕ) → g (account_at (change_account k f us) i) ≡ g (account_at us i)
    kept g e i =
        ap g (account_at-change us f k i) ∙ (elim (Bool-cases (ltb i (length us) && i == k)) [
          | inl c ↦ rw c (e (account_at us i))
          | inr c ↦ rw c refl
        ])

    was_admin :
        (i : ℕ)
        → is_admin (account_at (change_account k f us) i).role ≡ true
        → is_admin (account_at us i).role ≡ true
    was_admin i a = elim (Bool-cases (ltb i (length us) && i == k)) [
      | inl c ↦
          let e : account_at (change_account k f us) i ≡ f (account_at us i) =
            account_at-change us f k i ∙ rw c refl in
          fr (account_at us i) (subst (λ w. is_admin w.role ≡ true) e a)
      | inr c ↦
          let e : account_at (change_account k f us) i ≡ account_at us i =
            account_at-change us f k i ∙ rw c refl in
          subst (λ w. is_admin w.role ≡ true) e a
    ]

-- The active accounts with a user id from `uid` on.
abbrev above : List Account → ℕ → ℕ
above [] uid = 0
above (u ∷ us) uid = if u.active && leb uid u.uid then suc (above us uid) else above us uid

above-suc :
    (us : List Account) (uid : ℕ)
    → (above us (uid + 1) ≤ above us uid)
      × (uid_used us uid ≡ true → above us (uid + 1) < above us uid)
unfolding uid_used
above-suc [] uid = ground arith
above-suc (u ∷ us) uid = ground (arith, above-suc us uid)

above-length : (us : List Account) (uid : ℕ) → above us uid ≤ length us
above-length [] uid = omega arith
above-length (u ∷ us) uid = ground (arith, above-length us uid)

free_uid-enough :
    (fuel uid : ℕ) (us : List Account)
    → above us uid < fuel
    → uid + fuel < u32_mod
    → (r : ℕ) × (free_uid fuel uid us ≡ some r)
      × (uid_used us r ≡ false)
      × (uid ≤ r)
      × (r < uid + fuel)
unfolding free_uid
free_uid-enough zero uid us h w = absurd (omega arith)
free_uid-enough (suc fuel) uid us h w = elim (Bool-cases (uid_used us uid)) [
  | inl e ↦
      let next = (above-suc us uid).1 e in
      let (r, run, free, lo, hi) = free_uid-enough fuel (uid + 1) us (omega arith) (omega arith) in
      let z : (uid + 1) % u32_mod ≡ uid + 1 = omega arith in
      (r, rw (e, z) run, free, omega arith, omega arith)
  | inr e ↦ (uid, rw e refl, e, omega arith, omega arith)
]

-- The search of `next_uid` ends within one round more than there are accounts, in a table of at most
-- `USER_MAX`, with an id that no active account has, and that is not the id of root.
pub next_uid_lem :
    (role : Role) (us : List Account)
    → length us ≤ user_max
    → (uid : ℕ) × (next_uid role us ≡ some uid) × (uid_used us uid ≡ false) × (user_uid_root < uid)
unfolding next_uid
next_uid_lem role us h =
    let base = if is_guest role then user_uid_guest else user_uid_first in
    let (r, run, free, lo, hi) =
      free_uid-enough (suc (length us)) base us (omega (arith, above-length us base))
        (ground arith) in
    (r, run, free, ground (arith, lo))

pub uid_used-none :
    (us : List Account) (uid i : ℕ)
    → uid_used us uid ≡ false
    → i < length us
    → (account_at us i).active ≡ true
    → (account_at us i).uid ≢ uid
unfolding uid_used
uid_used-none [] uid i h l a = absurd (omega arith)
uid_used-none (u ∷ us) uid zero h l a = ground arith
uid_used-none (u ∷ us) uid (suc i) h l a =
    uid_used-none us uid i (ground (arith, h)) (omega arith) a
