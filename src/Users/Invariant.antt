-- ===== src/Users/Invariant.antt =====
-- The tables of accounts of src/users.c that are right.
use atmkoala.Base.{
  ℕ, zero, suc, ◌+◌, ◌-◌, ◌≤◌, ◌<◌, ◌≡◌, ◌≢◌, refl, ap, inl, inr, true, false, ◌==◌, ◌&&◌,
  if◌then◌else◌, ltb, none, some, List, [], ◌∷◌, ◌++◌, length, Bool-cases, arith,
}
use atmkoala.Catfs.Path.{is_same}
use atmkoala.Config.Table.{is_same_refl, is_same→≡}
use atmkoala.Users.{
  user_max, is_admin, Account, text_root, is_named, index_from, index_of, zero_account, account_at,
}
use atmkoala.Users.Ops.{without, change_account}

-- At most `USER_MAX` accounts, all active, with different names and different user ids, and no
-- administrator but root.
pub record IsUsers (us : List Account) : Type 0 where
  pub few : length us ≤ user_max
  pub alive : (i : ℕ) → i < length us → (account_at us i).active ≡ true
  pub names : (i j : ℕ) → i < j → j < length us → (account_at us i).name ≢ (account_at us j).name
  pub uids : (i j : ℕ) → i < j → j < length us → (account_at us i).uid ≢ (account_at us j).uid
  pub admins :
      (i : ℕ)
      → i < length us
      → is_admin (account_at us i).role ≡ true
      → (account_at us i).name ≡ text_root

-- What a search by name has found.
index_from-found :
    (i k : ℕ) (us : List Account) (name : List ℕ)
    → index_from i us name ≡ some k
    → (i ≤ k) × (k < i + length us) × (is_named name (account_at us (k - i)) ≡ true)
unfolding index_from
index_from-found i k [] name h = cc
index_from-found i k (u ∷ us) name h = elim (Bool-cases (is_named name u)) [
  | inl e ↦
      let q : i ≡ k = ground (arith, h, e) in
      let z : k - i ≡ 0 = omega arith in (omega arith, omega arith, rw z e)
  | inr e ↦
      let (lo, hi, hit) = index_from-found (i + 1) k us name (rw e at h) in
      let z : k - i ≡ suc (k - (i + 1)) = omega arith in (omega arith, omega arith, rw z hit)
]

index_from-none :
    (i k : ℕ) (us : List Account) (name : List ℕ)
    → index_from i us name ≡ none
    → k < length us
    → is_named name (account_at us k) ≡ false
unfolding index_from
index_from-none i k [] name h l = absurd (omega arith)
index_from-none i zero (u ∷ us) name h l = elim (Bool-cases (is_named name u)) [
  | inl e ↦ absurd (ground (arith, h, e))
  | inr e ↦ e
]
index_from-none i (suc k) (u ∷ us) name h l = elim (Bool-cases (is_named name u)) [
  | inl e ↦ absurd (ground (arith, h, e))
  | inr e ↦ index_from-none (i + 1) k us name (rw e at h) (omega arith)
]

-- The account that `index_of` finds has the name.
pub index_of-found :
    (us : List Account) (name : List ℕ) (k : ℕ)
    → index_of us name ≡ some k
    → (k < length us) × ((account_at us k).name ≡ name) × ((account_at us k).active ≡ true)
index_of-found us name k h =
    let (lo, hi, hit) = index_from-found 0 k us name h in
    let z : k - 0 ≡ k = omega arith in
    let hit' : is_named name (account_at us k) ≡ true = rw z at hit in
    (
      omega arith,
      is_same→≡ (account_at us k).name name (ground (arith, hit')),
      ground (arith, hit'),
    )

pub index_of-none :
    (us : List Account) (name : List ℕ) (k : ℕ)
    → index_of us name ≡ none
    → k < length us
    → (account_at us k).active ≡ true
    → (account_at us k).name ≢ name
index_of-none us name k h l a e =
    let miss = index_from-none 0 k us name h l in
    let same : is_same (account_at us k).name name ≡ true = rw e (is_same_refl name) in
    ground (arith, miss, a, same)

-- The places of the list after each change.
pub account_at-append :
    (us : List Account) (u : Account) (i : ℕ)
    → account_at (us ++ (u ∷ [])) i
      ≡ (if ltb i (length us) then account_at us i else if i == length us then u else zero_account)
account_at-append [] u zero = refl
account_at-append [] u (suc i) = ground arith
account_at-append (v ∷ us) u zero = ground arith
account_at-append (v ∷ us) u (suc i) = ground (arith, account_at-append us u i)

pub account_at-without :
    (us : List Account) (k i : ℕ)
    → account_at (without k us) i ≡ account_at us (if ltb i k then i else i + 1)
unfolding without
account_at-without [] k i = ground arith
account_at-without (u ∷ us) zero i = let e : i + 1 ≡ suc i = omega arith in rw e (ground arith)
account_at-without (u ∷ us) (suc k) zero = ground arith
account_at-without (u ∷ us) (suc k) (suc i) = ground (arith, account_at-without us k i)

pub length-without :
    (us : List Account) (k : ℕ) → k < length us → suc (length (without k us)) ≡ length us
unfolding without
length-without [] k h = absurd (omega arith)
length-without (u ∷ us) zero h = refl
length-without (u ∷ us) (suc k) h = ap suc (length-without us k (omega arith))

pub account_at-change :
    (us : List Account) (f : Account → Account) (k i : ℕ)
    → account_at (change_account k f us) i
      ≡ (if ltb i (length us) && i == k then f (account_at us i) else account_at us i)
unfolding change_account
account_at-change [] f k i = ground arith
account_at-change (u ∷ us) f zero zero = ground arith
account_at-change (u ∷ us) f zero (suc i) = ground arith
account_at-change (u ∷ us) f (suc k) zero = ground arith
account_at-change (u ∷ us) f (suc k) (suc i) = ground (arith, account_at-change us f k i)

pub length-change :
    (us : List Account) (f : Account → Account) (k : ℕ) → length (change_account k f us) ≡ length us
unfolding change_account
length-change [] f k = refl
length-change (u ∷ us) f zero = refl
length-change (u ∷ us) f (suc k) = ap suc (length-change us f k)
