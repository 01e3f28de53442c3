-- ===== src/Users/Reach.antt =====
-- The states that the calls of src/users.c lead to.
use atmkoala.Base.{
  ℕ, zero, suc, ◌+◌, ◌≤◌, ◌<◌, ◌≡◌, refl, ap, sym, ◌∙◌, inl, inr, true, false, ◌||◌, not, ltb, leb,
  none, some, is_some, List, [], ◌∷◌, ◌++◌, length, take, Bool-cases, Option-cases, arith, ℤ,
}
use mathlib.Core.Path.{subst}
use atmkoala.Catfs.Path.{is_same}
use atmkoala.Users.{
  user_max, user_name_max, Role, is_admin, Files, State, text_root, copy_text, valid_from,
  valid_name, index_of, account_at, next_uid, uid_used,
}
use atmkoala.Users.Ops.{
  initialise_account, without, moved_current, failed, user_save, append_account, become, make_home,
  user_add, user_del, user_set_password, user_set_role, user_login, user_logout,
}
use atmkoala.Users.Invariant.{IsUsers, index_of-found, index_of-none}
use atmkoala.Users.Keep.{
  IsUsers-append, IsUsers-without, IsUsers-change, next_uid_lem, uid_used-none,
}

-- A valid name is not cut when it is stored.
valid_from-length :
    (n : ℕ) (cs : List ℕ)
    → valid_from n cs ≡ true
    → n ≤ user_name_max
    → n + length cs ≤ user_name_max
unfolding valid_from
valid_from-length n [] h l = omega arith
valid_from-length n (c ∷ cs) h l =
    let g : (valid_from (n + 1) cs ≡ true) × (n + 1 ≤ user_name_max) = ground (arith, h) in
    omega (arith, valid_from-length (n + 1) cs g.0 g.1)

take-all : (n : ℕ) (xs : List ℕ) → length xs ≤ n → take n xs ≡ xs
take-all zero [] h = refl
take-all zero (x ∷ xs) h = absurd (omega arith)
take-all (suc n) [] h = refl
take-all (suc n) (x ∷ xs) h = ap (λ r. x ∷ r) (take-all n xs (omega arith))

copy_name : (name : List ℕ) → valid_name name ≡ true → copy_text name (user_name_max + 1) ≡ name
unfolding valid_name
copy_name [] h = refl
copy_name (c ∷ cs) h =
    let g : valid_from 0 (c ∷ cs) ≡ true = ground (arith, h) in
    take-all user_name_max (c ∷ cs) (omega (arith, valid_from-length 0 (c ∷ cs) g (omega arith)))

module _ {V : Type 0} (io : Files V) where
  user_save-users : (s : State V) → (user_save io s).1.users ≡ s.users
  unfolding user_save
  user_save-users s = refl

  -- Saving leaves the table as it is.
  save-IsUsers : (s : State V) → IsUsers s.users → IsUsers (user_save io s).1.users
  save-IsUsers s v = rw (user_save-users s) v

  append_account-users :
      (name : List ℕ) (role : Role) (password : List ℕ) (uid : ℕ) (s : State V)
      → (append_account io name role password uid s).users
        ≡ s.users ++ (initialise_account name role password uid s.salt_counter ∷ [])
  unfolding append_account
  append_account-users name role password uid s = refl

  append_account-IsUsers :
      (name : List ℕ) (role : Role) (password : List ℕ) (uid : ℕ) (s : State V)
      → IsUsers s.users
      → valid_name name ≡ true
      → length s.users < user_max
      → index_of s.users name ≡ none
      → uid_used s.users uid ≡ false
      → is_admin role ≡ false
      → IsUsers (append_account io name role password uid s).users
  unfolding initialise_account
  append_account-IsUsers name role password uid s v ok room new free plain =
      rw (append_account-users name role password uid s) (
        IsUsers-append s.users (initialise_account name role password uid s.salt_counter) v room
          refl (λ i h. rw (copy_name name ok) (index_of-none s.users name i new h (v.alive i h)))
          (λ i h. uid_used-none s.users uid i free h (v.alive i h))
          (λ a. absurd (ground (arith, a, plain))))

  -- The last part of `user_add`.
  added :
      (name : List ℕ) (role : Role) (password : List ℕ) (s : State V)
      → IsUsers s.users
      → valid_name name ≡ true
      → length s.users < user_max
      → index_of s.users name ≡ none
      → is_admin role ≡ false
      → (r : ℤ × State V) × ((elim (next_uid role s.users) [
        | none ↦ none
        | some uid ↦
            let s1 = append_account io name role password uid s in
            let u = account_at s1.users (length s.users) in
            some (user_save io (record s1 { files = make_home io u s1.files }))
      ])
          ≡ some r)
        × IsUsers r.1.users
  added name role password s v ok room new plain =
      let few = v.few in
      let (uid, run, free, up) = next_uid_lem role s.users few in
      let s1 = append_account io name role password uid s in
      let s2 : State V = record s1 {
        files = make_home io (account_at s1.users (length s.users)) s1.files;
      } in
      (
        user_save io s2,
        rw run refl,
        save-IsUsers s2 (append_account-IsUsers name role password uid s v ok room new free plain),
      )

  -- `user_add` returns, and leaves a right table.
  pub user_add-IsUsers :
      (name : List ℕ) (role : Role) (password : List ℕ) (s : State V)
      → IsUsers s.users
      → (r : ℤ × State V) × (user_add io name role password s ≡ some r) × IsUsers r.1.users
  unfolding user_add
  user_add-IsUsers name role password s v =
      elim (Bool-cases (not (valid_name name) || ltb (length password) 4)) [
        | inl bad ↦ ((failed, s), rw bad refl, v)
        | inr good ↦
            elim (Bool-cases (leb user_max (length s.users) || is_some (index_of s.users name))) [
              | inl full ↦ ((failed, s), rw (good, full) refl, v)
              | inr room ↦ elim (Bool-cases (is_admin role)) [
                | inl adm ↦ ((failed, s), rw (good, room, adm) refl, v)
                | inr plain ↦
                    let ok =
                      added name role password s v (ground (arith, good)) (ground (arith, room))
                        (ground (arith, room)) plain in
                    (ok.0, rw (good, room, plain, ok.1) refl, ok.2)
              ]
            ]
      ]

  pub user_del-IsUsers :
      (name : List ℕ) (s : State V) → IsUsers s.users → IsUsers (user_del io name s).1.users
  unfolding user_del
  user_del-IsUsers name s v = elim (Option-cases (index_of s.users name)) [
    | inl e ↦ rw (e, user_del) v
    | inr (i, e) ↦ elim (Bool-cases (is_same name text_root)) [
      | inl q ↦ rw (e, q, user_del) v
      | inr q ↦
          rw (e, q, user_del)
            (save-IsUsers
              (record s {
                users = without i s.users;
                current = moved_current i (without i s.users) s.current;
              })
              (IsUsers-without s.users i v (index_of-found s.users name i e).0))
    ]
  ]

  pub user_set_password-IsUsers :
      (name password : List ℕ) (s : State V)
      → IsUsers s.users
      → IsUsers (user_set_password io name password s).1.users
  unfolding user_set_password
  user_set_password-IsUsers name password s v = elim (Option-cases (index_of s.users name)) [
    | inl e ↦ rw (e, user_set_password) v
    | inr (i, e) ↦ elim (Bool-cases (ltb (length password) 4)) [
      | inl q ↦ rw (e, q, user_set_password) v
      | inr q ↦
          rw (e, q, user_set_password, user_save-users)
            (IsUsers-change s.users _ i v (λ u. refl) (λ u. refl) (λ u. refl) (λ u a. a))
    ]
  ]

  pub user_set_role-IsUsers :
      (name : List ℕ) (role : Role) (s : State V)
      → IsUsers s.users
      → IsUsers (user_set_role io name role s).1.users
  unfolding user_set_role
  user_set_role-IsUsers name role s v = elim (Option-cases (index_of s.users name)) [
    | inl e ↦ rw (e, user_set_role) v
    | inr (i, e) ↦ elim (Bool-cases (is_same name text_root || is_admin role)) [
      | inl q ↦ rw (e, q, user_set_role) v
      | inr q ↦
          rw (e, q, user_set_role, user_save-users)
            (IsUsers-change s.users _ i v (λ u. refl) (λ u. refl) (λ u. refl)
              (λ u a. absurd (ground (arith, a, q))))
    ]
  ]

-- One call that changes the accounts or the session.
pub data Step {V : Type 0} (io : Files V) (s : State V) : State V → Type 0 where
  adds :
      (name : List ℕ) (role : Role) (password : List ℕ) {r : ℤ × State V}
      → user_add io name role password s ≡ some r
      → Step io s r.1
  deletes : (name : List ℕ) → Step io s (user_del io name s).1
  sets_password : (name password : List ℕ) → Step io s (user_set_password io name password s).1
  sets_role : (name : List ℕ) (role : Role) → Step io s (user_set_role io name role s).1
  logs_in : (name password : List ℕ) → Step io s (user_login io name password s).1
  logs_out : Step io s (user_logout io s)

pub data Reach {V : Type 0} (io : Files V) (first : State V) : State V → Type 0 where
  start : Reach io first first
  later : {s t : State V} → Reach io first s → Step io s t → Reach io first t

module _ {V : Type 0} (io : Files V) where
  user_login-users :
      (name password : List ℕ) (s : State V) → (user_login io name password s).1.users ≡ s.users
  unfolding user_login become
  user_login-users name password s = ground arith

  user_logout-users : (s : State V) → (user_logout io s).users ≡ s.users
  unfolding user_logout become
  user_logout-users s = ground arith

  Step-IsUsers : {s t : State V} → Step io s t → IsUsers s.users → IsUsers t.users
  Step-IsUsers {s} (adds name role password {r} e) v =
      let (q, run, ok) = user_add-IsUsers io name role password s v in
      let same : q ≡ r = ground (arith, sym run ∙ e) in subst (λ z. IsUsers z.1.users) same ok
  Step-IsUsers {s} (deletes name) v = user_del-IsUsers io name s v
  Step-IsUsers {s} (sets_password name password) v = user_set_password-IsUsers io name password s v
  Step-IsUsers {s} (sets_role name role) v = user_set_role-IsUsers io name role s v
  Step-IsUsers {s} (logs_in name password) v = rw (user_login-users name password s) v
  Step-IsUsers {s} logs_out v = rw (user_logout-users s) v

  -- From a state whose table is right, every sequence of calls of `user_add`, `user_del`,
  -- `user_set_password`, `user_set_role`, `user_login` and `user_logout` leads to a right table: at most
  -- 15 accounts, all active, with different names and user ids, and no administrator but root.
  pub Reach-IsUsers : {first s : State V} → IsUsers first.users → Reach io first s → IsUsers s.users
  Reach-IsUsers v start = v
  Reach-IsUsers v (later r step) = Step-IsUsers step (Reach-IsUsers v r)
