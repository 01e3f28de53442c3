-- ===== src/Users/Login.antt =====
-- The sessions of src/users.c.
use atmkoala.Base.{
  ℕ, ◌+◌, ◌-◌, ◌<◌, ◌≡◌, ◌≢◌, ◌⊎◌, refl, ap, sym, ◌∙◌, inl, inr, true, false, if◌then◌else◌, ltb,
  some, List, length, Option-cases, Bool-cases, arith, pos,
}
use mathlib.Core.Path.{subst}
use atmkoala.Catfs.Path.{is_same}
use atmkoala.Config.Table.{is_same_refl}
use atmkoala.Users.{is_admin, Account, Files, State, text_root, index_of, account_at, secure_equal}
use atmkoala.Users.Sha256.{password_hash}
use atmkoala.Users.Equal.{SameDigest, secure_equal_lem}
use atmkoala.Users.Ops.{
  without, moved_current, failed, become, user_save, user_del, user_auth, user_login, user_current,
  user_is_admin,
}
use atmkoala.Users.Invariant.{
  IsUsers, index_of-found, index_of-none, account_at-without, length-without,
}

-- root is still found, with its account, once another account is gone.
root_left :
    (us : List Account) (i r : ℕ)
    → IsUsers us
    → i < length us
    → index_of us text_root ≡ some r
    → i ≢ r
    → (k : ℕ) × (index_of (without i us) text_root ≡ some k)
      × (k < length (without i us))
      × (account_at (without i us) k ≡ account_at us r)
root_left us i r v h e ne =
    let us' = without i us in
    let size = length-without us i h in
    let (r_in, r_name, r_alive) = index_of-found us text_root r e in
    let p = if ltb r i then r else r - 1 in
    let back : (if ltb p i then p else p + 1) ≡ r = ground arith in
    let at : account_at us' p ≡ account_at us r =
      account_at-without us i p ∙ ap (account_at us) back in
    elim (Option-cases (index_of us' text_root)) [
      | inl n ↦ absurd (
          index_of-none us' text_root p n (ground (arith, size)) (ap (λ u. u.active) at ∙ r_alive)
            (ap (λ u. u.name) at ∙ r_name))
      | inr (k, f) ↦
          let (k_in, k_name, k_alive) = index_of-found us' text_root k f in
          let o = if ltb k i then k else k + 1 in
          let old : account_at us' k ≡ account_at us o = account_at-without us i k in
          let o_in : o < length us = ground (arith, size) in
          let o_name : (account_at us o).name ≡ (account_at us r).name =
            sym (ap (λ u. u.name) old) ∙ k_name ∙ sym r_name in
          let same : o ≡ r = grind (arith, v.names o r, v.names r o, sym o_name) in
          (k, f, k_in, old ∙ ap (account_at us) same)
    ]

-- The account at `i` has the name, and keeps the digest of the password.
pub record IsAccepted {V : Type 0} (name password : List ℕ) (s : State V) (i : ℕ) : Type 0 where
  pub account : index_of s.users name ≡ some i
  pub digest :
      SameDigest
        (password_hash password (account_at s.users i).salt)
        (account_at s.users i).passhash

module _ {V : Type 0} (io : Files V) where
  -- The session after `become`.
  become-admin :
      (i : ℕ) (s : State V)
      → i < length s.users
      → user_is_admin io (become io i s) ≡ is_admin (account_at s.users i).role
  unfolding user_is_admin user_current become
  become-admin i s h = ground arith

  -- The account of the session after `become`.
  become-current :
      (i : ℕ) (s : State V)
      → i < length s.users
      → user_current io (become io i s) ≡ some (account_at s.users i)
  unfolding user_current become
  become-current i s h = ground arith

  -- What `user_auth` asks of the name and the password.
  auth-digest :
      (name password : List ℕ) (s : State V)
      → user_auth io name password s ≡ true
      → (i : ℕ) × (index_of s.users name ≡ some i)
        × SameDigest
            (password_hash password (account_at s.users i).salt)
            (account_at s.users i).passhash
  unfolding user_auth
  auth-digest name password s h = elim (Option-cases (index_of s.users name)) [
    | inl e ↦ absurd (ground (arith, h, e))
    | inr (i, e) ↦
        let u = account_at s.users i in
        let same : secure_equal (password_hash password u.salt) u.passhash ≡ true =
          ground (arith, h, e) in
        (i, e, (secure_equal_lem (password_hash password u.salt) u.passhash).0 same)
  ]

  digest-auth :
      (name password : List ℕ) (s : State V) (i : ℕ)
      → index_of s.users name ≡ some i
      → (account_at s.users i).active ≡ true
      → SameDigest
          (password_hash password (account_at s.users i).salt)
          (account_at s.users i).passhash
      → user_auth io name password s ≡ true
  unfolding user_auth
  digest-auth name password s i e a d =
      let u = account_at s.users i in
      let same = (secure_equal_lem (password_hash password u.salt) u.passhash).1 d in
      rw (user_auth, e, a, same) refl

  login-accepted :
      (name password : List ℕ) (s : State V) (i : ℕ)
      → index_of s.users name ≡ some i
      → user_auth io name password s ≡ true
      → user_login io name password s ≡ (pos 0, become io i s)
  unfolding user_login
  login-accepted name password s i e h = rw (user_login, e, h) refl

  login-refused :
      (name password : List ℕ) (s : State V)
      → user_auth io name password s ≡ false
      → user_login io name password s ≡ (failed, s)
  unfolding user_login
  login-refused name password s h = ground (arith, h)

  -- `user_login` on a right table. Either the name is an account's and the digest of the password with
  -- the salt of the account has the same 64 bytes as the digest that the account keeps: then the login
  -- returns 0, the session is that account's, the file system has its credentials, and the session is
  -- an administrator's only for the name root. Or there is no such account: then the login returns -1
  -- and nothing changes.
  pub user_login_lem :
      (name password : List ℕ) (s : State V)
      → IsUsers s.users
      → ((i : ℕ) × IsAccepted name password s i
          × (user_login io name password s ≡ (pos 0, become io i s))
          × (user_current io (become io i s) ≡ some (account_at s.users i))
          × ((become io i s).files
              ≡ io.set_credentials (account_at s.users i).uid (account_at s.users i).gid s.files)
          × (user_is_admin io (become io i s) ≡ true → name ≡ text_root))
        ⊎ (((i : ℕ) → ¬ IsAccepted name password s i)
            × (user_login io name password s ≡ (failed, s)))
  unfolding become
  user_login_lem name password s v = elim (Bool-cases (user_auth io name password s)) [
    | inl e ↦
        let (i, found, d) = auth-digest name password s e in
        let (i_in, i_name, i_alive) = index_of-found s.users name i found in
        inl (
          i,
          record { account = found; digest = d },
          login-accepted name password s i found e,
          become-current i s i_in,
          refl,
          λ a. sym i_name ∙ v.admins i i_in (sym (become-admin i s i_in) ∙ a),
        )
    | inr e ↦ inr (
      (λ i r.
          let (i_in, i_name, i_alive) = index_of-found s.users name i r.account in
          ground (arith, e, digest-auth name password s i r.account i_alive r.digest)),
      login-refused name password s e,
    )
  ]

  del-run :
      (name : List ℕ) (s : State V) (i : ℕ)
      → index_of s.users name ≡ some i
      → is_same name text_root ≡ false
      → let us = without i s.users in
        user_del io name s
        ≡ user_save io (record s { users = us; current = moved_current i us s.current })
  unfolding user_del
  del-run name s i e q = rw (user_del, e, q) refl

  save-admin : (s : State V) → user_is_admin io (user_save io s).1 ≡ user_is_admin io s
  unfolding user_is_admin user_current user_save
  save-admin s = refl

  root_session :
      (s : State V) (us : List Account) (k : ℕ)
      → k < length us
      → user_is_admin io (record s { users = us; current = some k })
        ≡ is_admin (account_at us k).role
  unfolding user_is_admin user_current
  root_session s us k h = ground arith

  moved_self : (i : ℕ) (us : List Account) → moved_current i us (some i) ≡ index_of us text_root
  unfolding moved_current
  moved_self i us = ground arith

  -- Deleting the account of the session, other than root, makes the session that of root: on a right
  -- table whose root is an administrator, `user_is_admin` holds afterwards.
  pub user_del_lem :
      (name : List ℕ) (s : State V) (i r : ℕ)
      → IsUsers s.users
      → index_of s.users name ≡ some i
      → s.current ≡ some i
      → is_same name text_root ≡ false
      → index_of s.users text_root ≡ some r
      → is_admin (account_at s.users r).role ≡ true
      → user_is_admin io (user_del io name s).1 ≡ true
  user_del_lem name s i r v e c q er a =
      let (i_in, i_name, i_alive) = index_of-found s.users name i e in
      let (r_in, r_name, r_alive) = index_of-found s.users text_root r er in
      let ne : i ≢ r = λ z.
        let n : name ≡ text_root = sym i_name ∙ ap (λ j. (account_at s.users j).name) z ∙ r_name in
        ground
          (arith, q, subst (λ m. is_same m text_root ≡ true) (sym n) (is_same_refl text_root)) in
      let us = without i s.users in
      let (k, f, k_in, same) = root_left s.users i r v i_in er ne in
      let cur : moved_current i us s.current ≡ some k =
        ap (moved_current i us) c ∙ moved_self i us ∙ f in
      ap (λ z. user_is_admin io z.1) (del-run name s i e q)
      ∙ save-admin (record s { users = us; current = moved_current i us s.current })
      ∙ ap (λ z. user_is_admin io (record s { users = us; current = z })) cur
      ∙ root_session s us k k_in
      ∙ ap (λ u. is_admin u.role) same
      ∙ a
