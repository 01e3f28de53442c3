-- ===== src/Users/Ops.antt =====
-- The operations of src/users.c on the table of accounts.
use atmkoala.Base.{
  ℕ, zero, suc, ◌+◌, ◌-◌, ◌%◌, Bool, true, false, ◌==◌, ◌||◌, not, if◌then◌else◌, ltb, leb, Option,
  none, some, is_some, bytes_of, List, [], ◌∷◌, ◌++◌, length, ℤ, pos, negsuc,
}
use atmkoala.Kernel.{u32_mod}
use atmkoala.Catfs.Path.{is_same}
use atmkoala.Config.{CfgFile, cfg_parse, cfg_serialize, copy_until}
use atmkoala.Users.{
  user_max, user_home_max, user_name_max, user_uid_root, user_uid_first, user_uid_guest, Role,
  is_admin, is_guest, is_operator, Account, Files, State, text_root, text_meta, text_home,
  copy_text, secure_equal, valid_name, index_of, account_at, next_uid,
}
use atmkoala.Users.Sha256.{make_salt, password_hash}
use atmkoala.Users.Load.{load_sections, put, save_accounts}

-- `initialise_account`, with the counter of the salts before it.
unfoldable pub initialise_account :
    (name : List ℕ) (role : Role) (password : List ℕ) (uid counter : ℕ) → Account
initialise_account name role password uid counter =
    let salt = make_salt name uid counter in
    record {
      name = copy_text name (user_name_max + 1);
      uid = uid;
      gid = (if uid == user_uid_root then 0 else uid);
      role = role;
      home =
          (if uid == user_uid_root
            then bytes_of "/root"
            else copy_text text_home (user_home_max + 1) ++ name);
      shell = bytes_of "/bin/sh";
      salt = salt;
      passhash = password_hash password salt;
      active = true;
    }

-- The results of `user_add` and its kin: an error, or that of `user_save`.
abbrev pub failed : ℤ
failed = negsuc 0

-- The list without the account at `i`.
unfoldable pub without : (i : ℕ) → List Account → List Account
without i [] = []
without zero (u ∷ us) = us
without (suc i) (u ∷ us) = u ∷ without i us

-- `g_current` after the account at `idx` is gone.
unfoldable pub moved_current : (idx : ℕ) → List Account → Option ℕ → Option ℕ
moved_current idx us none = none
moved_current idx us (some c) =
    if c == idx then index_of us text_root else if ltb idx c then some (c - 1) else some c

-- A change of the account at `i`.
unfoldable pub change_account : (i : ℕ) → (Account → Account) → List Account → List Account
change_account i f [] = []
change_account zero f (u ∷ us) = f u ∷ us
change_account (suc i) f (u ∷ us) = u ∷ change_account i f us

module _ {V : Type 0} (io : Files V) where
  abbrev pub user_cfg_path : V → List ℕ
  user_cfg_path v =
      if io.is_mounted v
      then bytes_of "/data/uiu/etc/users.conf"
      else bytes_of "/uiu/etc/users.conf"

  -- `cfg_save`
  unfoldable pub cfg_save : CfgFile → (path : List ℕ) → V → ℤ × V
  cfg_save cfg path v =
      let text = cfg_serialize cfg 8192 in
      let r = io.save path text v in
      if length text == 0 then (failed, v) else ((if r.0 then pos 0 else failed), r.1)

  unfoldable pub user_save : State V → ℤ × State V
  user_save s =
      let meta : CfgFile =
        put text_meta (bytes_of "format") (bytes_of "1")
          (record s.cfg { sections = []; dirty = false }) in
      let cfg = save_accounts s.users meta in
      let v1 =
        if io.is_mounted s.files
        then io.mkdir (bytes_of "/data/uiu/etc") 0o755
            (io.mkdir (bytes_of "/data/uiu") 0o755 s.files)
        else s.files in
      let r = cfg_save cfg (user_cfg_path v1) v1 in (r.0, record s { cfg = cfg; files = r.1 })

  -- `cfg_load` on `g_usercfg`; a file that cannot be read or is empty changes nothing.
  unfoldable pub cfg_load : (path : List ℕ) → V → CfgFile → CfgFile
  cfg_load path v cfg = elim (io.load path v) [
    | none ↦ cfg
    | some text ↦
        if length text == 0
        then cfg
        else (let r = cfg_parse (copy_until 8191 (λ c. c == 0) text).0 path in
            record r { overrun = cfg.overrun || r.overrun })
  ]

  -- `initialise_account(&g_users[g_user_count++], ...)`, and the counter of the salts.
  unfoldable pub append_account :
      (name : List ℕ) (role : Role) (password : List ℕ) (uid : ℕ) → State V → State V
  append_account name role password uid s = record s {
    users = s.users ++ (initialise_account name role password uid s.salt_counter ∷ []);
    salt_counter = (s.salt_counter + 1) % u32_mod;
  }

  -- `if (index_of(name)<0 && g_user_count<USER_MAX) ...`
  unfoldable pub ensure_account : (name : List ℕ) (role : Role) (uid : ℕ) → State V → State V
  ensure_account name role uid s =
      if is_some (index_of s.users name) || leb user_max (length s.users)
      then s
      else append_account name role (bytes_of "atmkoala") uid s

  -- `g_current = i; vfs_set_credentials(...)`
  unfoldable pub become : ℕ → State V → State V
  become i s =
      let u = account_at s.users i in
      record s { current = some i; files = io.set_credentials u.uid u.gid s.files }

  -- `user_init` once the accounts are loaded.
  unfoldable pub finish_init : State V → ℤ × State V
  finish_init s1 =
      let s2 = ensure_account (bytes_of "guest") Role.guest user_uid_guest (
        ensure_account (bytes_of "user") Role.user user_uid_first
          (ensure_account text_root Role.admin user_uid_root s1)) in
      let s3 = (user_save s2).1 in
      (elim (index_of s3.users text_root) [ none ↦ (failed, s3) | some i ↦ (pos 0, become i s3) ])

  unfoldable pub user_init : (stray : Role) → State V → ℤ × State V
  user_init stray s =
      let cfg =
        if io.is_mounted s.files then cfg_load (user_cfg_path s.files) s.files s.cfg else s.cfg in
      finish_init
        (record s { users = load_sections stray cfg cfg.sections []; current = none; cfg = cfg })

  -- The home directory of a new account.
  unfoldable pub make_home : Account → V → V
  make_home u v =
      if is_guest u.role
      then v
      else io.chmod u.home 0o750 (io.chown u.home u.uid u.gid (io.mkdir u.home 0o750 v))

  -- Nothing is a search for a user id without end.
  unfoldable pub user_add :
      (name : List ℕ) (role : Role) (password : List ℕ) → State V → Option (ℤ × State V)
  user_add name role password s =
      if not (valid_name name) || ltb (length password) 4
      then some (failed, s)
      else if leb user_max (length s.users) || is_some (index_of s.users name)
      then some (failed, s)
      else if is_admin role
      then some (failed, s)
      else (elim (next_uid role s.users) [
        | none ↦ none
        | some uid ↦
            let s1 = append_account name role password uid s in
            let u = account_at s1.users (length s.users) in
            some (user_save (record s1 { files = make_home u s1.files }))
      ])

  unfoldable pub user_del : (name : List ℕ) → State V → ℤ × State V
  user_del name s = elim (index_of s.users name) [
    | none ↦ (failed, s)
    | some idx ↦
        let us = without idx s.users in
        if is_same name text_root
        then (failed, s)
        else user_save (record s { users = us; current = moved_current idx us s.current })
  ]

  unfoldable pub user_set_password : (name password : List ℕ) → State V → ℤ × State V
  user_set_password name password s = elim (index_of s.users name) [
    | none ↦ (failed, s)
    | some i ↦
        let salt = make_salt name (account_at s.users i).uid s.salt_counter in
        let renewed : Account → Account =
          λ u. record u { salt = salt; passhash = password_hash password salt } in
        if ltb (length password) 4
        then (failed, s)
        else user_save (record s {
          users = change_account i renewed s.users;
          salt_counter = (s.salt_counter + 1) % u32_mod;
        })
  ]

  unfoldable pub user_set_role : (name : List ℕ) → Role → State V → ℤ × State V
  user_set_role name role s = elim (index_of s.users name) [
    | none ↦ (failed, s)
    | some i ↦
        let changed : Account → Account = λ u. record u { role = role } in
        if is_same name text_root || is_admin role
        then (failed, s)
        else user_save (record s { users = change_account i changed s.users })
  ]

  unfoldable pub user_auth : (name password : List ℕ) → State V → Bool
  user_auth name password s = elim (index_of s.users name) [
    | none ↦ false
    | some i ↦
        let u = account_at s.users i in
        if not u.active then false else secure_equal (password_hash password u.salt) u.passhash
  ]

  unfoldable pub user_login : (name password : List ℕ) → State V → ℤ × State V
  user_login name password s = elim (index_of s.users name) [
    | none ↦ (failed, s)
    | some i ↦ if not (user_auth name password s) then (failed, s) else (pos 0, become i s)
  ]

  unfoldable pub user_logout : State V → State V
  user_logout s = elim (index_of s.users (bytes_of "guest")) [ none ↦ s | some i ↦ become i s ]

  unfoldable pub user_current : State V → Option Account
  user_current s = elim s.current [
    | none ↦ none
    | some i ↦ if ltb i (length s.users) then some (account_at s.users i) else none
  ]

  unfoldable pub user_is_admin : State V → Bool
  user_is_admin s = elim (user_current s) [ none ↦ false | some u ↦ is_admin u.role ]

  unfoldable pub user_can_sudo : State V → Bool
  user_can_sudo s = elim (user_current s) [
    | none ↦ false
    | some u ↦ is_admin u.role || is_operator u.role
  ]
