-- ===== src/Users/Reload.antt =====
-- What src/users.c makes of the accounts in users.conf.
use atmkoala.Base.{
  ℕ, ◌+◌, ◌%◌, ◌≡◌, refl, sym, inl, inr, Bool, true, false, if◌then◌else◌, none, some, is_some,
  List, [], ◌∷◌, ◌||◌, Bool-cases, arith, pos, bytes_of,
}
use atmkoala.Kernel.{u32_mod}
use atmkoala.Catfs.Path.{is_same}
use atmkoala.Config.{Section, CfgFile, cfg_get}
use atmkoala.Users.{
  user_uid_root, user_uid_first, user_uid_guest, Role, Account, Files, State, text_root, text_meta,
  user_parse_role, index_from,
}
use atmkoala.Users.Load.{or_else, add_loaded, load_sections}
use atmkoala.Users.Ops.{
  initialise_account, user_cfg_path, cfg_load, append_account, ensure_account, become, user_save,
  finish_init, user_init,
}
use mathlib.Core.Path.{subst}

-- The section is "meta", or its role is one of the names that `user_role_name` writes, or "root".
abbrev pub role_known : CfgFile → Section → Bool
role_known cfg s =
    is_same s.name text_meta
    || is_some (user_parse_role (or_else (cfg_get cfg s.name (bytes_of "role")) []))

abbrev pub RolesKnown : CfgFile → List Section → Type 0
RolesKnown cfg [] = Unit {0}
RolesKnown cfg (s ∷ ss) = (role_known cfg s ≡ true) × RolesKnown cfg ss

add_loaded-known :
    (stray : Role) (cfg : CfgFile) (s : Section) (us : List Account)
    → role_known cfg s ≡ true
    → is_same s.name text_meta ≡ false
    → add_loaded stray cfg s us ≡ us
unfolding add_loaded
add_loaded-known stray cfg s us h m = ground (arith, h, m)

load_sections-known :
    (stray : Role) (cfg : CfgFile) (ss : List Section) (us : List Account)
    → RolesKnown cfg ss
    → load_sections stray cfg ss us ≡ us
unfolding load_sections
load_sections-known stray cfg [] us h = refl
load_sections-known stray cfg (s ∷ ss) us (h, hs) = elim (Bool-cases (is_same s.name text_meta)) [
  | inl e ↦ rw e (load_sections-known stray cfg ss us hs)
  | inr e ↦ rw (e, add_loaded-known stray cfg s us h e) (load_sections-known stray cfg ss us hs)
]

-- The accounts of a new system, for the counter of the salts.
abbrev pub bootstrap_accounts : ℕ → List Account
bootstrap_accounts n =
    let password = bytes_of "atmkoala" in
    initialise_account text_root Role.admin password user_uid_root n
    ∷ initialise_account (bytes_of "user") Role.user password user_uid_first ((n + 1) % u32_mod)
    ∷ initialise_account (bytes_of "guest") Role.guest password user_uid_guest
        (((n + 1) % u32_mod + 1) % u32_mod)
    ∷ []

module _ {V : Type 0} (io : Files V) where
  -- `g_usercfg` once `user_init` has read the file.
  abbrev pub read_cfg : State V → CfgFile
  read_cfg s =
      if io.is_mounted s.files then cfg_load io (user_cfg_path io s.files) s.files s.cfg else s.cfg

  finish_init-bootstrap :
      (s : State V) (cfg : CfgFile)
      → let r = finish_init io (record s { users = []; current = none; cfg = cfg }) in
        (r.0 ≡ pos 0) × (r.1.users ≡ bootstrap_accounts s.salt_counter) × (r.1.current ≡ some 0)
  unfolding finish_init ensure_account append_account initialise_account index_from is_same
      user_save become
  finish_init-bootstrap s cfg = (refl, refl, refl)

  -- When every section of users.conf but "meta" has a role that is known, `user_init` takes none of
  -- the accounts of the file: it leaves root, user and guest with the password of a new system, whatever the file
  -- has, and root logged in.
  pub user_init_lem :
      (stray : Role) (s : State V)
      → RolesKnown (read_cfg s) (read_cfg s).sections
      → ((user_init io stray s).0 ≡ pos 0)
        × ((user_init io stray s).1.users ≡ bootstrap_accounts s.salt_counter)
        × ((user_init io stray s).1.current ≡ some 0)
  unfolding user_init
  user_init_lem stray s h =
      let cfg = read_cfg s in
      let e : load_sections stray cfg cfg.sections [] ≡ [] =
        load_sections-known stray cfg cfg.sections [] h in
      subst
        (λ us.
          let r = finish_init io (record s { users = us; current = none; cfg = cfg }) in
          (r.0 ≡ pos 0) × (r.1.users ≡ bootstrap_accounts s.salt_counter) × (r.1.current ≡ some 0))
        (sym e) (finish_init-bootstrap s cfg)
