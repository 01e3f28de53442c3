-- ===== src/Users/Load.antt =====
-- Accounts in users.conf, for src/users.c, with the numbers of src/util.c.
use atmkoala.Base.{
  ℕ, zero, suc, ◌+◌, ◌-◌, ◌*◌, ◌/◌, ◌%◌, Bool, ◌==◌, ◌&&◌, ◌||◌, not, if◌then◌else◌, leb, Option,
  none, some, is_some, bytes_of, List, [], ◌∷◌, ◌++◌, length,
}
use atmkoala.Kernel.{u32_mod}
use atmkoala.Catfs.Path.{is_same}
use atmkoala.Config.{Section, CfgFile, cfg_get, cfg_set}
use atmkoala.Users.{
  user_max, user_home_max, user_shell_max, user_name_max, Role, Account, text_meta, copy_text,
  valid_name, user_role_name, user_parse_role,
}

abbrev pub is_space : ℕ → Bool
is_space c = c == 32 || c == 9 || c == 10 || c == 13

-- `kstrtou(s, 10)` behind the spaces, with the value so far
unfoldable pub digits_value : List ℕ → ℕ → ℕ
digits_value [] n = n
digits_value (c ∷ cs) n =
    let rest = digits_value cs ((n * 10 + (c - b'0')) % u32_mod) in
    if leb b'0' c && leb c b'9' then rest else n

unfoldable pub kstrtou : List ℕ → ℕ
kstrtou [] = 0
kstrtou (c ∷ cs) = let rest = kstrtou cs in if is_space c then rest else digits_value (c ∷ cs) 0

-- The decimal digits of `n` in front of `acc`; 10 rounds are enough for 32 bits.
unfoldable pub digits_of : (fuel n : ℕ) → List ℕ → List ℕ
digits_of zero n acc = acc
digits_of (suc fuel) n acc =
    let rest = digits_of fuel (n / 10) ((b'0' + n % 10) ∷ acc) in if n == 0 then acc else rest

-- `kuitoa(n, buf, 10)`
unfoldable pub kuitoa : ℕ → List ℕ
kuitoa n = if n == 0 then b'0' ∷ [] else digits_of 10 n []

-- The account of a section of users.conf. `parsed` is not initialised in the source: its value is
-- `stray` where `user_parse_role` has not written it.
unfoldable pub loaded_account :
    (stray : Role) (name uid gid role home shell salt hash active : List ℕ) → Account
loaded_account stray name uid gid role home shell salt hash active = record {
  name = copy_text name (user_name_max + 1);
  uid = kstrtou uid;
  gid = kstrtou gid;
  role = stray;
  home = copy_text home (user_home_max + 1);
  shell = copy_text shell (user_shell_max + 1);
  salt = copy_text salt 9;
  passhash = copy_text hash 65;
  active = not (is_same active (bytes_of "0"));
}

abbrev pub or_else : Option (List ℕ) → List ℕ → List ℕ
or_else none d = d
or_else (some v) d = v

-- A field that must be there.
abbrev pub has_field : CfgFile → Section → List ℕ → Bool
has_field cfg s key = is_some (cfg_get cfg s.name key)

unfoldable pub add_loaded : (stray : Role) → CfgFile → Section → List Account → List Account
add_loaded stray cfg s us =
    let field : List ℕ → Option (List ℕ) = cfg_get cfg s.name in
    let text : List ℕ → List ℕ = λ key. or_else (field key) [] in
    let role = text (bytes_of "role") in
    if leb user_max (length us) || not (valid_name s.name)
    then us
    else if not (has_field cfg s (bytes_of "uid"))
        || not (has_field cfg s (bytes_of "gid"))
        || not (has_field cfg s (bytes_of "role"))
        || not (has_field cfg s (bytes_of "salt"))
        || not (has_field cfg s (bytes_of "password"))
        || is_some (user_parse_role role)
        || not (length (text (bytes_of "password")) == 64)
    then us
    else us
      ++ (loaded_account stray s.name (text (bytes_of "uid")) (text (bytes_of "gid")) role
            (or_else (field (bytes_of "home")) (bytes_of "/home"))
            (or_else (field (bytes_of "shell")) (bytes_of "/bin/sh")) (text (bytes_of "salt"))
            (text (bytes_of "password")) (or_else (field (bytes_of "active")) (bytes_of "1"))
          ∷ [])

-- The loop of `user_init` on the sections.
unfoldable pub load_sections : Role → CfgFile → List Section → List Account → List Account
load_sections stray cfg [] us = us
load_sections stray cfg (s ∷ ss) us =
    load_sections stray cfg ss (if is_same s.name text_meta then us else add_loaded stray cfg s us)

-- `cfg_set` on `g_usercfg`, whose result is not used.
abbrev pub put : (name key val : List ℕ) → CfgFile → CfgFile
put name key val cfg = (cfg_set cfg name key val).1

unfoldable pub save_account : Account → CfgFile → CfgFile
save_account u cfg =
    if not u.active
    then cfg
    else put u.name (bytes_of "active") (bytes_of "1") (
        put u.name (bytes_of "password") u.passhash (
          put u.name (bytes_of "salt") u.salt (
            put u.name (bytes_of "shell") u.shell (
              put u.name (bytes_of "home") u.home (
                put u.name (bytes_of "role") (user_role_name u.role) (
                  put u.name (bytes_of "gid") (kuitoa u.gid)
                    (put u.name (bytes_of "uid") (kuitoa u.uid) cfg)))))))

unfoldable pub save_accounts : List Account → CfgFile → CfgFile
save_accounts [] cfg = cfg
save_accounts (u ∷ us) cfg = save_accounts us (save_account u cfg)
