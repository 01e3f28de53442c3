-- ===== src/Users/Tests.antt =====
-- Accounts for the theorems on src/users.c.
use atmkoala.Base.{
  ℕ, ◌<◌, ◌≡◌, refl, true, false, none, some, List, [], ◌∷◌, ◌++◌, pos, bytes_of, arith, ap, length,
  inl, inr, ◌⊎◌, Bool-cases, ◌==◌,
}
use atmkoala.Catfs.Path.{is_same}
use atmkoala.Config.{
  CfgFile, get_in, find_pair, cfg_set, set_in, set_pair, cfg_serialize, serialize_sections,
  serialize_pairs, header_text, pair_text, cfg_parse, parse_loop, copy_until, parse_round,
  skip_until, parse_header, parse_pair, copy_key, parse_value, trim_end,
}
use atmkoala.Users.{
  Role, Account, Files, State, text_root, zero_account, index_from, next_uid, uid_used,
  user_uid_root, user_parse_role, user_role_name, is_admin, account_at,
}
use mathlib.Core.Path.{subst}
use atmkoala.Users.Load.{save_accounts, save_account, kuitoa, digits_of}
use atmkoala.Users.Ops.{
  cfg_load, cfg_save, user_save, failed, become, user_init, user_del, user_login, user_current,
  user_is_admin,
}
use atmkoala.Users.Invariant.{IsUsers}
use atmkoala.Users.Keep.{next_uid_lem}
use atmkoala.Users.Reach.{deletes, start, later, Reach-IsUsers}
use atmkoala.Users.Login.{IsAccepted, user_login_lem, user_del_lem}
use atmkoala.Users.Reload.{bootstrap_accounts, user_init_lem}
use atmkoala.Users.Sha256.{
  sha256_init, sha256_update, sha256_final, hex_text, password_hash, update_loop, sha256_block,
  extend_words, load_words, sha256_rounds, sha256_round, rotr32,
}
use atmkoala.Users.Sha256.Stream.{password_hash_lem}

-- The digest of "abc".
abc_digest :
    hex_text (sha256_final (sha256_update (bytes_of "abc") sha256_init))
    ≡ bytes_of "ba7816bf8f01cfea414140de5dae2223b00361a396177a9cb410ff61f20015ad"
unfolding sha256_update update_loop sha256_final sha256_block extend_words load_words sha256_rounds
    sha256_round rotr32
abc_digest = refl

-- A file system that keeps nothing, and whose file cannot be read.
abbrev test_files : Files ℕ
test_files = record {
  is_mounted = λ v. false;
  set_credentials = λ uid gid v. uid;
  mkdir = λ path mode v. v;
  chown = λ path uid gid v. v;
  chmod = λ path mode v. v;
  load = λ path v. none;
  save = λ path bytes v. (true, v);
}

abbrev root_account : Account
root_account = record zero_account { name = text_root; role = Role.admin; active = true }

abbrev operator_account : Account
operator_account = record zero_account {
  name = bytes_of "ops";
  uid = 1000;
  role = Role.operator;
  active = true;
}

-- The two accounts, root with this digest.
abbrev users_with : List ℕ → List Account
users_with hash = record root_account { passhash = hash } ∷ operator_account ∷ []

abbrev test_users : List Account
test_users = users_with []

-- The account in the file.
abbrev test_cfg : CfgFile
test_cfg = record {
  sections =
      record {
        name = bytes_of "anna";
        entries = record { key = bytes_of "role"; val = bytes_of "user" } ∷ [];
      }
      ∷ [];
  path = [];
  dirty = false;
  overrun = false;
}

-- The operator is logged in.
abbrev test_state : State ℕ
test_state = record {
  users = test_users;
  current = some 1;
  salt_counter = 1;
  cfg = test_cfg;
  files = 1000;
}

users_with-IsUsers : (hash : List ℕ) → IsUsers (users_with hash)
users_with-IsUsers hash = record {
  few = omega arith;
  alive = λ i h. ground arith;
  names = λ i j a h.
      let p : i ≡ 0 = omega arith in
      let q : j ≡ 1 = omega arith in rw (p, q) (λ e. absurd (omega (arith, ap length e)));
  uids = λ i j a h.
      let p : i ≡ 0 = omega arith in let q : j ≡ 1 = omega arith in rw (p, q) (omega arith);
  admins = λ i h a. elim (Bool-cases (i == 0)) [
    | inl e ↦ let p : i ≡ 0 = ground arith in rw p refl
    | inr e ↦
        let p : i ≡ 1 = ground arith in
        absurd
          (ground (arith, subst (λ j. is_admin (account_at (users_with hash) j).role ≡ true) p a))
  ];
}

test_users-IsUsers : IsUsers test_users
test_users-IsUsers = users_with-IsUsers []

-- root has the password "atmkoala".
abbrev login_state : State ℕ
login_state = record test_state { users = users_with (password_hash (bytes_of "atmkoala") []) }

login_state-IsAccepted : IsAccepted text_root (bytes_of "atmkoala") login_state 0
unfolding index_from is_same
login_state-IsAccepted = record { account = refl; digest = λ j lt. refl }

Reach-IsUsers_example : IsUsers (user_del test_files (bytes_of "ops") test_state).1.users
Reach-IsUsers_example =
    Reach-IsUsers test_files test_users-IsUsers (later start (deletes (bytes_of "ops")))

user_login_lem_example :
    ((i : ℕ) × IsAccepted text_root (bytes_of "atmkoala") login_state i
      × (user_login test_files text_root (bytes_of "atmkoala") login_state
          ≡ (pos 0, become test_files i login_state))
      × (user_current test_files (become test_files i login_state)
          ≡ some (account_at login_state.users i))
      × ((become test_files i login_state).files ≡ (account_at login_state.users i).uid)
      × (user_is_admin test_files (become test_files i login_state) ≡ true → text_root ≡ text_root))
    ⊎ (((i : ℕ) → ¬ IsAccepted text_root (bytes_of "atmkoala") login_state i)
        × (user_login test_files text_root (bytes_of "atmkoala") login_state
            ≡ (failed, login_state)))
user_login_lem_example =
    user_login_lem test_files text_root (bytes_of "atmkoala") login_state
      (users_with-IsUsers (password_hash (bytes_of "atmkoala") []))

user_del_lem_example :
    user_is_admin test_files (user_del test_files (bytes_of "ops") test_state).1 ≡ true
unfolding index_from is_same
user_del_lem_example =
    user_del_lem test_files (bytes_of "ops") test_state 1 0 test_users-IsUsers refl refl refl refl
      refl

-- A mounted file system that is one file.
abbrev one_file : Files (List ℕ)
one_file = record {
  is_mounted = λ v. true;
  set_credentials = λ uid gid v. v;
  mkdir = λ path mode v. v;
  chown = λ path uid gid v. v;
  chmod = λ path mode v. v;
  load = λ path v. some v;
  save = λ path bytes v. (true, bytes);
}

-- The table of root and the operator is in the file.
abbrev saved_state : State (List ℕ)
saved_state =
    (user_save one_file (record {
      users = test_users;
      current = some 1;
      salt_counter = 1;
      cfg = test_cfg;
      files = [];
    })).1

user_init_lem_example :
    ((user_init one_file Role.guest saved_state).0 ≡ pos 0)
    × ((user_init one_file Role.guest saved_state).1.users ≡ bootstrap_accounts 1)
    × ((user_init one_file Role.guest saved_state).1.current ≡ some 0)
unfolding get_in find_pair is_same user_parse_role user_save save_accounts save_account cfg_set
    set_in set_pair kuitoa digits_of user_role_name cfg_load cfg_save cfg_serialize
    serialize_sections serialize_pairs header_text pair_text cfg_parse parse_loop copy_until
    parse_round skip_until parse_header parse_pair copy_key parse_value trim_end
user_init_lem_example =
    user_init_lem one_file Role.guest saved_state
      (refl {a = true}, (refl {a = true}, (refl {a = true}, tt)))

next_uid_lem_example :
    (uid : ℕ) × (next_uid Role.operator test_users ≡ some uid)
    × (uid_used test_users uid ≡ false)
    × (user_uid_root < uid)
next_uid_lem_example = next_uid_lem Role.operator test_users (omega arith)

password_hash_lem_example :
    password_hash (bytes_of "atmkoala") (bytes_of "0123abcd")
    ≡ hex_text (
        sha256_final
          (sha256_update (bytes_of "0123abcd" ++ (58 ∷ bytes_of "atmkoala")) sha256_init))
password_hash_lem_example = password_hash_lem (bytes_of "atmkoala") (bytes_of "0123abcd")
