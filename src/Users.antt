-- ===== src/Users.antt =====
-- The accounts of src/users.c and src/users.h. The table is the list of the accounts in use, a string the
-- list of its bytes, and a pointer to a string is never null. The calls of src/vfs.c and
-- src/catfs_vfs.c are the operations of `Files`.
pub mod Sha256
pub mod Invariant
pub mod Keep
pub mod Load
pub mod Ops
pub mod Reach
pub mod Equal
pub mod Login
pub mod Reload
mod Tests
use Prim.Native.Nat.{bit_or, bit_xor}
use atmkoala.Base.{
  ℕ, zero, suc, ◌+◌, ◌-◌, ◌*◌, ◌%◌, Bool, true, false, ◌==◌, ◌&&◌, ◌||◌, not, if◌then◌else◌, ltb,
  leb, Option, none, some, is_some, bytes_of, List, [], ◌∷◌, ◌++◌, length, take, drop, get_or, ℤ,
  pos, negsuc, is_neg,
}
use atmkoala.Kernel.{u32_mod}
use atmkoala.Catfs.Path.{is_same}
use atmkoala.Config.{Section, CfgFile, cfg_get, cfg_set, cfg_parse, cfg_serialize}
use atmkoala.Users.Sha256.{make_salt, password_hash}

abbrev pub user_max : ℕ
user_max = 15

abbrev pub user_name_max : ℕ
user_name_max = 31

abbrev pub user_home_max : ℕ
user_home_max = 95

abbrev pub user_shell_max : ℕ
user_shell_max = 31

abbrev pub user_uid_root : ℕ
user_uid_root = 0

abbrev pub user_uid_first : ℕ
user_uid_first = 1000

abbrev pub user_uid_guest : ℕ
user_uid_guest = 2000

-- `user_role_t`
pub data Role : Type 0 where
  guest user operator admin : Role

abbrev pub is_admin : Role → Bool
is_admin Role.admin = true
is_admin _ = false

abbrev pub is_guest : Role → Bool
is_guest Role.guest = true
is_guest _ = false

abbrev pub is_operator : Role → Bool
is_operator Role.operator = true
is_operator _ = false

-- `user_account_t`
pub record Account : Type 0 where
  pub name : List ℕ
  pub uid : ℕ
  pub gid : ℕ
  pub role : Role
  pub home : List ℕ
  pub shell : List ℕ
  pub salt : List ℕ
  pub passhash : List ℕ
  pub active : Bool

-- The calls of the file system: its credentials, directories, and whole files.
pub record Files (V : Type 0) : Type 0 where
  pub is_mounted : V → Bool
  pub set_credentials : (uid gid : ℕ) → V → V
  pub mkdir : (path : List ℕ) → (mode : ℕ) → V → V
  pub chown : (path : List ℕ) → (uid gid : ℕ) → V → V
  pub chmod : (path : List ℕ) → (mode : ℕ) → V → V
  pub load : (path : List ℕ) → V → Option (List ℕ)
  pub save : (path bytes : List ℕ) → V → Bool × V

-- The globals of the file, `g_usercfg`, and the file system.
pub record State (V : Type 0) : Type 0 where
  pub users : List Account
  pub current : Option ℕ
  pub salt_counter : ℕ
  pub cfg : CfgFile
  pub files : V

abbrev pub text_root : List ℕ
text_root = bytes_of "root"

abbrev pub text_meta : List ℕ
text_meta = bytes_of "meta"

abbrev pub text_home : List ℕ
text_home = bytes_of "/home/"

-- `copy_text(dst, src, cap)`
abbrev pub copy_text : List ℕ → (cap : ℕ) → List ℕ
copy_text src cap = take (cap - 1) src

-- The loop of `secure_equal` from the index `i`.
unfoldable pub diff_from : (n i : ℕ) → (a b : List ℕ) → (diff : ℕ) → ℕ
diff_from zero i a b diff = diff
diff_from (suc n) i a b diff =
    diff_from n (i + 1) a b (bit_or diff (bit_xor (get_or a i 0) (get_or b i 0)))

unfoldable pub secure_equal : (a b : List ℕ) → Bool
secure_equal a b = diff_from 64 0 a b 0 == 0

abbrev pub is_letter : ℕ → Bool
is_letter c = (leb b'a' c && leb c b'z') || (leb b'A' c && leb c b'Z')

abbrev pub is_name_char : ℕ → Bool
is_name_char c = is_letter c || (leb b'0' c && leb c b'9') || c == b'_' || c == b'-'

-- The loop of `valid_name` behind `n` bytes.
unfoldable pub valid_from : (n : ℕ) → List ℕ → Bool
valid_from n [] = true
valid_from n (c ∷ cs) =
    let rest = valid_from (n + 1) cs in
    if not (is_name_char c) then false else if ltb user_name_max (n + 1) then false else rest

unfoldable pub valid_name : List ℕ → Bool
valid_name [] = false
valid_name (c ∷ cs) = if not (is_letter c) then false else valid_from 0 (c ∷ cs)

abbrev pub is_named : List ℕ → Account → Bool
is_named name u = u.active && is_same u.name name

unfoldable pub index_from : (i : ℕ) → List Account → (name : List ℕ) → Option ℕ
index_from i [] name = none
index_from i (u ∷ us) name =
    let rest = index_from (i + 1) us name in if is_named name u then some i else rest

abbrev pub index_of : List Account → (name : List ℕ) → Option ℕ
index_of us name = index_from 0 us name

abbrev pub zero_account : Account
zero_account = record {
  name = [];
  uid = 0;
  gid = 0;
  role = Role.guest;
  home = [];
  shell = [];
  salt = [];
  passhash = [];
  active = false;
}

-- `g_users[i]`
abbrev pub account_at : List Account → ℕ → Account
account_at us i = get_or us i zero_account

unfoldable pub uid_used : List Account → ℕ → Bool
uid_used [] uid = false
uid_used (u ∷ us) uid = let rest = uid_used us uid in (u.active && u.uid == uid) || rest

-- The loop of `next_uid`, which has no bound in the source: `none` is a loop without end.
unfoldable pub free_uid : (fuel uid : ℕ) → List Account → Option ℕ
free_uid zero uid us = none
free_uid (suc fuel) uid us =
    let rest = free_uid fuel ((uid + 1) % u32_mod) us in
    if not (uid_used us uid) then some uid else rest

unfoldable pub next_uid : Role → List Account → Option ℕ
next_uid role us =
    free_uid (suc (length us)) (if is_guest role then user_uid_guest else user_uid_first) us

unfoldable pub user_role_name : Role → List ℕ
user_role_name Role.guest = bytes_of "guest"
user_role_name Role.user = bytes_of "user"
user_role_name Role.operator = bytes_of "operator"
user_role_name Role.admin = bytes_of "admin"

-- Nothing is the return value -1, where the result is not written.
unfoldable pub user_parse_role : List ℕ → Option Role
user_parse_role name =
    if is_same name (bytes_of "guest")
    then some Role.guest
    else if is_same name (bytes_of "user")
    then some Role.user
    else if is_same name (bytes_of "operator")
    then some Role.operator
    else if is_same name (bytes_of "admin") || is_same name (bytes_of "root")
    then some Role.admin
    else none
