-- ===== src/Users/Sha256.antt =====
-- The SHA-256 of src/users.c, and the salts and the hashes of passwords. A word has 32 bits; arrays
-- that are filled in order are lists.
pub mod Stream
use Prim.Native.Nat.{bit_and, bit_or, bit_xor}
use atmkoala.Base.{
  ℕ, zero, suc, ◌+◌, ◌-◌, ◌*◌, ◌/◌, ◌%◌, ◌^◌, min, Bool, ◌==◌, if◌then◌else◌, ltb, List, [], ◌∷◌,
  ◌++◌, length, take, drop, get_or,
}
use atmkoala.Kernel.{u32_mod, u64_mod}

-- `sha256_ctx_t`; `block` has the `used` bytes.
pub record Sha256 : Type 0 where
  pub state : List ℕ
  pub bits : ℕ
  pub block : List ℕ

abbrev pub sha256_k : List ℕ
sha256_k =
    0x428a2f98 ∷ 0x71374491 ∷ 0xb5c0fbcf ∷ 0xe9b5dba5 ∷ 0x3956c25b ∷ 0x59f111f1 ∷ 0x923f82a4
    ∷ 0xab1c5ed5 ∷ 0xd807aa98 ∷ 0x12835b01 ∷ 0x243185be ∷ 0x550c7dc3 ∷ 0x72be5d74 ∷ 0x80deb1fe
    ∷ 0x9bdc06a7 ∷ 0xc19bf174 ∷ 0xe49b69c1 ∷ 0xefbe4786 ∷ 0x0fc19dc6 ∷ 0x240ca1cc ∷ 0x2de92c6f
    ∷ 0x4a7484aa ∷ 0x5cb0a9dc ∷ 0x76f988da ∷ 0x983e5152 ∷ 0xa831c66d ∷ 0xb00327c8 ∷ 0xbf597fc7
    ∷ 0xc6e00bf3 ∷ 0xd5a79147 ∷ 0x06ca6351 ∷ 0x14292967 ∷ 0x27b70a85 ∷ 0x2e1b2138 ∷ 0x4d2c6dfc
    ∷ 0x53380d13 ∷ 0x650a7354 ∷ 0x766a0abb ∷ 0x81c2c92e ∷ 0x92722c85 ∷ 0xa2bfe8a1 ∷ 0xa81a664b
    ∷ 0xc24b8b70 ∷ 0xc76c51a3 ∷ 0xd192e819 ∷ 0xd6990624 ∷ 0xf40e3585 ∷ 0x106aa070 ∷ 0x19a4c116
    ∷ 0x1e376c08 ∷ 0x2748774c ∷ 0x34b0bcb5 ∷ 0x391c0cb3 ∷ 0x4ed8aa4a ∷ 0x5b9cca4f ∷ 0x682e6ff3
    ∷ 0x748f82ee ∷ 0x78a5636f ∷ 0x84c87814 ∷ 0x8cc70208 ∷ 0x90befffa ∷ 0xa4506ceb ∷ 0xbef9a3f7
    ∷ 0xc67178f2 ∷ []

unfoldable pub rotr32 : ℕ → ℕ → ℕ
rotr32 v n = bit_or (v / 2 ^ n) (v * 2 ^ (32 - n) % u32_mod)

abbrev xor3 : ℕ → ℕ → ℕ → ℕ
xor3 a b c = bit_xor (bit_xor a b) c

-- The first 16 words of the schedule.
unfoldable pub load_words : (n i : ℕ) → List ℕ → List ℕ
load_words zero i p = []
load_words (suc n) i p =
    bit_or
      (bit_or (get_or p (i * 4) 0 * 2 ^ 24 % u32_mod) (get_or p (i * 4 + 1) 0 * 2 ^ 16 % u32_mod))
      (bit_or (get_or p (i * 4 + 2) 0 * 2 ^ 8 % u32_mod) (get_or p (i * 4 + 3) 0))
    ∷ load_words n (i + 1) p

-- The other words, of which `n` are left, behind the words up to the index `i`.
unfoldable pub extend_words : (n i : ℕ) → List ℕ → List ℕ
extend_words zero i w = w
extend_words (suc n) i w =
    let w15 = get_or w (i - 15) 0 in
    let w2 = get_or w (i - 2) 0 in
    let s0 = xor3 (rotr32 w15 7) (rotr32 w15 18) (w15 / 2 ^ 3) in
    let s1 = xor3 (rotr32 w2 17) (rotr32 w2 19) (w2 / 2 ^ 10) in
    extend_words n (i + 1)
      (w ++ ((get_or w (i - 16) 0 + s0 + get_or w (i - 7) 0 + s1) % u32_mod ∷ []))

-- `a` to `h`
pub record Regs : Type 0 where
  pub a : ℕ
  pub b : ℕ
  pub c : ℕ
  pub d : ℕ
  pub e : ℕ
  pub f : ℕ
  pub g : ℕ
  pub h : ℕ

unfoldable pub sha256_round : (k w : ℕ) → Regs → Regs
sha256_round k w r =
    let s1 = xor3 (rotr32 r.e 6) (rotr32 r.e 11) (rotr32 r.e 25) in
    let ch = bit_xor (bit_and r.e r.f) (bit_and (u32_mod - 1 - r.e) r.g) in
    let t1 = (r.h + s1 + ch + k + w) % u32_mod in
    let s0 = xor3 (rotr32 r.a 2) (rotr32 r.a 13) (rotr32 r.a 22) in
    let maj = xor3 (bit_and r.a r.b) (bit_and r.a r.c) (bit_and r.b r.c) in
    let t2 = (s0 + maj) % u32_mod in
    record {
      a = (t1 + t2) % u32_mod;
      b = r.a;
      c = r.b;
      d = r.c;
      e = (r.d + t1) % u32_mod;
      f = r.e;
      g = r.f;
      h = r.g;
    }

unfoldable pub sha256_rounds : (ks ws : List ℕ) → Regs → Regs
sha256_rounds [] ws r = r
sha256_rounds (k ∷ ks) [] r = r
sha256_rounds (k ∷ ks) (w ∷ ws) r = sha256_rounds ks ws (sha256_round k w r)

abbrev regs_of : List ℕ → Regs
regs_of s = record {
  a = get_or s 0 0;
  b = get_or s 1 0;
  c = get_or s 2 0;
  d = get_or s 3 0;
  e = get_or s 4 0;
  f = get_or s 5 0;
  g = get_or s 6 0;
  h = get_or s 7 0;
}

-- `sha256_block` on the state.
unfoldable pub sha256_block : List ℕ → (p : List ℕ) → List ℕ
sha256_block s p =
    let r = sha256_rounds sha256_k (extend_words 48 16 (load_words 16 0 p)) (regs_of s) in
    (get_or s 0 0 + r.a) % u32_mod
    ∷ (get_or s 1 0 + r.b) % u32_mod
    ∷ (get_or s 2 0 + r.c) % u32_mod
    ∷ (get_or s 3 0 + r.d) % u32_mod
    ∷ (get_or s 4 0 + r.e) % u32_mod
    ∷ (get_or s 5 0 + r.f) % u32_mod
    ∷ (get_or s 6 0 + r.g) % u32_mod
    ∷ (get_or s 7 0 + r.h) % u32_mod
    ∷ []

abbrev pub sha256_init : Sha256
sha256_init = record {
  state =
      0x6a09e667 ∷ 0xbb67ae85 ∷ 0x3c6ef372 ∷ 0xa54ff53a ∷ 0x510e527f ∷ 0x9b05688c ∷ 0x1f83d9ab
      ∷ 0x5be0cd19 ∷ [];
  bits = 0;
  block = [];
}

-- A full block is taken into the state.
abbrev pub flush : Sha256 → Sha256
flush ctx =
    if length ctx.block == 64
    then record ctx { state = sha256_block ctx.state ctx.block; block = [] }
    else ctx

-- The loop of `sha256_update`; a round takes at least one byte.
unfoldable pub update_loop : (fuel : ℕ) → List ℕ → Sha256 → Sha256
update_loop zero bytes ctx = ctx
update_loop (suc fuel) bytes ctx =
    let n = min (length bytes) (64 - length ctx.block) in
    let rest =
      update_loop fuel (drop n bytes) (flush (record ctx { block = ctx.block ++ take n bytes })) in
    if length bytes == 0 then ctx else rest

unfoldable pub sha256_update : List ℕ → Sha256 → Sha256
sha256_update bytes ctx =
    update_loop (suc (length bytes)) bytes
      (record ctx { bits = (ctx.bits + length bytes * 8) % u64_mod })

abbrev pub zeros : ℕ → List ℕ
zeros zero = []
zeros (suc n) = 0 ∷ zeros n

-- `n` bytes of `bits`, the highest first.
abbrev pub big_endian : (n bits : ℕ) → List ℕ
big_endian zero bits = []
big_endian (suc n) bits = bits / 2 ^ (8 * n) % 256 ∷ big_endian n bits

abbrev pub word_bytes : List ℕ → List ℕ
word_bytes [] = []
word_bytes (w ∷ ws) = big_endian 4 w ++ word_bytes ws

unfoldable pub sha256_final : Sha256 → List ℕ
sha256_final ctx =
    let block = ctx.block ++ (0x80 ∷ []) in
    let padded : Sha256 =
      if ltb 56 (length block)
      then record ctx {
        state = sha256_block ctx.state (block ++ zeros (64 - length block));
        block = [];
      }
      else record ctx { block = block } in
    let last = padded.block ++ zeros (56 - length padded.block) ++ big_endian 8 ctx.bits in
    word_bytes (sha256_block padded.state last)

-- The digit of a number below 16.
abbrev pub hex : ℕ → ℕ
hex d = if ltb d 10 then 48 + d else 87 + d

abbrev pub hex_text : List ℕ → List ℕ
hex_text [] = []
hex_text (b ∷ bs) = hex (b / 16) ∷ hex (b % 16) ∷ hex_text bs

unfoldable pub password_hash : (password salt : List ℕ) → List ℕ
password_hash password salt = hex_text (
    sha256_final
      (sha256_update password (sha256_update (58 ∷ []) (sha256_update salt sha256_init))))

unfoldable pub salt_name : List ℕ → ℕ → ℕ
salt_name [] h = h
salt_name (c ∷ cs) h = salt_name cs (bit_xor h c * 16777619 % u32_mod)

unfoldable pub salt_digits : (n i h : ℕ) → List ℕ
salt_digits zero i h = []
salt_digits (suc n) i h =
    hex (h / 2 ^ (i % 8 * 4) % 16)
    ∷ salt_digits n (i + 1) (bit_or (h * 2 ^ 5 % u32_mod) (h / 2 ^ 27))

-- `make_salt`, with the counter before the call.
unfoldable pub make_salt : (name : List ℕ) → (uid counter : ℕ) → List ℕ
make_salt name uid counter =
    salt_digits 8 0
      (bit_xor (salt_name name (bit_xor 2166136261 counter)) (uid * 2654435761 % u32_mod))
