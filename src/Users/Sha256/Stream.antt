-- ===== src/Users/Sha256/Stream.antt =====
-- Taking bytes into a SHA-256 of src/users.c in pieces.
use atmkoala.Base.{
  ℕ, zero, suc, ◌+◌, ◌-◌, ◌*◌, ◌%◌, ◌≤◌, ◌<◌, ◌≡◌, refl, ap, sym, ◌∙◌, min, false, ◌==◌, List, [],
  ◌∷◌, ◌++◌, length, take, drop, length-append, length-take, length-drop, take-append-drop,
  append_assoc, arith,
}
use atmkoala.Kernel.{u64_mod}
use atmkoala.Users.Sha256.{
  Sha256, sha256_init, flush, update_loop, sha256_update, sha256_final, hex_text, password_hash,
}

-- Bytes taken in one by one.
abbrev pub absorb : List ℕ → Sha256 → Sha256
absorb [] ctx = ctx
absorb (x ∷ xs) ctx = absorb xs (flush (record ctx { block = ctx.block ++ (x ∷ []) }))

absorb-append : (xs ys : List ℕ) (ctx : Sha256) → absorb (xs ++ ys) ctx ≡ absorb ys (absorb xs ctx)
absorb-append [] ys ctx = refl
absorb-append (x ∷ xs) ys ctx =
    absorb-append xs ys (flush (record ctx { block = ctx.block ++ (x ∷ []) }))

-- A piece that fits the block.
absorb-piece :
    (x : ℕ) (xs : List ℕ) (ctx : Sha256)
    → length ctx.block + suc (length xs) ≤ 64
    → absorb (x ∷ xs) ctx ≡ flush (record ctx { block = ctx.block ++ (x ∷ xs) })
absorb-piece x [] ctx h = refl
absorb-piece x (y ∷ xs) ctx h =
    let next : Sha256 = record ctx { block = ctx.block ++ (x ∷ []) } in
    let size = length-append ctx.block (x ∷ []) in
    let e : flush next ≡ next = ground (arith, size) in
    ap (absorb (y ∷ xs)) e
    ∙ absorb-piece y xs next (omega (arith, size))
    ∙ ap (λ b. flush (record ctx { block = b })) (append_assoc ctx.block (x ∷ []) (y ∷ xs))

absorb-bytes :
    (xs : List ℕ) (ctx : Sha256)
    → 0 < length xs
    → length ctx.block + length xs ≤ 64
    → absorb xs ctx ≡ flush (record ctx { block = ctx.block ++ xs })
absorb-bytes [] ctx p h = absurd (omega arith)
absorb-bytes (x ∷ xs) ctx p h = absorb-piece x xs ctx h

flush-block : (ctx : Sha256) → length ctx.block ≤ 64 → length (flush ctx).block < 64
flush-block ctx h = ground arith

update_loop-absorb :
    (fuel : ℕ) (xs : List ℕ) (ctx : Sha256)
    → length xs < fuel
    → length ctx.block < 64
    → update_loop fuel xs ctx ≡ absorb xs ctx
unfolding update_loop
update_loop-absorb zero xs ctx h l = absurd (omega arith)
update_loop-absorb (suc fuel) [] ctx h l = refl
update_loop-absorb (suc fuel) (x ∷ xs) ctx h l =
    let bytes = x ∷ xs in
    let n = min (length bytes) (64 - length ctx.block) in
    let ctx' : Sha256 = flush (record ctx { block = ctx.block ++ take n bytes }) in
    let z : (suc (length xs) == 0) ≡ false = ground arith in
    let size = length-take n bytes in
    let full = length-append ctx.block (take n bytes) in
    rw z (
      update_loop-absorb fuel (drop n bytes) ctx' (omega (arith, length-drop n bytes))
        (flush-block (record ctx { block = ctx.block ++ take n bytes }) (omega (arith, size, full)))
      ∙ ap (absorb (drop n bytes))
          (sym (absorb-bytes (take n bytes) ctx (omega (arith, size)) (omega (arith, size))))
      ∙ sym (absorb-append (take n bytes) (drop n bytes) ctx)
      ∙ ap (λ r. absorb r ctx) (take-append-drop n bytes))

flush-bits :
    (ctx : Sha256) (n : ℕ) → flush (record ctx { bits = n }) ≡ record (flush ctx) { bits = n }
flush-bits ctx n = ground arith

absorb-bits :
    (xs : List ℕ) (ctx : Sha256) (n : ℕ)
    → absorb xs (record ctx { bits = n }) ≡ record (absorb xs ctx) { bits = n }
absorb-bits [] ctx n = refl
absorb-bits (x ∷ xs) ctx n =
    ap (absorb xs) (flush-bits (record ctx { block = ctx.block ++ (x ∷ []) }) n)
    ∙ absorb-bits xs (flush (record ctx { block = ctx.block ++ (x ∷ []) })) n

absorb-kept : (xs : List ℕ) (ctx : Sha256) → (absorb xs ctx).bits ≡ ctx.bits
absorb-kept xs ctx = ap (λ c. c.bits) (absorb-bits xs ctx ctx.bits)

absorb-block :
    (xs : List ℕ) (ctx : Sha256) → length ctx.block < 64 → length (absorb xs ctx).block < 64
absorb-block [] ctx h = h
absorb-block (x ∷ xs) ctx h =
    absorb-block xs (flush (record ctx { block = ctx.block ++ (x ∷ []) })) (
      flush-block (record ctx { block = ctx.block ++ (x ∷ []) })
        (omega (arith, length-append ctx.block (x ∷ []))))

sha256_update-absorb :
    (xs : List ℕ) (ctx : Sha256)
    → length ctx.block < 64
    → sha256_update xs ctx ≡ record (absorb xs ctx) { bits = (ctx.bits + length xs * 8) % u64_mod }
unfolding sha256_update
sha256_update-absorb xs ctx h =
    let n = (ctx.bits + length xs * 8) % u64_mod in
    update_loop-absorb (suc (length xs)) xs (record ctx { bits = n }) (omega arith) h
    ∙ absorb-bits xs ctx n

-- Taking in two pieces one after the other is taking them in as one, whatever their lengths and however
-- full the block is.
pub sha256_update-append :
    (xs ys : List ℕ) (ctx : Sha256)
    → length ctx.block < 64
    → sha256_update ys (sha256_update xs ctx) ≡ sha256_update (xs ++ ys) ctx
sha256_update-append xs ys ctx h =
    let n = (ctx.bits + length xs * 8) % u64_mod in
    let with_bits : ℕ → Sha256 → Sha256 = λ b c. record c { bits = b } in
    ap (sha256_update ys) (sha256_update-absorb xs ctx h)
    ∙ sha256_update-absorb ys (record (absorb xs ctx) { bits = n }) (absorb-block xs ctx h)
    ∙ ap (with_bits ((n + length ys * 8) % u64_mod)) (absorb-bits ys (absorb xs ctx) n)
    ∙ ap (with_bits ((n + length ys * 8) % u64_mod)) (sym (absorb-append xs ys ctx))
    ∙ ap (λ b. with_bits b (absorb (xs ++ ys) ctx)) (omega (arith, length-append xs ys))
    ∙ sym (sha256_update-absorb (xs ++ ys) ctx h)

-- The hash of a password is the digest of its salt, a colon and the password as one text.
pub password_hash_lem :
    (password salt : List ℕ)
    → password_hash password salt
      ≡ hex_text (sha256_final (sha256_update (salt ++ (58 ∷ password)) sha256_init))
unfolding password_hash
password_hash_lem password salt =
    ap (λ c. hex_text (sha256_final (sha256_update password c)))
      (sha256_update-append salt (58 ∷ []) sha256_init (omega arith))
    ∙ ap (λ c. hex_text (sha256_final c))
        (sha256_update-append (salt ++ (58 ∷ [])) password sha256_init (omega arith))
    ∙ ap (λ r. hex_text (sha256_final (sha256_update r sha256_init)))
        (append_assoc salt (58 ∷ []) password)
