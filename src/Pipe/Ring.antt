-- ===== src/Pipe/Ring.antt =====
-- The byte ring of src/native_pipe.c as the sequence of bytes that it holds.
use atmkoala.Base.{
  ℕ, zero, suc, ◌+◌, ◌-◌, ◌%◌, ◌≤◌, ◌<◌, ◌≡◌, ◌≢◌, refl, ap, ◌∙◌, update, List, [], ◌∷◌, ◌++◌,
  length, take, drop, append_assoc, append-nil, arith,
}
use mathlib.Core.Path.{ap₂, sym}
use atmkoala.Kernel.{Pipe, u32_mod}
use atmkoala.Pipe.{pipe_cap}
use atmkoala.Pipe.Stream.{copy_out, copy_in, take_bytes, put_bytes}

-- The `n` bytes from the index `t` on, going round at the capacity.
abbrev pub window : (ℕ → ℕ) → (t n : ℕ) → List ℕ
window b t zero = []
window b t (suc n) = b t ∷ window b ((t + 1) % pipe_cap) n

-- The bytes of a pipe, the oldest first.
abbrev pub contents : Pipe → List ℕ
contents p = window p.buffer p.tail p.count

pub record IsPipe (p : Pipe) : Type 0 where
  pub tail_in : p.tail < pipe_cap
  pub count_in : p.count ≤ pipe_cap
  pub head_at : p.head ≡ (p.tail + p.count) % pipe_cap

pub length-window : (b : ℕ → ℕ) (t n : ℕ) → length (window b t n) ≡ n
length-window b t zero = refl
length-window b t (suc n) = ap suc (length-window b ((t + 1) % pipe_cap) n)

window-update :
    (b : ℕ → ℕ) (i x t n : ℕ)
    → ((j : ℕ) → j < n → (t + j) % pipe_cap ≢ i)
    → t < pipe_cap
    → window (update b i x) t n ≡ window b t n
window-update b i x t zero out h = refl
window-update b i x t (suc n) out h = ground (
  arith,
  out 0,
  window-update b i x ((t + 1) % pipe_cap) n λ j a e. out (suc j) (omega arith) (omega arith),
)

window-snoc :
    (b : ℕ → ℕ) (t n : ℕ)
    → t < pipe_cap
    → window b t (suc n) ≡ window b t n ++ (b ((t + n) % pipe_cap) ∷ [])
window-snoc b t zero h = ap (λ i. b i ∷ []) (omega arith)
window-snoc b t (suc n) h =
    ap (λ r. b t ∷ r)
      (window-snoc b ((t + 1) % pipe_cap) n (omega arith)
        ∙ ap (λ i. window b ((t + 1) % pipe_cap) n ++ (b i ∷ [])) (omega arith))

take-window : (b : ℕ → ℕ) (t n c : ℕ) → n ≤ c → take n (window b t c) ≡ window b t n
take-window b t zero c h = refl
take-window b t (suc n) zero h = absurd (omega arith)
take-window b t (suc n) (suc c) h =
    ap (λ r. b t ∷ r) (take-window b ((t + 1) % pipe_cap) n c (omega arith))

drop-window :
    (b : ℕ → ℕ) (t n c : ℕ)
    → n ≤ c
    → t < pipe_cap
    → drop n (window b t c) ≡ window b ((t + n) % pipe_cap) (c - n)
drop-window b t zero c h l = ap₂ (window b) (omega arith) (omega arith)
drop-window b t (suc n) zero h l = absurd (omega arith)
drop-window b t (suc n) (suc c) h l =
    drop-window b ((t + 1) % pipe_cap) n c (omega arith) (omega arith)
    ∙ ap₂ (window b) (omega arith) (omega arith)

copy_out_lem :
    (n : ℕ) (p : Pipe)
    → p.tail < pipe_cap
    → copy_out n p ≡ (window p.buffer p.tail n, record p { tail = (p.tail + n) % pipe_cap })
unfolding copy_out
copy_out_lem zero p h = ground arith
copy_out_lem (suc n) p h =
    ground (arith, copy_out_lem n (record p { tail = (p.tail + 1) % pipe_cap }))

-- The fields that the copy into the ring leaves alone.
copy_in_rest :
    (xs : List ℕ) (p : Pipe)
    → p.head < pipe_cap
    → copy_in xs p
      ≡ record p { buffer = (copy_in xs p).buffer; head = (p.head + length xs) % pipe_cap }
unfolding copy_in
copy_in_rest [] p h = ground arith
copy_in_rest (x ∷ xs) p h = ground (
  arith,
  copy_in_rest xs (record p { buffer = update p.buffer p.head x; head = (p.head + 1) % pipe_cap }),
)

window-copy_in :
    (xs : List ℕ) (p : Pipe) (t n : ℕ)
    → t < pipe_cap
    → p.head ≡ (t + n) % pipe_cap
    → n + length xs ≤ pipe_cap
    → window (copy_in xs p).buffer t (n + length xs) ≡ window p.buffer t n ++ xs
unfolding copy_in
window-copy_in [] p t n l h c =
    ap (window p.buffer t) (omega arith) ∙ sym (append-nil (window p.buffer t n))
window-copy_in (x ∷ xs) p t n l h c =
    ap (window (copy_in xs p').buffer t) (omega arith)
    ∙ window-copy_in xs p' t (suc n) l (omega arith) (omega arith)
    ∙ ap (λ r. r ++ xs)
        (window-snoc p'.buffer t n l ∙ ap₂ (λ r y. r ++ (y ∷ [])) same (ground arith))
    ∙ append_assoc (window p.buffer t n) (x ∷ []) xs
  where
    p' : Pipe
    p' = record p { buffer = update p.buffer p.head x; head = ((p.head + 1) % u32_mod) % pipe_cap }

    same : window p'.buffer t n ≡ window p.buffer t n
    same = window-update p.buffer p.head x t n (λ j a e. omega arith) l

-- Taking at most as many bytes as there are hands out the oldest ones and leaves the rest.
pub take_bytes_lem :
    (n : ℕ) (p : Pipe)
    → IsPipe p
    → n ≤ p.count
    → ((take_bytes n p).0 ≡ take n (contents p))
      × (contents (take_bytes n p).1 ≡ drop n (contents p))
      × IsPipe (take_bytes n p).1
unfolding take_bytes
take_bytes_lem n p v h = rw (copy_out_lem n p v.tail_in) (
  sym (take-window p.buffer p.tail n p.count h),
  sym (drop-window p.buffer p.tail n p.count h v.tail_in),
  record { tail_in = omega arith; count_in = omega arith; head_at = omega arith },
)

-- Bytes that fit are put behind those that are there.
pub put_bytes_lem :
    (xs : List ℕ) (p : Pipe)
    → IsPipe p
    → p.count + length xs ≤ pipe_cap
    → (contents (put_bytes xs p) ≡ contents p ++ xs) × IsPipe (put_bytes xs p)
unfolding put_bytes
put_bytes_lem xs p v h =
    let rest = copy_in_rest xs p (omega arith) in
    let c : (copy_in xs p).count ≡ p.count = ap (λ r. r.count) rest in
    let t : (copy_in xs p).tail ≡ p.tail = ap (λ r. r.tail) rest in
    let d : (copy_in xs p).head ≡ (p.head + length xs) % pipe_cap = ap (λ r. r.head) rest in
    (
      ap₂ (window (copy_in xs p).buffer) t (omega arith)
          ∙ window-copy_in xs p p.tail p.count v.tail_in v.head_at h,
      record { tail_in = omega arith; count_in = omega arith; head_at = omega arith },
    )

-- The references and the waiters are not touched.
pub take_bytes_rest :
    (n : ℕ) (p : Pipe)
    → IsPipe p
    → (take_bytes n p).1
      ≡ record p { tail = (take_bytes n p).1.tail; count = (take_bytes n p).1.count }
unfolding take_bytes
take_bytes_rest n p v = rw (copy_out_lem n p v.tail_in) refl

pub put_bytes_rest :
    (xs : List ℕ) (p : Pipe)
    → IsPipe p
    → put_bytes xs p ≡ record p {
      buffer = (put_bytes xs p).buffer;
      head = (put_bytes xs p).head;
      count = (put_bytes xs p).count;
    }
unfolding put_bytes
put_bytes_rest xs p v = rw (copy_in_rest xs p (omega arith)) refl
