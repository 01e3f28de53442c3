-- ===== src/Tcp/Stream.antt =====
-- Receiving of src/net_tcp.c against the stream of bytes that the peer sends.
use atmkoala.Base.{
  ℕ, zero, suc, ◌+◌, ◌%◌, ◌<◌, ◌≡◌, refl, ap, sym, ◌∙◌, inl, inr, true, false, ◌==◌, ◌||◌, not, ltb,
  is_some, List, [], ◌∷◌, ◌++◌, length, length-append, update, Bool-cases, Option-cases, arith,
  find_from, find_from-Found,
}
use atmkoala.Kernel.{u32_mod}
use atmkoala.Tcp.{
  Early, Conn, Segment, Link, tcp_ooo_max, tcp_mss, tcp_ack, is_established, is_next, is_ours,
  is_stored, is_unused, tcp_ooo_take, tcp_ooo_store, tcp_send_control, acknowledge, recv_loop,
  atm_tcp_recv,
}
use mathlib.Core.Path.{subst}

-- The `n` bytes of a stream from the sequence number `at` on.
unfoldable pub piece : (ℕ → ℕ) → (at n : ℕ) → List ℕ
piece s at zero = []
piece s at (suc n) = s at ∷ piece s ((at + 1) % u32_mod) n

-- The bytes are those of the stream at the number.
abbrev pub IsPiece : (ℕ → ℕ) → ℕ → List ℕ → Type 0
IsPiece s at xs = xs ≡ piece s at (length xs)

-- A place of the queue that is used holds a piece of the stream.
abbrev pub IsGenuine : (ℕ → ℕ) → Early → Type 0
IsGenuine s e = e.used ≡ true → IsPiece s e.seq e.data_bytes

-- What the queue holds are pieces of the stream.
pub record IsSession (s : ℕ → ℕ) (c : Conn) : Type 0 where
  pub queue : (i : ℕ) → IsGenuine s (c.ooo i)
  pub bound : c.ack < u32_mod

-- The segments between the two ports of a connection are pieces of the stream; others are as they may.
abbrev pub AllFrom : (ℕ → ℕ) → Conn → List Segment → Type 0
AllFrom s c [] = Unit {0}
AllFrom s c (t ∷ ts) = (is_ours c t ≡ true → IsPiece s t.seq t.payload) × AllFrom s c ts

-- Two connections between the same ports.
pub record SamePorts (c d : Conn) : Type 0 where
  pub remote : d.remote_port ≡ c.remote_port
  pub local : d.local_port ≡ c.local_port

-- The bytes are the next ones of the stream, and the connection has moved on behind them.
pub record Delivers (s : ℕ → ℕ) (c : Conn) (xs : List ℕ) (d : Conn) : Type 0 where
  pub bytes : IsPiece s c.ack xs
  pub moved : d.ack ≡ (c.ack + length xs) % u32_mod
  pub session : IsSession s d
  pub ports : SamePorts c d

piece-append :
    (s : ℕ → ℕ) (m n at : ℕ)
    → at < u32_mod
    → piece s at (m + n) ≡ piece s at m ++ piece s ((at + m) % u32_mod) n
unfolding piece
piece-append s zero n at h =
    let e : (at + 0) % u32_mod ≡ at = omega arith in
    let e0 : 0 + n ≡ n = omega arith in rw (e, e0) refl
piece-append s (suc m) n at h =
    let e : ((at + 1) % u32_mod + m) % u32_mod ≡ (at + suc m) % u32_mod = omega arith in
    let e1 : suc m + n ≡ suc (m + n) = omega arith in
    ap (piece s at) e1
    ∙ ap (λ r. s at ∷ r)
        (piece-append s m n ((at + 1) % u32_mod) (omega arith)
          ∙ ap (λ a. piece s ((at + 1) % u32_mod) m ++ piece s a n) e)

AllFrom-ports :
    (s : ℕ → ℕ) (c d : Conn) (ts : List Segment) → SamePorts c d → AllFrom s c ts → AllFrom s d ts
AllFrom-ports s c d [] p h = h
AllFrom-ports s c d (t ∷ ts) p h =
    let same : is_ours d t ≡ is_ours c t = rw (p.remote, p.local) in
    ((λ o. h.0 (sym same ∙ o)), AllFrom-ports s c d ts p h.1)

-- Two deliveries after one another.
pub Delivers-append :
    (s : ℕ → ℕ) (c d e : Conn) (xs ys : List ℕ)
    → c.ack < u32_mod
    → Delivers s c xs d
    → Delivers s d ys e
    → Delivers s c (xs ++ ys) e
Delivers-append s c d e xs ys h p q =
    let size = length-append xs ys in
    record {
      bytes =
          ap (λ r. r ++ ys) p.bytes
          ∙ ap (λ r. piece s c.ack (length xs) ++ r)
              (q.bytes ∙ ap (λ a. piece s a (length ys)) p.moved)
          ∙ sym (piece-append s (length xs) (length ys) c.ack h)
          ∙ ap (piece s c.ack) (sym size);
      moved = omega (arith, p.moved, q.moved, size);
      session = q.session;
      ports = record {
        remote = q.ports.remote ∙ p.ports.remote;
        local = q.ports.local ∙ p.ports.local;
      };
    }

-- Nothing is delivered, and the queue and the number stay.
Delivers-none :
    (s : ℕ → ℕ) (c d : Conn) → IsSession s d → d.ack ≡ c.ack → SamePorts c d → Delivers s c [] d
unfolding piece
Delivers-none s c d v e p = record {
  bytes = refl;
  moved = omega (arith, e, v.bound);
  session = v;
  ports = p;
}

IsGenuine-update :
    (s : ℕ → ℕ) (f : ℕ → Early) (i : ℕ) (e : Early)
    → ((j : ℕ) → IsGenuine s (f j))
    → IsGenuine s e
    → (j : ℕ) → IsGenuine s (update f i e j)
IsGenuine-update s f i e h g j = elim (Bool-cases (j == i)) [ inl q ↦ rw q g | inr q ↦ rw q (h j) ]

tcp_ooo_take_lem :
    (s : ℕ → ℕ) (cap : ℕ) (c : Conn)
    → IsSession s c
    → Delivers s c (tcp_ooo_take cap c).0 (tcp_ooo_take cap c).1
unfolding tcp_ooo_take
tcp_ooo_take_lem s cap c v = elim (Option-cases (find_from (is_next c cap) 0 tcp_ooo_max)) [
  | inl e ↦
      rw (e, tcp_ooo_take) (Delivers-none s c c v refl (record { remote = refl; local = refl }))
  | inr (i, e) ↦
      let found = find_from-Found (is_next c cap) 0 tcp_ooo_max e in
      let hit : ((c.ooo i).used ≡ true) × ((c.ooo i).seq ≡ c.ack) = ground (arith, found.hit) in
      let left : Early = record (c.ooo i) { used = false } in
      let gone : IsGenuine s left = λ u. absurd cc in
      rw (e, tcp_ooo_take)
        (record {
          bytes = v.queue i hit.0 ∙ ap (λ a. piece s a (length (c.ooo i).data_bytes)) hit.1;
          moved = refl;
          session = record {
            queue = IsGenuine-update s c.ooo i left v.queue gone;
            bound = omega arith;
          };
          ports = record { remote = refl; local = refl };
        })
]

tcp_ooo_store_lem :
    (s : ℕ → ℕ) (seq : ℕ) (payload : List ℕ) (window : ℕ) (c : Conn)
    → IsSession s c
    → IsPiece s seq payload
    → Delivers s c [] (record (tcp_ooo_store seq payload c) { peer_window = window })
unfolding tcp_ooo_store
tcp_ooo_store_lem s seq payload window c v p =
    let ports : SamePorts c c = record { remote = refl; local = refl } in
    let kept : Delivers s c [] (record c { peer_window = window }) =
      Delivers-none s c (record c { peer_window = window })
        (record { queue = v.queue; bound = v.bound }) refl
        (record { remote = refl; local = refl }) in
    elim (Bool-cases (length payload == 0 || ltb tcp_mss (length payload))) [
      | inl e ↦ rw (e, tcp_ooo_store) kept
      | inr e ↦ elim (Bool-cases (is_some (find_from (is_stored c seq) 0 tcp_ooo_max))) [
        | inl e1 ↦ rw (e, e1, tcp_ooo_store) kept
        | inr e1 ↦ elim (Option-cases (find_from (is_unused c) 0 tcp_ooo_max)) [
          | inl e2 ↦ rw (e, e1, e2, tcp_ooo_store) kept
          | inr (i, e2) ↦
              let new : Early = record { used = true; seq = seq; data_bytes = payload } in
              rw (e, e1, e2, tcp_ooo_store)
                (Delivers-none s c (record c { ooo = update c.ooo i new; peer_window = window })
                  (record {
                    queue = IsGenuine-update s c.ooo i new v.queue (λ u. p);
                    bound = v.bound;
                  })
                  refl (record { remote = refl; local = refl }))
        ]
      ]
    ]

length-zero : (xs : List ℕ) → length xs ≡ 0 → xs ≡ []
length-zero [] h = refl
length-zero (x ∷ xs) h = absurd (omega arith)

-- A call: the size of the buffer, and the segments that come in.
pub record Call : Type 0 where
  pub cap : ℕ
  pub arrivals : List Segment

-- What comes in during all the calls is of the stream.
abbrev pub CallsFrom : (ℕ → ℕ) → Conn → List Call → Type 0
CallsFrom s c [] = Unit {0}
CallsFrom s c (k ∷ ks) = AllFrom s c k.arrivals × CallsFrom s c ks

CallsFrom-ports :
    (s : ℕ → ℕ) (c d : Conn) (ks : List Call) → SamePorts c d → CallsFrom s c ks → CallsFrom s d ks
CallsFrom-ports s c d [] p h = h
CallsFrom-ports s c d (k ∷ ks) p h =
    (AllFrom-ports s c d k.arrivals p h.0, CallsFrom-ports s c d ks p h.1)

module _ {V : Type 0} (net : Link V) where
  acknowledge_lem :
      (s : ℕ → ℕ) (xs : List ℕ) (c d : Conn) (v : V)
      → Delivers s c xs d
      → Delivers s c (acknowledge net xs d v).buffer (acknowledge net xs d v).conn
  unfolding acknowledge
  acknowledge_lem s xs c d v h = elim (Bool-cases (tcp_send_control net d tcp_ack v).0) [
    | inl e ↦ rw (e, acknowledge) h
    | inr e ↦
        rw (e, acknowledge)
          (record {
            bytes = h.bytes;
            moved = h.moved;
            session = record { queue = h.session.queue; bound = h.session.bound };
            ports = record { remote = h.ports.remote; local = h.ports.local };
          })
  ]

  recv_loop_lem :
      (s : ℕ → ℕ) (cap : ℕ) (ts : List Segment) (c : Conn) (v : V)
      → IsSession s c
      → AllFrom s c ts
      → Delivers s c (recv_loop net cap ts c v).buffer (recv_loop net cap ts c v).conn
  unfolding recv_loop
  recv_loop_lem s cap [] c v h a =
      Delivers-none s c c h refl (record { remote = refl; local = refl })
  recv_loop_lem s cap (t ∷ ts) c v h a =
      let n = length t.payload in
      let rest = recv_loop_lem s cap ts c v h a.1 in
      elim (Bool-cases (is_ours c t)) [
        | inr e ↦ rw (e, recv_loop) rest
        | inl e ↦
            let payload = a.0 e in
            let c1 : Conn = record (tcp_ooo_store t.seq t.payload c) { peer_window = t.window } in
            let v1 : V = (tcp_send_control net c1 tcp_ack v).1 in
            let first = tcp_ooo_store_lem s t.seq t.payload t.window c h payload in
            let second =
              recv_loop_lem s cap ts c1 v1 first.session
                (AllFrom-ports s c c1 ts first.ports a.1) in
            let later =
              Delivers-append s c c1 (recv_loop net cap ts c1 v1).conn []
                (recv_loop net cap ts c1 v1).buffer h.bound first second in
            elim (Bool-cases (n == 0 || ltb c.local_window n)) [
              | inl e1 ↦ rw (e, e1, recv_loop) rest
              | inr e1 ↦ elim (Bool-cases (ltb c.ack t.seq)) [
                | inl e2 ↦ rw (e, e1, e2, recv_loop) later
                | inr e2 ↦ elim (Bool-cases (ltb cap n || not (t.seq == c.ack))) [
                  | inl e3 ↦ rw (e, e1, e2, e3, recv_loop) rest
                  | inr e3 ↦
                      let at : t.seq ≡ c.ack = ground (arith, e3) in
                      let now : Delivers s c t.payload
                          (record c { ack = (c.ack + n) % u32_mod; peer_window = t.window }) =
                        record {
                          bytes = payload ∙ ap (λ b. piece s b n) at;
                          moved = refl;
                          session = record { queue = h.queue; bound = omega arith };
                          ports = record { remote = refl; local = refl };
                        } in
                      rw (e, e1, e2, e3, recv_loop)
                        (acknowledge_lem s t.payload c
                          (record c { ack = (c.ack + n) % u32_mod; peer_window = t.window }) v now)
                ]
              ]
            ]
      ]

  -- One call delivers the next bytes.
  atm_tcp_recv_lem :
      (s : ℕ → ℕ) (cap : ℕ) (ts : List Segment) (c : Conn) (v : V)
      → IsSession s c
      → AllFrom s c ts
      → Delivers s c (atm_tcp_recv net cap ts c v).buffer (atm_tcp_recv net cap ts c v).conn
  unfolding atm_tcp_recv
  atm_tcp_recv_lem s cap ts c v h a =
      let took = tcp_ooo_take_lem s cap c h in
      let c1 = (tcp_ooo_take cap c).1 in
      elim (Bool-cases (cap == 0 || not (is_established c.state))) [
        | inl e ↦
            rw (e, atm_tcp_recv)
              (Delivers-none s c c h refl (record { remote = refl; local = refl }))
        | inr e ↦ elim (Bool-cases (ltb 0 (length (tcp_ooo_take cap c).0))) [
          | inl e1 ↦ rw (e, e1, atm_tcp_recv) (acknowledge_lem s (tcp_ooo_take cap c).0 c c1 v took)
          | inr e1 ↦
              let none_yet : (tcp_ooo_take cap c).0 ≡ [] =
                length-zero (tcp_ooo_take cap c).0 (ground (arith, e1)) in
              let first : Delivers s c [] c1 = subst (λ xs. Delivers s c xs c1) none_yet took in
              let second =
                recv_loop_lem s cap ts c1 v first.session (AllFrom-ports s c c1 ts first.ports a) in
              rw (e, e1, atm_tcp_recv)
                (Delivers-append s c c1 (recv_loop net cap ts c1 v).conn []
                  (recv_loop net cap ts c1 v).buffer h.bound first second)
        ]
      ]

  -- The bytes that a sequence of calls of `atm_tcp_recv` writes, and the connection behind it.
  unfoldable pub receive_all : List Call → Conn → V → List ℕ × Conn
  receive_all [] c v = ([], c)
  receive_all (k ∷ ks) c v =
      let r = atm_tcp_recv net k.cap k.arrivals c v in
      let (xs, d) = receive_all ks r.conn r.link in (r.buffer ++ xs, d)

  -- For a stream that has one byte for each sequence number, so not one of more than 4 GiB: when what
  -- the queue holds is pieces of the stream and `ack` is below 2 ^ 32, and what comes in
  -- between the two ports of the connection during a sequence of calls of `atm_tcp_recv` is pieces of
  -- the stream, in any order, with losses and repetitions, the bytes that the calls write to their
  -- buffers are, one after another, those of the stream from the number `ack` on; `ack` has moved on
  -- by their number, modulo 2 ^ 32; the queue holds pieces of the stream, and the ports are the same.
  pub receive_all_lem :
      (s : ℕ → ℕ) (ks : List Call) (c : Conn) (v : V)
      → IsSession s c
      → CallsFrom s c ks
      → Delivers s c (receive_all ks c v).0 (receive_all ks c v).1
  unfolding receive_all
  receive_all_lem s [] c v h a = Delivers-none s c c h refl (record { remote = refl; local = refl })
  receive_all_lem s (k ∷ ks) c v h a =
      let r = atm_tcp_recv net k.cap k.arrivals c v in
      let first = atm_tcp_recv_lem s k.cap k.arrivals c v h a.0 in
      let second =
        receive_all_lem s ks r.conn r.link first.session
          (CallsFrom-ports s c r.conn ks first.ports a.1) in
      Delivers-append s c r.conn (receive_all ks r.conn r.link).1 r.buffer
        (receive_all ks r.conn r.link).0 h.bound first second
