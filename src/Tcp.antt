-- ===== src/Tcp.antt =====
-- The TCP connections of src/net_tcp.c and src/net_tcp.h: the queue of early segments, receiving,
-- sending and closing. `Link` is what net.c offers: the table of hardware addresses and `net_send`.
-- A frame is a record of its fields. The frames that come in before a timeout and pass
-- `tcp_validate_frame` are a list of segments.
pub mod Stream
mod Tests
use atmkoala.Base.{
  ℕ, zero, suc, ◌+◌, ◌*◌, ◌/◌, ◌%◌, min, Bool, true, false, ◌==◌, ◌&&◌, ◌||◌, not, if◌then◌else◌,
  ltb, leb, update, Option, none, some, is_some, List, [], ◌∷◌, length, ℤ, pos, negsuc, find_from,
}
use atmkoala.Kernel.{u32_mod}

abbrev pub tcp_mss : ℕ
tcp_mss = 512

abbrev pub tcp_ooo_max : ℕ
tcp_ooo_max = 2

abbrev pub tcp_max_payload : ℕ
tcp_max_payload = 512

abbrev pub tcp_ack : ℕ
tcp_ack = 0x10

-- `atm_tcp_state_t`
pub data TcpState : Type 0 where
  closed listen syn_sent syn_received established fin_wait error : TcpState

abbrev pub is_established : TcpState → Bool
is_established established = true
is_established closed = false
is_established listen = false
is_established syn_sent = false
is_established syn_received = false
is_established fin_wait = false
is_established error = false

-- A place of the queue `ooo`; `len` is the length of the data.
pub record Early : Type 0 where
  pub used : Bool
  pub seq : ℕ
  pub data_bytes : List ℕ

-- `atm_tcp_conn_t`
pub record Conn : Type 0 where
  pub remote_ip : List ℕ
  pub local_port : ℕ
  pub remote_port : ℕ
  pub seq : ℕ
  pub ack : ℕ
  pub retry_count : ℕ
  pub peer_window : ℕ
  pub local_window : ℕ
  pub cwnd : ℕ
  pub ssthresh : ℕ
  pub ooo : ℕ → Early
  pub state : TcpState

-- A segment that came in: the fields of its header, and the bytes behind it.
pub record Segment : Type 0 where
  pub src_port : ℕ
  pub dst_port : ℕ
  pub seq : ℕ
  pub ack : ℕ
  pub flags : ℕ
  pub window : ℕ
  pub payload : List ℕ

-- A frame that goes out.
pub record Frame : Type 0 where
  pub mac : List ℕ
  pub dst_ip : List ℕ
  pub segment : Segment

pub record Link (V : Type 0) : Type 0 where
  pub arp_lookup : List ℕ → V → Option (List ℕ)
  pub net_send : Frame → V → Bool × V

unfoldable pub tcp_window_allows : Conn → ℕ → Bool
tcp_window_allows c n =
    let lim = if ltb c.peer_window c.cwnd then c.peer_window else c.cwnd in
    not (n == 0) && leb n tcp_max_payload && not (lim == 0) && leb n lim

abbrev pub tcp_congestion_init : Conn → Conn
tcp_congestion_init c = record c { cwnd = tcp_mss; ssthresh = tcp_mss * 4 }

unfoldable pub tcp_congestion_ack : ℕ → Conn → Conn
tcp_congestion_ack n c =
    if ltb c.cwnd c.ssthresh then record c { cwnd = min (tcp_mss * 4) (c.cwnd + n) } else c

unfoldable pub tcp_congestion_loss : Conn → Conn
tcp_congestion_loss c = record c {
  ssthresh = (if ltb tcp_mss c.cwnd then c.cwnd / 2 else tcp_mss);
  cwnd = tcp_mss;
}

-- The test of `tcp_ooo_take` on a place of the queue.
abbrev pub is_next : Conn → (cap i : ℕ) → Bool
is_next c cap i = (c.ooo i).used && (c.ooo i).seq == c.ack && leb (length (c.ooo i).data_bytes) cap

unfoldable pub tcp_ooo_take : (cap : ℕ) → Conn → List ℕ × Conn
tcp_ooo_take cap c = elim (find_from (is_next c cap) 0 tcp_ooo_max) [
  | none ↦ ([], c)
  | some i ↦
      let e = c.ooo i in
      (
        e.data_bytes,
        record c {
          ack = (c.ack + length e.data_bytes) % u32_mod;
          ooo = update c.ooo i (record e { used = false });
        },
      )
]

abbrev pub is_stored : Conn → (seq i : ℕ) → Bool
is_stored c seq i = (c.ooo i).used && (c.ooo i).seq == seq

abbrev pub is_unused : Conn → ℕ → Bool
is_unused c i = not (c.ooo i).used

unfoldable pub tcp_ooo_store : (seq : ℕ) → List ℕ → Conn → Conn
tcp_ooo_store seq payload c =
    if length payload == 0 || ltb tcp_mss (length payload)
    then c
    else if is_some (find_from (is_stored c seq) 0 tcp_ooo_max)
    then c
    else (elim (find_from (is_unused c) 0 tcp_ooo_max) [
      | none ↦ c
      | some i ↦ record c {
        ooo = update c.ooo i (record { used = true; seq = seq; data_bytes = payload });
      }
    ])

-- The frame of a segment with these flags and bytes.
abbrev pub frame_of : Conn → (mac : List ℕ) → (flags : ℕ) → List ℕ → Frame
frame_of c mac flags payload = record {
  mac = mac;
  dst_ip = c.remote_ip;
  segment = record {
    src_port = c.local_port;
    dst_port = c.remote_port;
    seq = c.seq;
    ack = c.ack;
    flags = flags;
    window = (if c.local_window == 0 then tcp_max_payload else c.local_window);
    payload = payload;
  };
}

-- What `atm_tcp_recv` leaves: its result, the bytes written to the buffer, and the states.
pub record Received (V : Type 0) : Type 0 where
  pub status : ℤ
  pub buffer : List ℕ
  pub conn : Conn
  pub link : V

-- The segment is of this connection.
abbrev pub is_ours : Conn → Segment → Bool
is_ours c t = t.src_port == c.remote_port && t.dst_port == c.local_port

-- The answer that `atm_tcp_send` waits for.
abbrev pub is_answer : Conn → (expected : ℕ) → Segment → Bool
is_answer c expected t = is_ours c t && not (t.flags / tcp_ack % 2 == 0) && t.ack == expected

unfoldable pub find_answer : Conn → (expected : ℕ) → List Segment → Option Segment
find_answer c expected [] = none
find_answer c expected (t ∷ ts) =
    let rest = find_answer c expected ts in if is_answer c expected t then some t else rest

module _ {V : Type 0} (net : Link V) where
  unfoldable pub tcp_send_control : Conn → (flags : ℕ) → V → Bool × V
  tcp_send_control c flags v = elim (net.arp_lookup c.remote_ip v) [
    | none ↦ (false, v)
    | some mac ↦ net.net_send (frame_of c mac flags []) v
  ]

  -- The bytes are in the buffer; they are acknowledged.
  unfoldable pub acknowledge : List ℕ → Conn → V → Received V
  acknowledge xs c v =
      let (ok, v1) = tcp_send_control c tcp_ack v in
      if ok
      then record { status = pos (length xs); buffer = xs; conn = c; link = v1 }
      else record { status = negsuc 0; buffer = xs; conn = record c { state = error }; link = v1 }

  -- The loop of `atm_tcp_recv` on the segments that come in.
  unfoldable pub recv_loop : (cap : ℕ) → List Segment → Conn → V → Received V
  recv_loop cap [] c v = record { status = negsuc 0; buffer = []; conn = c; link = v }
  recv_loop cap (t ∷ ts) c v =
      let n = length t.payload in
      let rest = recv_loop cap ts c v in
      let c1 : Conn = record (tcp_ooo_store t.seq t.payload c) { peer_window = t.window } in
      let after = recv_loop cap ts c1 (tcp_send_control c1 tcp_ack v).1 in
      if not (is_ours c t)
      then rest
      else if n == 0 || ltb c.local_window n
      then rest
      else if ltb c.ack t.seq
      then after
      else if ltb cap n || not (t.seq == c.ack)
      then rest
      else acknowledge t.payload (record c { ack = (c.ack + n) % u32_mod; peer_window = t.window })
          v

  unfoldable pub atm_tcp_recv : (cap : ℕ) → List Segment → Conn → V → Received V
  atm_tcp_recv cap ts c v =
      let (xs, c1) = tcp_ooo_take cap c in
      if cap == 0 || not (is_established c.state)
      then record { status = negsuc 0; buffer = []; conn = c; link = v }
      else if ltb 0 (length xs)
      then acknowledge xs c1 v
      else recv_loop cap ts c1 v

  -- The tries of `atm_tcp_send` from the number `i` on, `left` of them; `answers` has the segments
  -- that come in during each.
  unfoldable pub send_tries :
      (left i : ℕ) → Frame → (answers : ℕ → List Segment) → Conn → V → ℤ × Conn × V
  send_tries zero i f answers c v =
      (negsuc 0, record (tcp_congestion_loss c) { state = error; retry_count = i }, v)
  send_tries (suc left) i f answers c v =
      let n = length f.segment.payload in
      let expected = (c.seq + n) % u32_mod in
      let (ok, v1) = net.net_send f v in
      let rest = send_tries left (i + 1) f answers c v1 in
      if not ok
      then (negsuc 0, record c { retry_count = i }, v1)
      else (elim (find_answer c expected (answers i)) [
        | none ↦ rest
        | some t ↦ (
          pos n,
          tcp_congestion_ack n
              (record c { retry_count = i; peer_window = t.window; seq = expected }),
          v1,
        )
      ])

  unfoldable pub atm_tcp_send : List ℕ → (answers : ℕ → List Segment) → Conn → V → ℤ × Conn × V
  atm_tcp_send payload answers c v =
      if not (is_established c.state) || not (tcp_window_allows c (length payload))
      then (negsuc 0, c, v)
      else (elim (net.arp_lookup c.remote_ip v) [
        | none ↦ (negsuc 0, c, v)
        | some mac ↦ send_tries 3 0 (frame_of c mac (tcp_ack + 8) payload) answers c v
      ])

  unfoldable pub atm_tcp_close : Conn → V → ℤ × Conn × V
  atm_tcp_close c v =
      let fin : Conn = record c { state = fin_wait } in
      let (ok, v1) = tcp_send_control fin (1 + tcp_ack) v in
      if not (is_established c.state)
      then (pos 0, record c { state = closed }, v)
      else if not ok
      then (negsuc 0, record c { state = error }, v1)
      else (pos 0, record c { seq = (c.seq + 1) % u32_mod; state = closed }, v1)
