-- ===== src/Tcp/Tests.antt =====
-- Tests of the connections of src/net_tcp.c: segments that come in out of order.
use atmkoala.Base.{ℕ, ◌%◌, ◌≡◌, refl, true, false, some, List, [], ◌∷◌, arith, find_from}
use atmkoala.Tcp.{
  TcpState, Conn, Segment, Link, atm_tcp_recv, tcp_ooo_take, recv_loop, tcp_ooo_store, acknowledge,
  tcp_send_control,
}
use atmkoala.Tcp.Stream.{piece, IsSession, Delivers, Call, receive_all, receive_all_lem}

abbrev quiet : Link (List ℕ)
quiet = record { arp_lookup = λ ip v. some ip; net_send = λ f v. (true, v) }

abbrev test_conn : Conn
test_conn = record {
  remote_ip = 10 ∷ 0 ∷ 2 ∷ 2 ∷ [];
  local_port = 49152;
  remote_port = 80;
  seq = 7;
  ack = 0xFFFF_FFFE;
  retry_count = 0;
  peer_window = 512;
  local_window = 512;
  cwnd = 512;
  ssthresh = 2048;
  ooo = λ i. record { used = false; seq = 0; data_bytes = [] };
  state = TcpState.established;
}

abbrev test_stream : ℕ → ℕ
test_stream n = n % 256

abbrev segment : (at : ℕ) → List ℕ → Segment
segment at xs = record {
  src_port = 80;
  dst_port = 49152;
  seq = at;
  ack = 7;
  flags = 0x10;
  window = 256;
  payload = xs;
}

abbrev early_segment : Segment
early_segment = segment 0xFFFF_FFFF (255 ∷ 0 ∷ [])

abbrev next_segment : Segment
next_segment = segment 0xFFFF_FFFE (254 ∷ [])

abbrev test_calls : List Call
test_calls =
    record { cap = 16; arrivals = early_segment ∷ early_segment ∷ next_segment ∷ [] }
    ∷ record { cap = 16; arrivals = [] }
    ∷ []

receive_all-bytes : (receive_all quiet test_calls test_conn []).0 ≡ 254 ∷ 255 ∷ 0 ∷ []
unfolding receive_all atm_tcp_recv tcp_ooo_take find_from recv_loop tcp_ooo_store acknowledge
    tcp_send_control
receive_all-bytes = refl

test_conn-IsSession : IsSession test_stream test_conn
test_conn-IsSession = record { queue = λ i u. absurd cc; bound = omega arith }

receive_all_example :
    Delivers test_stream test_conn
      (receive_all quiet test_calls test_conn []).0
      (receive_all quiet test_calls test_conn []).1
unfolding piece
receive_all_example =
    receive_all_lem quiet test_stream test_calls test_conn [] test_conn-IsSession
      (((λ o. refl), ((λ o. refl), ((λ o. refl), _))), (_, _))
