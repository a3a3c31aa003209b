-- ===== src/Examples/Descriptors.antt =====
-- Sockets of a test with a local address and a buffer size.
use expo_iperf.Common.{ℕ, ◌≡◌, ◌≢◌, refl, true, false, some, none, List, [], ◌∷◌, length}
use expo_iperf.Sockets.{unspec, Address, SockTest, SockError}
use expo_iperf.Sockets.Ledger.{Safe, here, Post, Same}
use expo_iperf.Sockets.Tcp.{iperf_tcp_connect, iperf_tcp_listen, same_text}
use expo_iperf.Sockets.Datagram.{iperf_udp_accept, iperf_udp_connect}
use expo_iperf.Sockets.Connects.{Connected, Refused, iperf_tcp_connect-Safe}
use expo_iperf.Sockets.Stream.{StreamParts, iperf_new_stream, iperf_free_stream}
use expo_iperf.Sockets.Lifetime.{Whole, NotMade, iperf_new_stream-Safe, iperf_free_stream-Safe}
use expo_iperf.Sockets.Listens.{Listening, iperf_tcp_listen-Safe}
use expo_iperf.Sockets.Datagrams.{
  Accepted, Unaccepted, iperf_udp_accept-Safe, Unconnected, iperf_udp_connect-Safe,
}

-- The listener is descriptor 3, and that for streams 5.
abbrev bound_test : SockTest
bound_test = record {
  domain = unspec;
  bind_address = true;
  bind_dev = true;
  bind_port = 4000;
  server_port = 5201;
  no_delay = true;
  mptcp = false;
  mss = 0;
  socket_bufsize = 65536;
  blksize = 1460;
  tos = 16;
  mapped_v4 = false;
  reverse = true;
  cookie = b'a' ∷ b'b' ∷ [];
  listener = 3;
  prot_listener = some 5;
  i_errno = none;
}

abbrev AnyBytes : List ℕ → Type 0
AnyBytes l = Unit

abbrev SomeBytes : List ℕ → Type 0
SomeBytes l = length l ≢ 0

iperf_tcp_connect-Safe_example :
    Safe AnyBytes
      (Connected (3 ∷ []) [])
      (Refused (3 ∷ []) [])
      (3 ∷ [])
      []
      (iperf_tcp_connect bound_test)
iperf_tcp_connect-Safe_example = iperf_tcp_connect-Safe bound_test (λ h. refl)

iperf_tcp_listen-Safe_example :
    Safe AnyBytes
      (Listening (7 ∷ []) [])
      (Refused (7 ∷ []) [])
      (3 ∷ 7 ∷ [])
      []
      (iperf_tcp_listen bound_test)
iperf_tcp_listen-Safe_example = iperf_tcp_listen-Safe bound_test

iperf_udp_accept-Safe_example :
    Safe AnyBytes
      (Accepted 5 (3 ∷ []) [])
      (Unaccepted 5 (3 ∷ []) [])
      (5 ∷ 3 ∷ [])
      []
      (iperf_udp_accept bound_test 5)
iperf_udp_accept-Safe_example = iperf_udp_accept-Safe bound_test 5 refl

iperf_udp_connect-Safe_example :
    Safe SomeBytes
      (Connected (3 ∷ []) [])
      (Unconnected (3 ∷ []) [])
      (3 ∷ [])
      []
      (iperf_udp_connect bound_test)
iperf_udp_connect-Safe_example = iperf_udp_connect-Safe bound_test (λ h. refl) (λ l h. h)

-- A cookie that starts with another, and its zero byte.
same_cookie : same_text 37 (b'a' ∷ b'b' ∷ []) (b'a' ∷ b'b' ∷ 0 ∷ b'c' ∷ []) ≡ true
unfolding same_text
same_cookie = refl

other_cookie : same_text 37 (b'a' ∷ b'b' ∷ []) (b'a' ∷ b'c' ∷ []) ≡ false
unfolding same_text
other_cookie = refl

iperf_new_stream-Safe_example :
    Safe AnyBytes
      (Whole (5 ∷ []) [])
      (NotMade true (5 ∷ []) [])
      (5 ∷ [])
      []
      (iperf_new_stream 5 true true)
iperf_new_stream-Safe_example = iperf_new_stream-Safe 5 true true ([], here)

abbrev at_address : ℕ → Address
at_address n = record { id = n; family = unspec }

-- A stream with a file and two intervals.
abbrev parts : StreamParts
parts = record {
  stream = at_address 1;
  result = at_address 2;
  buffer = at_address 3;
  buffer_fd = 7;
  diskfile_fd = some 8;
  intervals = at_address 4 ∷ at_address 5 ∷ [];
}

abbrev NoError : Post SockError
NoError _ _ _ = ⊥

iperf_free_stream-Safe_example :
    Safe AnyBytes
      (Same (5 ∷ []) [])
      NoError
      (8 ∷ 7 ∷ 5 ∷ [])
      (at_address 3 ∷ at_address 4 ∷ at_address 5 ∷ at_address 2 ∷ at_address 1 ∷ [])
      (iperf_free_stream parts)
iperf_free_stream-Safe_example = iperf_free_stream-Safe parts (refl, refl)
