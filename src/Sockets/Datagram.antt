-- ===== src/Sockets/Datagram.antt =====
-- iperf_udp.c: iperf_udp_buffercheck, iperf_udp_accept, iperf_udp_listen and iperf_udp_connect.
-- What the code prints is left out, and so are the sets of descriptors for select.
use expo_iperf.Common.{
  ℕ, zero, suc, ◌+◌, ◌*◌, ◌==◌, Bool, true, false, not, ◌&&◌, ◌||◌, if◌then◌else◌, ltb, leb, none,
  some, List, [], ◌∷◌, length, overwrite,
}
use expo_iperf.Sockets.{
  Request, set_rcvbuf, set_sndbuf, get_sndbuf, get_rcvbuf, set_rcvtimeo, recvfrom, connect_peer,
  write_reply, write_message, ok, err, ret, out_of_fuel, ask, receive, ◌>>=◌, ◌>>◌, or_else, need,
  attempt, nothing, is_set, ie_setbuf, ie_setbuf2, ie_streamaccept, ie_streamlisten, ie_streamwrite,
  ie_streamconnect, ie_streamread, SockTest, Sock, refuse,
}
use expo_iperf.Sockets.Dial.{netdial, netannounce}
use expo_iperf.Sockets.Tcp.{iperf_common_sockopts}

-- One of the two buffers: an error, or whether a block is larger than its actual size.
unfoldable pub buffer_is_small : SockTest → ℕ → Request → Sock Bool
buffer_is_small t s request = ask s request (λ a. elim a [
  | err e ↦ refuse t ie_setbuf
  | ok n ↦
      if is_set t.socket_bufsize && ltb n t.socket_bufsize
      then refuse t ie_setbuf2
      else ret (ltb n t.blksize)
])

-- Whether the result is 1: -1 is a failure.
unfoldable pub iperf_udp_buffercheck : SockTest → ℕ → Sock Bool
unfolding buffer_is_small
iperf_udp_buffercheck t s = do
  if is_set t.socket_bufsize
      then need s (set_rcvbuf t.socket_bufsize) (refuse t ie_setbuf)
      else nothing
  if is_set t.socket_bufsize
      then need s (set_sndbuf t.socket_bufsize) (refuse t ie_setbuf)
      else nothing
  a ← buffer_is_small t s get_sndbuf
  b ← buffer_is_small t s get_rcvbuf
  ret (a || b)

abbrev pub udp_buffer_extra : ℕ
udp_buffer_extra = 1024

-- The buffers are checked, and where they are small and have the default size, made larger and
-- checked again.
unfoldable pub fit_buffers : SockTest → ℕ → Sock SockTest
unfolding iperf_udp_buffercheck
fit_buffers t s = do
  small ← iperf_udp_buffercheck t s
  if small && not (is_set t.socket_bufsize)
      then (let larger = record t { socket_bufsize = t.blksize + udp_buffer_extra } in
          iperf_udp_buffercheck larger s >>= λ _. ret larger)
      else ret t

-- A new socket takes the place of the old one, on which the stream goes on.
unfoldable pub replace_listener : SockTest → ℕ → Sock (ℕ × SockTest)
unfolding netannounce
replace_listener t s = do
  p ←
      or_else (netannounce t.domain false t.bind_address t.bind_dev t.server_port)
        (λ _. refuse (record t { prot_listener = none }) ie_streamlisten)
  let a = record t { prot_listener = some p }
  need s write_reply (refuse a ie_streamwrite)
  ret (s, a)

-- `prot_listener` is open when the server waits for a stream.
unfoldable pub iperf_udp_accept : SockTest → ℕ → Sock (ℕ × SockTest)
unfolding fit_buffers replace_listener
iperf_udp_accept t s = do
  need s recvfrom (refuse t ie_streamaccept)
  need s connect_peer (refuse t ie_streamaccept)
  a ← fit_buffers t s
  replace_listener a s

unfoldable pub iperf_udp_listen : SockTest → Sock ℕ
unfolding netannounce
iperf_udp_listen t =
    or_else (netannounce t.domain false t.bind_address t.bind_dev t.server_port)
      (λ _. refuse t ie_streamlisten)

abbrev pub same_bytes : List ℕ → List ℕ → Bool
same_bytes [] [] = true
same_bytes (x ∷ l) (y ∷ m) = x == y && same_bytes l m
same_bytes _ _ = false

-- "6789" and "9876" as they lie in memory with the low byte first.
abbrev pub udp_connect_msg : List ℕ
udp_connect_msg = 0x39 ∷ 0x38 ∷ 0x37 ∷ 0x36 ∷ []

abbrev pub udp_connect_reply : List ℕ
udp_connect_reply = 0x36 ∷ 0x37 ∷ 0x38 ∷ 0x39 ∷ []

abbrev pub legacy_udp_connect_reply : List ℕ
legacy_udp_connect_reply = 0xb1 ∷ 0x68 ∷ 0xde ∷ 0x3a ∷ []

abbrev pub is_reply : List ℕ → Bool
is_reply buf = same_bytes buf udp_connect_reply || same_bytes buf legacy_udp_connect_reply

abbrev pub max_reverse_out_of_order_packets : ℕ
max_reverse_out_of_order_packets = 2

abbrev pub max_len_wait_for_reply : SockTest → ℕ
max_len_wait_for_reply t = if t.reverse then 4 + max_reverse_out_of_order_packets * t.blksize else 4

-- The loop that waits for the reply, on fuel: the bytes of `buf`, an `unsigned int`, when it ends,
-- where `i` bytes have come before. A read of fewer than four leaves the others.
unfoldable pub wait_for_reply : ℕ → SockTest → ℕ → ℕ → List ℕ → Sock (List ℕ)
wait_for_reply zero t s i buf = out_of_fuel
wait_for_reply (suc fuel) t s i buf = receive s 4 (λ m. elim m [
  | none ↦ refuse t ie_streamread
  | some l ↦
      let more = wait_for_reply fuel t s (i + length l) (overwrite l buf) in
      if is_reply (overwrite l buf) || leb (max_len_wait_for_reply t) (i + length l)
      then ret (overwrite l buf)
      else more
])

-- The message is sent and the reply awaited, with the fuel for a read of one byte at a time.
unfoldable pub greet : SockTest → ℕ → Sock (ℕ × SockTest)
unfolding wait_for_reply
greet t s = do
  need s write_message (refuse t ie_streamwrite)
  buf ← wait_for_reply (max_len_wait_for_reply t) t s 0 udp_connect_msg
  if is_reply buf then ret (s, t) else refuse t ie_streamread

unfoldable pub iperf_udp_connect : SockTest → Sock (ℕ × SockTest)
unfolding netdial fit_buffers iperf_common_sockopts greet
iperf_udp_connect t = do
  s ←
      or_else (netdial t.domain t.bind_address t.bind_dev t.bind_port t.server_port none)
        (λ _. refuse t ie_streamconnect)
  a ← fit_buffers t s
  b ← or_else (iperf_common_sockopts a s) (λ c. ret c)
  attempt s set_rcvtimeo
  greet b s
