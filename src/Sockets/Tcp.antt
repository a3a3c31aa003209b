-- ===== src/Sockets/Tcp.antt =====
-- iperf_tcp.c: iperf_tcp_accept, iperf_tcp_listen and iperf_tcp_connect, with
-- iperf_common_sockopts of iperf_api.c. What the code prints is left out, and so are the sets of
-- descriptors for select.
use expo_iperf.Common.{
  ℕ, zero, suc, ◌==◌, Bool, true, false, ◌&&◌, ◌||◌, if◌then◌else◌, ltb, none, some, List, [], ◌∷◌,
}
use expo_iperf.Sockets.{
  is_unspec, is_inet, is_inet6, Address, passive, Request, set_nodelay, set_mss, set_rcvbuf,
  set_sndbuf, set_reuseaddr, set_v6only, set_tclass, set_ip_tos, get_sndbuf, get_rcvbuf, get_domain,
  bind_to, listen, connect_to, send_cookie, deny, Answer, ok, err, af_inet6, socket, accept, ret,
  allocate, open_socket, ask, receive, close, free, ◌>>=◌, ◌>>◌, or_else, need, nothing, is_set,
  SockError, ie_streamconnect, ie_recvcookie, ie_streamlisten, ie_setnodelay, ie_setmss, ie_setbuf,
  ie_setbuf2, ie_reuseaddr, ie_v6only, ie_sendcookie, ie_setcos, ie_settos, SockTest, Sock, refuse,
}
use expo_iperf.Sockets.Dial.{passive_family, create_socket, is_refused}

abbrev pub cookie_size : ℕ
cookie_size = 37

-- The first byte of a buffer behind which there are zeros.
abbrev pub first : List ℕ → ℕ
first [] = 0
first (x ∷ l) = x

abbrev pub others : List ℕ → List ℕ
others [] = []
others (x ∷ l) = l

-- strncmp is 0.
unfoldable pub same_text : ℕ → List ℕ → List ℕ → Bool
same_text zero a b = true
same_text (suc n) a b =
    let rest = same_text n (others a) (others b) in first a == first b && (first a == 0 || rest)

-- What is done with the cookie that was read; a stranger is told so, and its descriptor is closed
-- and returned.
unfoldable pub admit : SockTest → ℕ → List ℕ → Sock ℕ
unfolding same_text
admit t s c = if same_text cookie_size t.cookie c then ret s else ask s deny (λ _. close s (ret s))

unfoldable pub iperf_tcp_accept : SockTest → Sock ℕ
unfolding admit
iperf_tcp_accept t = open_socket (accept t.listener) (λ o. elim o [
  | none ↦ refuse t ie_streamconnect
  | some s ↦
      receive s cookie_size
        (λ m. elim m [ none ↦ close s (refuse t ie_recvcookie) | some c ↦ admit t s c ])
])

-- The options of a new TCP socket.
unfoldable pub set_tcp_options : SockTest → ℕ → (SockError → Sock (Unit {0})) → Sock (Unit {0})
set_tcp_options t s abandon = do
  if t.no_delay then need s set_nodelay (abandon ie_setnodelay) else nothing
  if is_set t.mss then need s (set_mss t.mss) (abandon ie_setmss) else nothing
  if is_set t.socket_bufsize
      then need s (set_rcvbuf t.socket_bufsize) (abandon ie_setbuf)
      else nothing
  if is_set t.socket_bufsize
      then need s (set_sndbuf t.socket_bufsize) (abandon ie_setbuf)
      else nothing

-- The actual size of a buffer is not below the one that is asked for.
unfoldable pub verify_buffer :
    SockTest → ℕ → Request → (SockError → Sock (Unit {0})) → Sock (Unit {0})
verify_buffer t s request abandon = ask s request (λ a. elim a [
  | err e ↦ abandon ie_setbuf
  | ok n ↦ if is_set t.socket_bufsize && ltb n t.socket_bufsize then abandon ie_setbuf2 else nothing
])

unfoldable pub verify_buffers : SockTest → ℕ → (SockError → Sock (Unit {0})) → Sock (Unit {0})
unfolding verify_buffer
verify_buffers t s abandon =
    verify_buffer t s get_sndbuf abandon >> verify_buffer t s get_rcvbuf abandon

abbrev pub drop_both : SockTest → ℕ → Address → SockError → Sock (Unit {0})
drop_both t s res e = close s (free (some res) (refuse t e))

-- IPV6_V6ONLY as iperf_tcp_listen sets it, where no family or that of IPv4 is asked for.
abbrev pub restrict_listener : SockTest → Address → ℕ → Sock (Unit {0})
restrict_listener t res s =
    if is_inet6 res.family && (is_unspec t.domain || is_inet t.domain)
    then need s (set_v6only (if is_unspec t.domain then 0 else 1)) (drop_both t s res ie_v6only)
    else nothing

-- The listening socket is thrown away and made again.
unfoldable pub listen_again : SockTest → Sock ℕ
unfolding set_tcp_options
listen_again t = close t.listener (do
  res ←
      allocate (passive (passive_family t.domain t.bind_address) t.bind_address t.server_port)
        (λ o. elim o [ none ↦ refuse t ie_streamlisten | some a ↦ ret a ])
  s ←
      open_socket (socket res.family)
        (λ o. elim o [ none ↦ free (some res) (refuse t ie_streamlisten) | some s ↦ ret s ])
  set_tcp_options t s (drop_both t s res)
  need s (set_reuseaddr 1) (drop_both t s res ie_reuseaddr)
  restrict_listener t res s
  need s (bind_to res 0) (drop_both t s res ie_streamlisten)
  free (some res) nothing
  need s listen (close s (refuse t ie_streamlisten))
  ret s)

abbrev pub listens_again : SockTest → Bool
listens_again t = t.no_delay || t.mptcp || is_set t.mss || is_set t.socket_bufsize

-- The descriptor, and the test with the new listener.
unfoldable pub iperf_tcp_listen : SockTest → Sock (ℕ × SockTest)
unfolding listen_again verify_buffers
iperf_tcp_listen t = do
  a ← if listens_again t then (listen_again t >>= λ s. ret (record t { listener = s })) else ret t
  verify_buffers a a.listener (λ e. close a.listener (refuse a e))
  ret (a.listener, a)

abbrev pub is_domain6 : Answer → Bool
is_domain6 (ok n) = n == af_inet6
is_domain6 (err e) = false

-- A failure of IP_TOS for a mapped address is ignored.
unfoldable pub iperf_common_sockopts : SockTest → ℕ → Sock SockTest
iperf_common_sockopts t s =
    if is_set t.tos
    then ask s get_domain (λ d.
      if is_domain6 d
      then (do
        need s (set_tclass t.tos) (refuse t ie_setcos)
        if t.mapped_v4 then ask s (set_ip_tos t.tos) (λ _. ret t) else ret t)
      else (need s (set_ip_tos t.tos) (refuse t ie_settos) >> ret t))
    else ret t

-- The test is returned with the error number that `iperf_common_sockopts` may have set, since its
-- result is not looked at.
unfoldable pub iperf_tcp_connect : SockTest → Sock (ℕ × SockTest)
unfolding create_socket set_tcp_options verify_buffers iperf_common_sockopts
iperf_tcp_connect t = do
  (s, server) ←
      or_else (create_socket t.domain t.bind_address t.bind_dev t.bind_port t.server_port)
        (λ _. refuse t ie_streamconnect)
  set_tcp_options t s (drop_both t s server)
  verify_buffers t s (drop_both t s server)
  a ← or_else (iperf_common_sockopts t s) (λ a. ret a)
  ask s (connect_to server)
      (λ r. if is_refused r then drop_both a s server ie_streamconnect else nothing)
  free (some server) nothing
  need s send_cookie (close s (refuse a ie_sendcookie))
  ret (s, a)
