-- ===== src/Sockets.antt =====
-- net.c, iperf_tcp.c, iperf_udp.c: the functions that make, connect and accept sockets, as trees of
-- the calls of the operating system. Every answer of a call is in a tree. The configuration has no
-- SO_BINDTODEVICE, no flow labels, no pacing by the socket and no user timeout.
pub mod Ledger
pub mod Dial
pub mod Tcp
pub mod Datagram
pub mod Dials
pub mod Connects
pub mod Listens
pub mod Datagrams
pub mod Stream
pub mod Lifetime
use expo_iperf.Common.{ℕ, ◌==◌, Bool, true, false, not, Option, none, some, List, [], ◌∷◌}

-- An address family: that of the settings, and of what getaddrinfo finds.
pub data Family : Type 0 where
  unspec inet inet6 other_family : Family

abbrev pub is_unspec : Family → Bool
is_unspec unspec = true
is_unspec _ = false

abbrev pub is_inet : Family → Bool
is_inet inet = true
is_inet _ = false

abbrev pub is_inet6 : Family → Bool
is_inet6 inet6 = true
is_inet6 _ = false

-- What is allocated, by a number: the addresses that getaddrinfo finds, with their family, or memory.
pub record Address : Type 0 where
  pub id : ℕ
  pub family : Family

-- What is asked for. The arguments of getaddrinfo: the family with a local name, with the server's
-- name and port, or AI_PASSIVE, with whether there is a local name, and a port. Memory: a stream, its
-- result, and the buffer that mmap makes of a file.
pub data Allocation : Type 0 where
  local_name : Family → Allocation
  server_name : Family → ℕ → Allocation
  passive : Family → Bool → ℕ → Allocation
  stream_memory result_memory buffer_mapping : Allocation

-- Calls on a descriptor, and the last on none.
pub data Request : Type 0 where
  set_nodelay set_rcvtimeo get_sndbuf get_rcvbuf get_error get_domain get_flags : Request
  set_nonblocking restore_flags listen write_reply write_message send_cookie deny : Request
  set_mss set_rcvbuf set_sndbuf set_reuseaddr set_v6only set_tclass set_ip_tos : ℕ → Request
  bind_to : Address → ℕ → Request  -- with a port, where it is not 0
  bind_any : Family → ℕ → Request
  connect_to : Address → Request
  poll : Option ℕ → Request
  recvfrom connect_peer get_sockname get_peername truncate_file : Request
  unlink_file : Request

-- A result that is not negative, or -1 with `errno`.
pub data Answer : Type 0 where
  ok : ℕ → Answer
  err : ℕ → Answer

-- The numbers of Linux.
abbrev pub einprogress : ℕ
einprogress = 115

abbrev pub etimedout : ℕ
etimedout = 110

abbrev pub af_inet6 : ℕ
af_inet6 = 10

-- How a descriptor is made.
pub data Opening : Type 0 where
  socket : Family → Opening
  accept : ℕ → Opening
  temporary_file : Opening
  disk_file : Bool → Opening  -- with `sender`

-- `fail` is the result -1; `receive` is a read whose bytes the code looks at, `free` is
-- freeaddrinfo, free or munmap.
pub data Prog (E A : Type 0) : Type 0 where
  ret : A → Prog E A
  fail : E → Prog E A
  out_of_fuel : Prog E A
  allocate : Allocation → (Option Address → Prog E A) → Prog E A
  open_socket : Opening → (Option ℕ → Prog E A) → Prog E A
  ask : ℕ → Request → (Answer → Prog E A) → Prog E A
  invoke : Request → (Answer → Prog E A) → Prog E A
  receive : ℕ → ℕ → (Option (List ℕ) → Prog E A) → Prog E A
  close : ℕ → Prog E A → Prog E A
  free : Option Address → Prog E A → Prog E A

infixl 5 ◌>>=◌ ◌>>◌
abbrev pub ◌>>=◌ : {E A B : Type 0} → Prog E A → (A → Prog E B) → Prog E B
ret a >>= f = f a
fail e >>= f = fail e
out_of_fuel >>= f = out_of_fuel
allocate l k >>= f = allocate l (λ o. k o >>= f)
open_socket o k >>= f = open_socket o (λ s. k s >>= f)
ask s r k >>= f = ask s r (λ a. k a >>= f)
invoke r k >>= f = invoke r (λ a. k a >>= f)
receive s n k >>= f = receive s n (λ m. k m >>= f)
close s p >>= f = close s (p >>= f)
free a p >>= f = free a (p >>= f)

abbrev pub ◌>>◌ : {E B : Type 0} → Prog E (Unit {0}) → Prog E B → Prog E B
p >> q = p >>= λ _. q

-- What a caller does where the function that it calls has failed.
abbrev pub or_else : {E F A : Type 0} → Prog E A → (E → Prog F A) → Prog F A
or_else (ret a) h = ret a
or_else (fail e) h = h e
or_else out_of_fuel h = out_of_fuel
or_else (allocate l k) h = allocate l (λ o. or_else (k o) h)
or_else (open_socket o k) h = open_socket o (λ s. or_else (k s) h)
or_else (ask s r k) h = ask s r (λ a. or_else (k a) h)
or_else (invoke r k) h = invoke r (λ a. or_else (k a) h)
or_else (receive s n k) h = receive s n (λ m. or_else (k m) h)
or_else (close s p) h = close s (or_else p h)
or_else (free a p) h = free a (or_else p h)

-- A call on a descriptor whose failure ends the function by `give_up`.
abbrev pub need : {E : Type 0} → ℕ → Request → Prog E (Unit {0}) → Prog E (Unit {0})
need s r give_up = ask s r (λ a. elim a [ ok n ↦ ret tt | err e ↦ give_up ])

-- A call whose result is not read.
abbrev pub attempt : {E : Type 0} → ℕ → Request → Prog E (Unit {0})
attempt s r = ask s r (λ _. ret tt)

abbrev pub nothing : {E : Type 0} → Prog E (Unit {0})
nothing = ret tt

-- The errors that this code sets.
pub data SockError : Type 0 where
  ie_streamconnect ie_recvcookie ie_streamlisten ie_setnodelay ie_setmss ie_setbuf : SockError
  ie_setbuf2 ie_reuseaddr ie_v6only ie_sendcookie ie_streamaccept ie_streamwrite : SockError
  ie_streamread ie_setcos ie_settos ie_createstream ie_file ie_initstream : SockError

-- The fields of `struct iperf_test` and its settings that this code reads and writes; a name is by
-- whether it is given.
pub record SockTest : Type 0 where
  pub domain : Family
  pub bind_address : Bool
  pub bind_dev : Bool
  pub bind_port : ℕ
  pub server_port : ℕ
  pub no_delay : Bool
  pub mptcp : Bool
  pub mss : ℕ
  pub socket_bufsize : ℕ
  pub blksize : ℕ
  pub tos : ℕ
  pub mapped_v4 : Bool
  pub reverse : Bool
  pub cookie : List ℕ
  pub listener : ℕ
  pub prot_listener : Option ℕ
  pub i_errno : Option SockError

abbrev pub Sock : Type 0 → Type 0
Sock A = Prog SockTest A

abbrev pub with_error : SockTest → SockError → SockTest
with_error t e = record t { i_errno = some e }

abbrev pub refuse : {A : Type 0} → SockTest → SockError → Sock A
refuse t e = fail (with_error t e)

abbrev pub is_set : ℕ → Bool
is_set n = not (n == 0)
