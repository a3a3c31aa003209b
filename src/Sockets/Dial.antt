-- ===== src/Sockets/Dial.antt =====
-- net.c: timeout_connect, create_socket, netdial and netannounce. They fail with -1 alone.
use expo_iperf.Common.{ℕ, ◌==◌, Bool, false, not, ◌&&◌, ◌||◌, if◌then◌else◌, Option, none, some}
use expo_iperf.Sockets.{
  Family, inet, inet6, is_unspec, is_inet6, Address, local_name, server_name, passive, get_error,
  get_flags, set_nonblocking, restore_flags, listen, set_reuseaddr, set_v6only, bind_to, bind_any,
  connect_to, poll, Answer, ok, err, einprogress, etimedout, socket, Prog, ret, fail, allocate,
  open_socket, ask, close, free, ◌>>=◌, ◌>>◌, need, nothing, is_set,
}

abbrev pub Dialing : Type 0 → Type 0
Dialing A = Prog (Unit {0}) A

-- What a poll finds: the error of the socket, or that the time is over.
unfoldable pub after_poll : {E : Type 0} → ℕ → Answer → Prog E Answer
after_poll s (err e) = ret (err e)
after_poll s (ok n) =
    if n == 1
    then ask s get_error
        (λ a. elim a [ ok v ↦ if v == 0 then ret (ok 0) else ret (err v) | err e ↦ ret (err e) ])
    else if n == 0
    then ret (err etimedout)
    else ret (err einprogress)

unfoldable pub connect_and_wait : {E : Type 0} → ℕ → Address → Option ℕ → Prog E Answer
unfolding after_poll
connect_and_wait s a timeout = ask s (connect_to a) (λ r. elim r [
  | ok n ↦ ret (ok 0)
  | err e ↦ if e == einprogress then ask s (poll timeout) (after_poll s) else ret (err e)
])

-- The result and `errno`; no timeout is -1.
unfoldable pub timeout_connect : {E : Type 0} → ℕ → Address → Option ℕ → Prog E Answer
unfolding connect_and_wait
timeout_connect s a none = connect_and_wait s a none
timeout_connect s a (some ms) = ask s get_flags (λ _. ask s set_nonblocking (λ r. elim r [
  | err e ↦ ret (err e)
  | ok n ↦ connect_and_wait s a (some ms) >>= λ result.
      ask s restore_flags (λ back. elim back [ err e ↦ ret (err e) | ok n ↦ ret result ])
]))

-- The addresses are freed, the local one where there is a name, and the function fails.
abbrev pub free_both : {A : Type 0} → Option Address → Address → Dialing A
free_both none server = free (some server) (fail tt)
free_both (some l) server = free (some l) (free (some server) (fail tt))

abbrev pub find_local : Family → Bool → Dialing (Option Address)
find_local domain local =
    if local
    then allocate (local_name domain) (λ o. elim o [ none ↦ fail tt | some a ↦ ret (some a) ])
    else ret none

abbrev pub find_server : Family → Option Address → ℕ → Dialing Address
find_server domain l port = allocate (server_name domain port) (λ o. elim o [
  | some a ↦ ret a
  | none ↦ elim l [ none ↦ fail tt | some a ↦ free (some a) (fail tt) ]
])

-- The local address, or only a port, where it is given.
unfoldable pub bind_local : ℕ → Option Address → ℕ → Address → Dialing (Unit {0})
bind_local s (some l) local_port server = do
  need s (bind_to l local_port) (close s (free (some l) (free (some server) (fail tt))))
  free (some l) nothing
bind_local s none local_port server =
    if is_set local_port
    then elim server.family [
      | inet ↦ need s (bind_any inet local_port) (close s (free (some server) (fail tt)))
      | inet6 ↦ need s (bind_any inet6 local_port) (close s (free (some server) (fail tt)))
      | _ ↦ close s (free (some server) (fail tt))
    ]
    else nothing

-- With a device to bind to the function fails: there is no SO_BINDTODEVICE.
unfoldable pub create_socket :
    Family → (local bind_dev : Bool) → (local_port port : ℕ) → Dialing (ℕ × Address)
unfolding bind_local
create_socket domain local bind_dev local_port port = do
  l ← find_local domain local
  server ← find_server domain l port
  s ←
      open_socket (socket server.family)
        (λ o. elim o [ some s ↦ ret s | none ↦ free_both l server ])
  if bind_dev then close s (free l (free (some server) (fail tt))) else nothing
  bind_local s l local_port server
  ret (s, server)

-- A connection that is in progress is no failure.
abbrev pub is_refused : Answer → Bool
is_refused (ok n) = false
is_refused (err e) = not (e == einprogress)

unfoldable pub netdial :
    Family → (local bind_dev : Bool) → (local_port port : ℕ) → Option ℕ → Dialing ℕ
unfolding create_socket timeout_connect
netdial domain local bind_dev local_port port timeout = do
  (s, server) ← create_socket domain local bind_dev local_port port
  r ← timeout_connect s server timeout
  if is_refused r then close s (free (some server) (fail tt)) else nothing
  free (some server) (ret s)

-- The family with which getaddrinfo looks for the wildcard address.
abbrev pub passive_family : Family → Bool → Family
passive_family domain local = if is_unspec domain && not local then inet6 else domain

abbrev pub give_up : {A : Type 0} → ℕ → Address → Dialing A
give_up s res = close s (free (some res) (fail tt))

-- IPV6_V6ONLY is off only if no family is asked for.
abbrev pub restrict_v6 : Family → Address → ℕ → Dialing (Unit {0})
restrict_v6 domain res s =
    if is_inet6 res.family && (is_unspec domain || is_inet6 domain)
    then need s (set_v6only (if is_unspec domain then 0 else 1)) (give_up s res)
    else nothing

unfoldable pub netannounce : Family → (is_stream local bind_dev : Bool) → ℕ → Dialing ℕ
netannounce domain is_stream local bind_dev port = do
  res ←
      allocate (passive (passive_family domain local) local port)
        (λ o. elim o [ none ↦ fail tt | some a ↦ ret a ])
  s ←
      open_socket (socket res.family)
        (λ o. elim o [ none ↦ free (some res) (fail tt) | some s ↦ ret s ])
  if bind_dev then give_up s res else nothing
  need s (set_reuseaddr 1) (give_up s res)
  restrict_v6 domain res s
  need s (bind_to res 0) (give_up s res)
  free (some res) nothing
  if is_stream then need s listen (close s (fail tt)) else nothing
  ret s
