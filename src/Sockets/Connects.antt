-- ===== src/Sockets/Connects.antt =====
-- iperf_tcp_connect holds the descriptor that it returns and nothing else.
use expo_iperf.Common.{
  ℕ, Bool, true, ◌&&◌, ◌≡◌, ◌≢◌, refl, if◌then◌else◌, ltb, some, none, List, ◌∷◌,
}
use expo_iperf.Sockets.{
  Address, Request, set_nodelay, set_mss, set_rcvbuf, set_sndbuf, get_sndbuf, get_rcvbuf, Answer,
  ok, err, is_set, nothing, need, SockError, ie_setbuf, ie_setbuf2, ie_setnodelay, ie_setmss,
  ie_streamconnect, ie_sendcookie, SockTest, Sock,
}
use expo_iperf.Sockets.Dial.{is_refused}
use expo_iperf.Sockets.Dials.{create_socket-Safe}
use expo_iperf.Sockets.Tcp.{
  set_tcp_options, verify_buffer, verify_buffers, iperf_common_sockopts, iperf_tcp_connect,
  is_domain6, drop_both,
}
use expo_iperf.Sockets.Ledger.{
  Post, Same, Reads, Safe, here, Holds, s_ret, s_fail, s_ask, s_close, s_free, Safe-bind,
  Safe-or_else, Safe-if, Safe-need, Safe-last, Safe-at, Safe-then,
}

-- An error is set and nothing is held any more.
abbrev pub Refused : List ℕ → List Address → Post SockTest
Refused fds held t fds' held' = (fds' ≡ fds) × (held' ≡ held) × (t.i_errno ≢ none)

pub has_error : (e : SockError) → some e ≢ none
has_error e p = absurd (cc)

-- The descriptor that is returned is open, and the addresses are as before.
abbrev pub Connected : List ℕ → List Address → Post (ℕ × SockTest)
Connected fds held r fds' held' = (fds' ≡ r.0 ∷ fds) × (held' ≡ held)

module _ {R : List ℕ → Type 0} {Q : Post SockTest} {fds : List ℕ} {held : List Address} where
  pub set_tcp_options-Safe :
      (t : SockTest) (s : ℕ) (abandon : SockError → Sock (Unit {0}))
      → Holds s fds
      → ((e : SockError) → Safe R (Same fds held) Q fds held (abandon e))
      → Safe R (Same fds held) Q fds held (set_tcp_options t s abandon)
  unfolding set_tcp_options
  set_tcp_options-Safe t s abandon o h =
      Safe-then _ _ (when t.no_delay set_nodelay _ tt (h ie_setnodelay)) (
        Safe-then _ _ (when (is_set t.mss) (set_mss t.mss) _ tt (h ie_setmss)) (
          Safe-then _ _
            (when (is_set t.socket_bufsize) (set_rcvbuf t.socket_bufsize) _ tt (h ie_setbuf))
            (when (is_set t.socket_bufsize) (set_sndbuf t.socket_bufsize) _ tt (h ie_setbuf))))
    where
      when :
          (b : Bool) (r : Request) (p : Sock (Unit {0}))
          → Reads r held
          → Safe R (Same fds held) Q fds held p
          → Safe R (Same fds held) Q fds held (if b then need s r p else nothing)
      when b r p reads k =
          Safe-if b (λ _. s_ask o reads (Safe-last p k (refl, refl))) (λ _. s_ret (refl, refl))

  pub verify_buffer-Safe :
      (t : SockTest) (s : ℕ) (r : Request) (abandon : SockError → Sock (Unit {0}))
      → Holds s fds
      → Reads r held
      → ((e : SockError) → Safe R (Same fds held) Q fds held (abandon e))
      → Safe R (Same fds held) Q fds held (verify_buffer t s r abandon)
  unfolding verify_buffer
  verify_buffer-Safe t s r abandon o reads h = s_ask o reads size_lem
    where
      size_lem :
          (a : Answer)
          → Safe R (Same fds held) Q fds held (elim a [
            | err e ↦ abandon ie_setbuf
            | ok n ↦
                if is_set t.socket_bufsize && ltb n t.socket_bufsize
                then abandon ie_setbuf2
                else nothing
          ])
      size_lem (err e) = h ie_setbuf
      size_lem (ok n) =
          Safe-if (is_set t.socket_bufsize && ltb n t.socket_bufsize) (λ _. h ie_setbuf2)
            (λ _. s_ret (refl, refl))

module _ {R : List ℕ → Type 0} {Q : Post SockTest} {fds : List ℕ} {held : List Address} where
  pub verify_buffers-Safe :
      (t : SockTest) (s : ℕ) (abandon : SockError → Sock (Unit {0}))
      → Holds s fds
      → ((e : SockError) → Safe R (Same fds held) Q fds held (abandon e))
      → Safe R (Same fds held) Q fds held (verify_buffers t s abandon)
  unfolding verify_buffers
  verify_buffers-Safe t s abandon o h =
      Safe-then _ _ (verify_buffer-Safe t s get_sndbuf abandon o tt h)
        (verify_buffer-Safe t s get_rcvbuf abandon o tt h)

module _ {R : List ℕ → Type 0} {fds : List ℕ} {held : List Address} where
  pub iperf_common_sockopts-Safe :
      (t : SockTest) (s : ℕ)
      → Holds s fds
      → Safe R (Same fds held) (Same fds held) fds held (iperf_common_sockopts t s)
  unfolding iperf_common_sockopts
  iperf_common_sockopts-Safe t s o =
      Safe-if (is_set t.tos)
        (λ _. s_ask o tt (λ d.
          Safe-if (is_domain6 d)
            (λ _. s_ask o tt (
              Safe-need _ _ (s_fail (refl, refl)) (
                Safe-if t.mapped_v4 (λ _. s_ask o tt (λ _. s_ret (refl, refl)))
                  (λ _. s_ret (refl, refl)))))
            (λ _. s_ask o tt (Safe-need _ _ (s_fail (refl, refl)) (s_ret (refl, refl))))))
        (λ _. s_ret (refl, refl))

module _ {R : List ℕ → Type 0} {fds : List ℕ} {held : List Address} where
  pub drop_both-Safe :
      {P : Post (Unit {0})} (t : SockTest) (s : ℕ) (res : Address) (e : SockError)
      → Safe R P (Refused fds held) (s ∷ fds) (res ∷ held) (drop_both t s res e)
  drop_both-Safe t s res e = s_close here (s_free here (s_fail (refl, refl, has_error e)))

  refused_lem :
      (t : SockTest) (s : ℕ) (res : Address) (r : Answer)
      → Safe R
          (Same (s ∷ fds) (res ∷ held))
          (Refused fds held)
          (s ∷ fds)
          (res ∷ held)
          (if is_refused r then drop_both t s res ie_streamconnect else nothing)
  refused_lem t s res r =
      Safe-if (is_refused r) (λ _. drop_both-Safe t s res ie_streamconnect)
        (λ _. s_ret (refl, refl))

module _ {R : List ℕ → Type 0} {fds : List ℕ} {held : List Address} where
  -- Whatever the system answers, and where a device to bind to comes with an address: every call of
  -- iperf_tcp_connect is on an open descriptor and nothing is closed or freed twice; the descriptor
  -- that is returned is open, and nothing else is held; a failure holds nothing and has an error
  -- number.
  pub iperf_tcp_connect-Safe :
      (t : SockTest)
      → (t.bind_dev ≡ true → t.bind_address ≡ true)
      → Safe R (Connected fds held) (Refused fds held) fds held (iperf_tcp_connect t)
  unfolding iperf_tcp_connect
  iperf_tcp_connect-Safe t h =
      Safe-bind
        (Safe-or_else
          (create_socket-Safe t.domain t.bind_address t.bind_dev t.bind_port t.server_port h)
          (λ _ _ _ e. s_fail (e.0, e.1, has_error ie_streamconnect)))
        (λ (s, server) _ _ e. Safe-at e (
          Safe-then _ _ (set_tcp_options-Safe t s _ (_, here) (drop_both-Safe t s server)) (
            Safe-then _ _ (verify_buffers-Safe t s _ (_, here) (drop_both-Safe t s server)) (
              Safe-bind
                (Safe-or_else (iperf_common_sockopts-Safe t s (_, here)) (λ a _ _ d. s_ret d))
                (λ a _ _ d. Safe-at d (
                  Safe-then _ _ (s_ask (_, here) (_, here) (refused_lem a s server)) (
                    s_free here (
                      s_ask (_, here) tt
                        (Safe-need _ _ (s_close here (s_fail (refl, refl, has_error ie_sendcookie)))
                          (s_ret (refl, refl)))))))))))
