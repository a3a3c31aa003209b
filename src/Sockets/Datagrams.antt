-- ===== src/Sockets/Datagrams.antt =====
-- The functions of iperf_udp.c on sockets: what is open behind them.
use expo_iperf.Common.{
  ℕ, zero, suc, ◌+◌, ◌*◌, ◌≤◌, ◌<◌, Bool, true, false, not, ◌&&◌, ◌||◌, ◌≡◌, ◌≢◌, ◌∙◌, refl, arith,
  if◌then◌else◌, ltb, leb, Option, none, some, List, ◌∷◌, length, overwrite,
}
use expo_iperf.Sockets.{
  Address, Request, get_sndbuf, get_rcvbuf, Answer, ok, err, ret, is_set, SockError, ie_setbuf,
  ie_setbuf2, ie_streamlisten, ie_streamwrite, ie_streamconnect, SockTest, with_error, refuse,
}
use expo_iperf.Sockets.Datagram.{
  buffer_is_small, iperf_udp_buffercheck, udp_buffer_extra, fit_buffers, replace_listener,
  iperf_udp_accept, is_reply, max_len_wait_for_reply, wait_for_reply, greet, iperf_udp_connect,
}
use expo_iperf.Sockets.Connects.{iperf_common_sockopts-Safe, Connected}
use expo_iperf.Sockets.Dials.{netdial-Safe, netannounce-Safe}
use expo_iperf.Sockets.Ledger.{
  Post, Same, Safe, Holds, Reads, here, there, s_ret, s_fail, s_ask, s_receive, Safe-bind,
  Safe-or_else, Safe-if, Safe-need, Safe-last, Safe-at, Safe-then,
}

module _ {R : List ℕ → Type 0} {Q : Post SockTest} {fds : List ℕ} {held : List Address} where
  buffer_is_small-Safe :
      (t : SockTest) (s : ℕ) (r : Request)
      → Holds s fds
      → Reads r held
      → Q (with_error t ie_setbuf) fds held
      → Q (with_error t ie_setbuf2) fds held
      → Safe R (Same fds held) Q fds held (buffer_is_small t s r)
  unfolding buffer_is_small
  buffer_is_small-Safe t s r o reads h k = s_ask o reads answer_lem
    where
      answer_lem :
          (a : Answer)
          → Safe R (Same fds held) Q fds held (elim a [
            | err e ↦ refuse t ie_setbuf
            | ok n ↦
                if is_set t.socket_bufsize && ltb n t.socket_bufsize
                then refuse t ie_setbuf2
                else ret (ltb n t.blksize)
          ])
      answer_lem (err e) = s_fail h
      answer_lem (ok n) =
          Safe-if (is_set t.socket_bufsize && ltb n t.socket_bufsize) (λ _. s_fail k)
            (λ _. s_ret (refl, refl))

module _ {R : List ℕ → Type 0} {Q : Post SockTest} {fds : List ℕ} {held : List Address} where
  iperf_udp_buffercheck-Safe :
      (t : SockTest) (s : ℕ)
      → Holds s fds
      → Q (with_error t ie_setbuf) fds held
      → Q (with_error t ie_setbuf2) fds held
      → Safe R (Same fds held) Q fds held (iperf_udp_buffercheck t s)
  unfolding iperf_udp_buffercheck
  iperf_udp_buffercheck-Safe t s o h k =
      Safe-then _ _
        (Safe-if (is_set t.socket_bufsize) (λ _. s_ask o tt (Safe-last _ (s_fail h) (refl, refl)))
          (λ _. s_ret (refl, refl)))
        (Safe-then _ _
          (Safe-if (is_set t.socket_bufsize) (λ _. s_ask o tt (Safe-last _ (s_fail h) (refl, refl)))
            (λ _. s_ret (refl, refl)))
          (Safe-bind (buffer_is_small-Safe t s get_sndbuf o tt h k) (λ a _ _ e.
            Safe-at e
              (Safe-bind (buffer_is_small-Safe t s get_rcvbuf o tt h k) (λ b _ _ d. s_ret d)))))

-- Nothing is opened or closed, and the listener for streams is the same.
abbrev pub Fitted : Option ℕ → List ℕ → List Address → Post SockTest
Fitted p fds held t fds' held' = (fds' ≡ fds) × (held' ≡ held) × (t.prot_listener ≡ p)

module _ {R : List ℕ → Type 0} {Q : Post SockTest} {fds : List ℕ} {held : List Address} where
  fit_buffers-Safe :
      (t : SockTest) (s : ℕ)
      → Holds s fds
      → ((a : SockTest) → a.prot_listener ≡ t.prot_listener → Q (with_error a ie_setbuf) fds held)
      → ((a : SockTest) → a.prot_listener ≡ t.prot_listener → Q (with_error a ie_setbuf2) fds held)
      → Safe R (Fitted t.prot_listener fds held) Q fds held (fit_buffers t s)
  unfolding fit_buffers
  fit_buffers-Safe t s o h k =
      Safe-bind (iperf_udp_buffercheck-Safe t s o (h t refl) (k t refl)) (λ small _ _ e. Safe-at e (
        Safe-if (small && not (is_set t.socket_bufsize))
          (λ _.
            let a = record t { socket_bufsize = t.blksize + udp_buffer_extra } in
            Safe-bind (iperf_udp_buffercheck-Safe a s o (h a refl) (k a refl))
              (λ _ _ _ d. s_ret (d.0, d.1, refl)))
          (λ _. s_ret (refl, refl, refl))))

-- What is open behind a failure of iperf_udp_accept, by the error: with IESTREAMLISTEN the old
-- socket, which no longer is the listener, with IESTREAMWRITE the old one and the new listener, and
-- otherwise the listener alone.
abbrev pub Left : Option SockError → Option ℕ → ℕ → List ℕ → List ℕ → Type 0
Left none p s fds fds' = ⊥
Left (some ie_streamlisten) p s fds fds' = (p ≡ none) × (fds' ≡ s ∷ fds)
Left (some ie_streamwrite) p s fds fds' = (q : ℕ) × (p ≡ some q) × (fds' ≡ q ∷ s ∷ fds)
Left (some _) p s fds fds' = (p ≡ some s) × (fds' ≡ s ∷ fds)

abbrev pub Unaccepted : ℕ → List ℕ → List Address → Post SockTest
Unaccepted s fds held t fds' held' = Left t.i_errno t.prot_listener s fds fds' × (held' ≡ held)

-- The old socket is the stream, and the new one the listener.
abbrev pub Accepted : ℕ → List ℕ → List Address → Post (ℕ × SockTest)
Accepted s fds held r fds' held' =
    (r.0 ≡ s) × ((q : ℕ) × (r.1.prot_listener ≡ some q) × (fds' ≡ q ∷ s ∷ fds)) × (held' ≡ held)

module _ {R : List ℕ → Type 0} {fds : List ℕ} {held : List Address} where
  replace_listener-Safe :
      (t : SockTest) (s : ℕ)
      → Safe R (Accepted s fds held) (Unaccepted s fds held) (s ∷ fds) held (replace_listener t s)
  unfolding replace_listener
  replace_listener-Safe t s =
      Safe-bind
        (Safe-or_else (netannounce-Safe t.domain false t.bind_address t.bind_dev t.server_port)
          (λ _ _ _ e. s_fail ((refl, e.0), e.1)))
        (λ q _ _ e. Safe-at e (
          s_ask (_, there here) tt
            (Safe-need _ _ (s_fail ((q, refl, refl), refl)) (s_ret (refl, (q, refl, refl), refl)))))

  -- Whatever the system answers, from an open listener for streams: behind success the old listener
  -- is the stream, and a new one is open; behind a failure the listener is as before, unless no new
  -- one can be made (the old socket stays open and the test has none) or the reply cannot be
  -- written (both stay open); there is an error number, and no address is held.
  pub iperf_udp_accept-Safe :
      (t : SockTest) (s : ℕ)
      → t.prot_listener ≡ some s
      → Safe R (Accepted s fds held) (Unaccepted s fds held) (s ∷ fds) held (iperf_udp_accept t s)
  unfolding iperf_udp_accept
  iperf_udp_accept-Safe t s h =
      s_ask (_, here) tt
        (Safe-need _ _ (s_fail ((h, refl), refl)) (
          s_ask (_, here) tt
            (Safe-need _ _ (s_fail ((h, refl), refl)) (
              Safe-bind
                (fit_buffers-Safe t s (_, here) (λ a e. ((e ∙ h, refl), refl))
                  (λ a e. ((e ∙ h, refl), refl)))
                (λ a _ _ e. Safe-at (e.0, e.1) (replace_listener-Safe a s))))))

-- What is open behind a failure of iperf_udp_connect: nothing where no socket could be made, and
-- otherwise the new socket.
abbrev pub Abandoned : Option SockError → List ℕ → List ℕ → Type 0
Abandoned none fds fds' = ⊥
Abandoned (some ie_streamconnect) fds fds' = fds' ≡ fds
Abandoned (some _) fds fds' = (s : ℕ) × (fds' ≡ s ∷ fds)

abbrev pub Unconnected : List ℕ → List Address → Post SockTest
Unconnected fds held t fds' held' = Abandoned t.i_errno fds fds' × (held' ≡ held)

-- The loop goes on only below its limit, which is not 0.
goes_on : (b : Bool) (m n : ℕ) → (b || leb m n) ≡ false → n < m
goes_on b m n h = ground arith

max_len_pos : (b : Bool) (n : ℕ) → 0 < (if b then 4 + 2 * n else 4)
max_len_pos b n = ground arith

module _ {R : List ℕ → Type 0} {fds : List ℕ} {held : List Address} where
  wait_for_reply-Safe :
      (fuel : ℕ) (t : SockTest) (s i : ℕ) (buf : List ℕ)
      → ((l : List ℕ) → R l → length l ≢ 0)
      → max_len_wait_for_reply t ≤ i + fuel
      → i < max_len_wait_for_reply t
      → Safe R
          (Same (s ∷ fds) held)
          (Unconnected fds held)
          (s ∷ fds)
          held
          (wait_for_reply fuel t s i buf)
  unfolding wait_for_reply
  wait_for_reply-Safe zero t s i buf h le lt = absurd (omega arith)
  wait_for_reply-Safe (suc fuel) t s i buf h le lt =
      s_receive (_, here) (s_fail ((s, refl), refl))
        (λ l r.
          Safe-if (is_reply (overwrite l buf) || leb (max_len_wait_for_reply t) (i + length l))
            (λ _. s_ret (refl, refl))
            (λ e.
              wait_for_reply-Safe fuel t s (i + length l) (overwrite l buf) h
                (omega (arith, h l r, le)) (goes_on (is_reply (overwrite l buf)) _ _ e)))

  greet-Safe :
      (t : SockTest) (s : ℕ)
      → ((l : List ℕ) → R l → length l ≢ 0)
      → Safe R (Connected fds held) (Unconnected fds held) (s ∷ fds) held (greet t s)
  unfolding greet
  greet-Safe t s h =
      s_ask (_, here) tt
        (Safe-need _ _ (s_fail ((s, refl), refl)) (
          Safe-bind
            (wait_for_reply-Safe (max_len_wait_for_reply t) t s 0 _ h (omega arith)
              (max_len_pos t.reverse t.blksize))
            (λ buf _ _ e.
              Safe-at e (
                Safe-if (is_reply buf) (λ _. s_ret (refl, refl)) (λ _. s_fail ((s, refl), refl))))))

module _ {R : List ℕ → Type 0} {fds : List ℕ} {held : List Address} where
  -- Whatever the system answers, where a device to bind to comes with an address and no datagram
  -- that arrives is empty: iperf_udp_connect ends; it returns the open descriptor and holds nothing
  -- else, or fails with an error number; then it holds nothing where no socket could be made, and
  -- leaves the new socket open in all other cases.
  pub iperf_udp_connect-Safe :
      (t : SockTest)
      → (t.bind_dev ≡ true → t.bind_address ≡ true)
      → ((l : List ℕ) → R l → length l ≢ 0)
      → Safe R (Connected fds held) (Unconnected fds held) fds held (iperf_udp_connect t)
  unfolding iperf_udp_connect
  iperf_udp_connect-Safe t h nonempty =
      Safe-bind
        (Safe-or_else
          (netdial-Safe t.domain t.bind_address t.bind_dev t.bind_port t.server_port none h)
          (λ _ _ _ e. s_fail e))
        (λ s _ _ e. Safe-at e (
          Safe-bind
            (fit_buffers-Safe t s (_, here) (λ a _. ((s, refl), refl)) (λ a _. ((s, refl), refl)))
            (λ a _ _ d.
              Safe-at (d.0, d.1)
                (Safe-bind
                  (Safe-or_else (iperf_common_sockopts-Safe a s (_, here)) (λ c _ _ d. s_ret d))
                  (λ b _ _ d. Safe-at d (s_ask (_, here) tt (λ _. greet-Safe b s nonempty)))))))
