-- ===== src/Sockets/Listens.antt =====
-- iperf_tcp_listen and iperf_tcp_accept: what is open behind them.
use expo_iperf.Common.{ℕ, ◌&&◌, ◌||◌, ◌≡◌, refl, if◌then◌else◌, List, ◌∷◌}
use expo_iperf.Sockets.{
  is_unspec, is_inet, is_inet6, Address, SockTest, ie_streamlisten, close, refuse,
}
use expo_iperf.Sockets.Tcp.{
  same_text, cookie_size, admit, listen_again, listens_again, iperf_tcp_listen,
}
use expo_iperf.Sockets.Connects.{
  Refused, has_error, drop_both-Safe, set_tcp_options-Safe, verify_buffers-Safe,
}
use expo_iperf.Sockets.Dials.{Opened}
use expo_iperf.Sockets.Ledger.{
  Post, Safe, here, s_ret, s_fail, s_allocate, s_open, s_ask, s_close, s_free, Safe-bind, Safe-if,
  Safe-need, Safe-last, Safe-at, Safe-then,
}

-- The listener of the test is the one open descriptor, and is returned.
abbrev pub Listening : List ℕ → List Address → Post (ℕ × SockTest)
Listening fds held r fds' held' = (fds' ≡ r.0 ∷ fds) × (held' ≡ held) × (r.1.listener ≡ r.0)

abbrev pub Fresh : List ℕ → List Address → Post SockTest
Fresh fds held t fds' held' = (fds' ≡ t.listener ∷ fds) × (held' ≡ held)

module _ {R : List ℕ → Type 0} {fds : List ℕ} {held : List Address} where
  listen_again-Safe :
      (t : SockTest)
      → Safe R (Opened fds held) (Refused fds held) (t.listener ∷ fds) held (listen_again t)
  unfolding listen_again
  listen_again-Safe t = s_close here (
      s_allocate (s_fail (refl, refl, has_error ie_streamlisten)) (λ res.
        s_open tt (s_free here (s_fail (refl, refl, has_error ie_streamlisten))) (λ s.
          Safe-then _ _ (set_tcp_options-Safe t s _ (_, here) (drop_both-Safe t s res)) (
            Safe-then _ _ (s_ask (_, here) tt (Safe-last _ (drop_both-Safe t s res _) (refl, refl)))
              (Safe-then _ _
                (Safe-if (is_inet6 res.family && (is_unspec t.domain || is_inet t.domain))
                  (λ _. s_ask (_, here) tt (Safe-last _ (drop_both-Safe t s res _) (refl, refl)))
                  (λ _. s_ret (refl, refl)))
                (Safe-then _ _
                  (s_ask (_, here) (_, here) (Safe-last _ (drop_both-Safe t s res _) (refl, refl)))
                  (s_free here (
                    s_ask (_, here) tt
                      (Safe-need _ _ (s_close here (s_fail (refl, refl, has_error ie_streamlisten)))
                        (s_ret (refl, refl)))))))))))

module _ {R : List ℕ → Type 0} {fds : List ℕ} {held : List Address} where
  -- Whatever the system answers, from an open listener: behind success the listener of the test is
  -- open and returned, and nothing else is held; behind a failure the listener is closed, no
  -- other descriptor is open, and there is an error number.
  pub iperf_tcp_listen-Safe :
      (t : SockTest)
      → Safe R (Listening fds held) (Refused fds held) (t.listener ∷ fds) held (iperf_tcp_listen t)
  unfolding iperf_tcp_listen
  iperf_tcp_listen-Safe t =
      Safe-bind {P = Fresh fds held}
        (Safe-if (listens_again t) (λ _. Safe-bind (listen_again-Safe t) (λ s _ _ e. s_ret e))
          (λ _. s_ret (refl, refl)))
        (λ a _ _ e. Safe-at e (
          Safe-then _ _
            (verify_buffers-Safe a a.listener (λ e. close a.listener (refuse a e)) (_, here)
              (λ e. s_close here (s_fail (refl, refl, has_error e))))
            (s_ret (refl, refl, refl))))

-- The stream is open where the cookie is the test's, and closed otherwise.
abbrev pub Admitted : SockTest → List ℕ → List Address → List ℕ → Post ℕ
Admitted t fds held c s fds' held' =
    (fds' ≡ (if same_text cookie_size t.cookie c then s ∷ fds else fds)) × (held' ≡ held)

module _ {R : List ℕ → Type 0} {Q : Post SockTest} {fds : List ℕ} {held : List Address} where
  pub admit-Safe :
      (t : SockTest) (s : ℕ) (c : List ℕ)
      → Safe R (Admitted t fds held c) Q (s ∷ fds) held (admit t s c)
  unfolding admit
  admit-Safe t s c =
      Safe-if (same_text cookie_size t.cookie c) (λ e. s_ret (rw e refl, refl))
        (λ e. s_ask (_, here) tt (λ _. s_close here (s_ret (rw e refl, refl))))
