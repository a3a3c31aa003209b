-- ===== src/Sockets/Dials.antt =====
-- Dialing and announcing hold what they return and nothing else.
use expo_iperf.Common.{
  ℕ, ◌==◌, Bool, true, false, ◌&&◌, ◌||◌, ◌≡◌, refl, if◌then◌else◌, Option, none, some, List, ◌∷◌,
}
use expo_iperf.Sockets.{
  Family, unspec, inet, inet6, other_family, is_unspec, is_inet6, Address, Answer, ok, err, ret,
  is_set, einprogress, ask, poll, restore_flags, ◌>>=◌, close, free, fail, need, Request, bind_any,
}
use expo_iperf.Sockets.Dial.{
  after_poll, connect_and_wait, timeout_connect, bind_local, create_socket, is_refused, netdial,
  netannounce, give_up,
}
use expo_iperf.Sockets.Ledger.{
  Post, Safe, here, there, s_ret, s_fail, s_allocate, s_open, s_ask, s_close, s_free, Safe-bind,
  Safe-if, Safe-need, Safe-when, Safe-at, Safe-last, Reads, Same, Safe-then,
}

module _ {R : List ℕ → Type 0} {E : Type 0} {Q : Post E} {fds : List ℕ} {held : List Address} where
  after_poll-Safe :
      (s : ℕ) (a : Answer) → Safe R (Same (s ∷ fds) held) Q (s ∷ fds) held (after_poll s a)
  unfolding after_poll
  after_poll-Safe s (err e) = s_ret (refl, refl)
  after_poll-Safe s (ok n) =
      Safe-if (n == 1) (λ _. s_ask (_, here) tt (λ a. error_lem a))
        (λ _. Safe-if (n == 0) (λ _. s_ret (refl, refl)) (λ _. s_ret (refl, refl)))
    where
      error_lem :
          (a : Answer)
          → Safe R
              (Same (s ∷ fds) held)
              Q
              (s ∷ fds)
              held
              (elim a [ ok v ↦ if v == 0 then ret (ok 0) else ret (err v) | err e ↦ ret (err e) ])
      error_lem (ok v) = Safe-if (v == 0) (λ _. s_ret (refl, refl)) (λ _. s_ret (refl, refl))
      error_lem (err e) = s_ret (refl, refl)

module _ {R : List ℕ → Type 0} {E : Type 0} {Q : Post E} {fds : List ℕ} {held : List Address} where
  connect_and_wait-Safe :
      (s : ℕ) (a : Address) (timeout : Option ℕ)
      → Safe R (Same (s ∷ fds) (a ∷ held)) Q (s ∷ fds) (a ∷ held) (connect_and_wait s a timeout)
  unfolding connect_and_wait
  connect_and_wait-Safe s a timeout = s_ask (_, here) (_, here) answer_lem
    where
      answer_lem :
          (r : Answer)
          → Safe R (Same (s ∷ fds) (a ∷ held)) Q (s ∷ fds) (a ∷ held) (elim r [
            | ok n ↦ ret (ok 0)
            | err e ↦ if e == einprogress then ask s (poll timeout) (after_poll s) else ret (err e)
          ])
      answer_lem (ok n) = s_ret (refl, refl)
      answer_lem (err e) =
          Safe-if (e == einprogress) (λ _. s_ask (_, here) tt (after_poll-Safe s))
            (λ _. s_ret (refl, refl))

module _ {R : List ℕ → Type 0} {E : Type 0} {Q : Post E} {fds : List ℕ} {held : List Address} where
  restore_lem :
      (s : ℕ) (result back : Answer)
      → Safe {E = E} R
          (Same (s ∷ fds) held)
          Q
          (s ∷ fds)
          held
          (elim back [ err e ↦ ret (err e) | ok n ↦ ret result ])
  restore_lem s result (err e) = s_ret (refl, refl)
  restore_lem s result (ok n) = s_ret (refl, refl)

module _ {R : List ℕ → Type 0} {E : Type 0} {Q : Post E} {fds : List ℕ} {held : List Address} where
  timeout_connect-Safe :
      (s : ℕ) (a : Address) (timeout : Option ℕ)
      → Safe R (Same (s ∷ fds) (a ∷ held)) Q (s ∷ fds) (a ∷ held) (timeout_connect s a timeout)
  unfolding timeout_connect
  timeout_connect-Safe s a none = connect_and_wait-Safe s a none
  timeout_connect-Safe s a (some ms) = s_ask (_, here) tt (λ _. s_ask (_, here) tt nonblocking_lem)
    where
      nonblocking_lem :
          (r : Answer)
          → Safe R (Same (s ∷ fds) (a ∷ held)) Q (s ∷ fds) (a ∷ held) (elim r [
            | err e ↦ ret (err e)
            | ok n ↦ connect_and_wait s a (some ms) >>= λ result.
                ask s restore_flags (λ back. elim back [ err e ↦ ret (err e) | ok n ↦ ret result ])
          ])
      nonblocking_lem (err e) = s_ret (refl, refl)
      nonblocking_lem (ok n) =
          Safe-bind (connect_and_wait-Safe s a (some ms))
            (λ r _ _ e. Safe-at e (s_ask (_, here) tt (restore_lem s r)))

-- A new descriptor, and the server's address.
abbrev pub Made : List ℕ → List Address → Post (ℕ × Address)
Made fds held r fds' held' = (fds' ≡ r.0 ∷ fds) × (held' ≡ r.1 ∷ held)

-- A new descriptor.
abbrev pub Opened : List ℕ → List Address → Post ℕ
Opened fds held s fds' held' = (fds' ≡ s ∷ fds) × (held' ≡ held)

module _ {R : List ℕ → Type 0} {fds : List ℕ} {held : List Address} where
  bind_local-Safe :
      (s : ℕ) (port : ℕ) (server : Address)
      → Safe R
          (Same (s ∷ fds) (server ∷ held))
          (Same fds held)
          (s ∷ fds)
          (server ∷ held)
          (bind_local s none port server)
  unfolding bind_local
  bind_local-Safe s port server =
      Safe-if (is_set port) (λ _. family_lem server.family) (λ _. s_ret (refl, refl))
    where
      given_up :
          Safe {A = Unit {0}} R
            (Same (s ∷ fds) (server ∷ held))
            (Same fds held)
            (s ∷ fds)
            (server ∷ held)
            (close s (free (some server) (fail tt)))
      given_up = s_close here (s_free here (s_fail (refl, refl)))

      need_lem :
          (r : Request)
          → Reads r (server ∷ held)
          → Safe R
              (Same (s ∷ fds) (server ∷ held))
              (Same fds held)
              (s ∷ fds)
              (server ∷ held)
              (need s r (close s (free (some server) (fail tt))))
      need_lem r h = s_ask (_, here) h (Safe-last _ given_up (refl, refl))

      family_lem :
          (f : Family)
          → Safe R
              (Same (s ∷ fds) (server ∷ held))
              (Same fds held)
              (s ∷ fds)
              (server ∷ held)
              (elim f [
                | inet ↦ need s (bind_any inet port) (close s (free (some server) (fail tt)))
                | inet6 ↦ need s (bind_any inet6 port) (close s (free (some server) (fail tt)))
                | _ ↦ close s (free (some server) (fail tt))
              ])
      family_lem inet = need_lem (bind_any inet port) tt
      family_lem inet6 = need_lem (bind_any inet6 port) tt
      family_lem unspec = given_up
      family_lem other_family = given_up

  bind_named-Safe :
      (s : ℕ) (l : Address) (port : ℕ) (server : Address)
      → Safe R
          (Same (s ∷ fds) (server ∷ held))
          (Same fds held)
          (s ∷ fds)
          (server ∷ l ∷ held)
          (bind_local s (some l) port server)
  unfolding bind_local
  bind_named-Safe s l port server =
      s_ask (_, here) (_, there here)
        (Safe-need _ _ (s_close here (s_free (there here) (s_free here (s_fail (refl, refl)))))
          (s_free (there here) (s_ret (refl, refl))))

module _ {R : List ℕ → Type 0} {fds : List ℕ} {held : List Address} where
  -- Whatever the system answers: the descriptor that is returned is open and the server's address
  -- allocated, and nothing else; a failure holds nothing more.
  pub create_socket-Safe :
      (domain : Family) (local bind_dev : Bool) (local_port port : ℕ)
      → (bind_dev ≡ true → local ≡ true)
      → Safe R
          (Made fds held)
          (Same fds held)
          fds
          held
          (create_socket domain local bind_dev local_port port)
  unfolding create_socket
  create_socket-Safe domain true bind_dev local_port port h = s_allocate (s_fail (refl, refl)) (λ l.
      s_allocate (s_free here (s_fail (refl, refl))) (λ server.
        s_open tt (s_free (there here) (s_free here (s_fail (refl, refl)))) (λ s.
          Safe-when bind_dev _ _
            (Safe-bind (bind_named-Safe s l local_port server) (λ _ _ _ e. s_ret e))
            (λ _. s_close here (s_free (there here) (s_free here (s_fail (refl, refl))))))))
  create_socket-Safe domain false true local_port port h = absurd (cc (h refl))
  create_socket-Safe domain false false local_port port h =
      s_allocate (s_fail (refl, refl)) (λ server.
        s_open tt (s_free here (s_fail (refl, refl)))
          (λ s. Safe-bind (bind_local-Safe s local_port server) (λ _ _ _ e. s_ret e)))

module _ {R : List ℕ → Type 0} {fds : List ℕ} {held : List Address} where
  -- Whatever the system answers: the descriptor that netdial returns is open, and nothing else is
  -- held; nor is anything behind a failure.
  pub netdial-Safe :
      (domain : Family) (local bind_dev : Bool) (local_port port : ℕ) (timeout : Option ℕ)
      → (bind_dev ≡ true → local ≡ true)
      → Safe R
          (Opened fds held)
          (Same fds held)
          fds
          held
          (netdial domain local bind_dev local_port port timeout)
  unfolding netdial
  netdial-Safe domain local bind_dev local_port port timeout h =
      Safe-bind (create_socket-Safe domain local bind_dev local_port port h) (λ (s, server) _ _ e.
        Safe-at e (
          Safe-bind (timeout_connect-Safe s server timeout) (λ r _ _ d. Safe-at d (
            Safe-when (is_refused r) _ _ (s_free here (s_ret (refl, refl)))
              (λ _. s_close here (s_free here (s_fail (refl, refl))))))))

  give_up-Safe :
      {A : Type 0} {P : Post A} (s : ℕ) (res : Address)
      → Safe R P (Same fds held) (s ∷ fds) (res ∷ held) (give_up s res)
  give_up-Safe s res = s_close here (s_free here (s_fail (refl, refl)))

module _ {R : List ℕ → Type 0} {fds : List ℕ} {held : List Address} where
  -- The same of netannounce.
  pub netannounce-Safe :
      (domain : Family) (is_stream local bind_dev : Bool) (port : ℕ)
      → Safe R
          (Opened fds held)
          (Same fds held)
          fds
          held
          (netannounce domain is_stream local bind_dev port)
  unfolding netannounce
  netannounce-Safe domain is_stream local bind_dev port = s_allocate (s_fail (refl, refl)) (λ res.
      s_open tt (s_free here (s_fail (refl, refl))) (λ s.
        Safe-when bind_dev _ _
          (Safe-then _ _ (s_ask (_, here) tt (Safe-last _ (give_up-Safe s res) (refl, refl))) (
            Safe-then _ _
              (Safe-if (is_inet6 res.family && (is_unspec domain || is_inet6 domain))
                (λ _. s_ask (_, here) tt (Safe-last _ (give_up-Safe s res) (refl, refl)))
                (λ _. s_ret (refl, refl)))
              (Safe-then _ _
                (s_ask (_, here) (_, here) (Safe-last _ (give_up-Safe s res) (refl, refl)))
                (s_free here (
                  Safe-when is_stream _ _ (s_ret (refl, refl)) (λ _.
                    s_ask (_, here) tt
                      (Safe-need _ _ (s_close here (s_fail (refl, refl)))
                        (s_ret (refl, refl)))))))))
          (λ _. give_up-Safe s res)))
