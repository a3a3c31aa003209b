-- ===== src/Sockets/Lifetime.antt =====
-- The life of a stream: what iperf_new_stream holds behind success and behind a failure, and what
-- iperf_free_stream gives back.
use expo_iperf.Common.{
  ℕ, Bool, true, false, ◌≡◌, refl, Option, none, some, List, [], ◌∷◌, ◌++◌, ◌⊎◌, inl, inr,
}
use expo_iperf.Sockets.{Address, Prog, close, SockError, ie_createstream, ie_file, ie_initstream}
use expo_iperf.Sockets.Stream.{
  StreamParts, make_buffer, open_diskfile, iperf_init_stream, iperf_new_stream, iperf_free_stream,
  free_all, close_file, drop_stream,
}
use expo_iperf.Sockets.Ledger.{
  Post, Safe, Holds, Same, here, there, s_ret, s_fail, s_allocate, s_open, s_ask, s_invoke, s_close,
  s_free, Safe-bind, Safe-need, Safe-last, Safe-at, Safe-then,
}

abbrev pub with_file : Option ℕ → List ℕ → List ℕ
with_file none fds = fds
with_file (some d) fds = d ∷ fds

abbrev pub has_fd : Option ℕ → Bool
has_fd none = false
has_fd (some d) = true

-- The file of -F is open, where there is one.
abbrev pub LeavesFile : Bool → List ℕ → List ℕ → Type 0
LeavesFile has_diskfile fds fds' =
    (o : Option ℕ) × (has_fd o ≡ has_diskfile) × (fds' ≡ with_file o fds)

abbrev pub OneMore : List ℕ → List ℕ → Type 0
OneMore fds fds' = (s : ℕ) × (fds' ≡ s ∷ fds)

-- No memory is held. What is open depends on the error.
abbrev pub NotMade : Bool → List ℕ → List Address → Post SockError
NotMade has_diskfile fds held ie_createstream fds' held' =
    ((fds' ≡ fds) ⊎ OneMore fds fds') × (held' ≡ held)
NotMade has_diskfile fds held ie_file fds' held' =
    (has_diskfile ≡ true) × OneMore fds fds' × (held' ≡ held)
NotMade has_diskfile fds held ie_initstream fds' held' =
    LeavesFile has_diskfile fds fds' × (held' ≡ held)
NotMade has_diskfile fds held _ fds' held' = ⊥

-- The resources of a stream, and nothing else.
abbrev pub Whole : List ℕ → List Address → Post StreamParts
Whole fds held p fds' held' =
    (fds' ≡ with_file p.diskfile_fd (p.buffer_fd ∷ fds))
    × (held' ≡ p.buffer ∷ p.intervals ++ p.result ∷ p.stream ∷ held)

abbrev pub Mapped : Address → Address → List ℕ → List Address → Post (ℕ × Address)
Mapped sp result fds held r fds' held' = (fds' ≡ r.0 ∷ fds) × (held' ≡ r.1 ∷ result ∷ sp ∷ held)

abbrev pub OpenedFile : Bool → List ℕ → List Address → Post (Option ℕ)
OpenedFile has_diskfile fds held o fds' held' =
    (has_fd o ≡ has_diskfile) × (fds' ≡ with_file o fds) × (held' ≡ held)

module _ {R : List ℕ → Type 0} {fds : List ℕ} {held : List Address} where
  make_buffer-Safe :
      (sp result : Address) (has : Bool)
      → Safe R
          (Mapped sp result fds held)
          (NotMade has fds held)
          fds
          (result ∷ sp ∷ held)
          (make_buffer sp result)
  unfolding make_buffer
  make_buffer-Safe sp result has =
      s_open tt (s_free here (s_free here (s_fail (inl refl, refl)))) (λ fd.
        let leak = s_free here (s_free here (s_fail (inr (fd, refl), refl))) in
        s_invoke (
          Safe-need _ _ leak
            (s_ask (_, here) tt (Safe-need _ _ leak (s_allocate leak (λ b. s_ret (refl, refl)))))))

  open_diskfile-Safe :
      (has_diskfile sender : Bool) (sp result b : Address) (fd : ℕ)
      → Safe R
          (OpenedFile has_diskfile (fd ∷ fds) (b ∷ result ∷ sp ∷ held))
          (NotMade has_diskfile fds held)
          (fd ∷ fds)
          (b ∷ result ∷ sp ∷ held)
          (open_diskfile has_diskfile sender sp result b)
  unfolding open_diskfile
  open_diskfile-Safe true sender sp result b fd =
      s_open tt (s_free here (s_free here (s_free here (s_fail (refl, (fd, refl), refl)))))
        (λ d. s_ret (refl, refl, refl))
  open_diskfile-Safe false sender sp result b fd = s_ret (refl, refl, refl)

-- The file of the buffer is closed and the memory freed.
drop_stream-Safe :
    {A : Type 0} {R : List ℕ → Type 0} {P : Post A} {Q : Post SockError} {held : List Address}
    (fds : List ℕ) (o : Option ℕ) (fd : ℕ) (b sp result : Address) (e : SockError)
    → Q e (with_file o fds) held
    → Safe R P Q (with_file o (fd ∷ fds)) (b ∷ result ∷ sp ∷ held) (drop_stream fd b sp result e)
drop_stream-Safe fds none fd b sp result e h =
    s_close here (s_free here (s_free here (s_free here (s_fail h))))
drop_stream-Safe fds (some d) fd b sp result e h =
    s_close (there here) (s_free here (s_free here (s_free here (s_fail h))))

kept :
    {s : ℕ} (fds : List ℕ) (o : Option ℕ) (fd : ℕ) → Holds s fds → Holds s (with_file o (fd ∷ fds))
kept fds none fd (rest, t) = (fd ∷ rest, there t)
kept fds (some d) fd (rest, t) = (d ∷ fd ∷ rest, there (there t))

module _ {R : List ℕ → Type 0} {fds : List ℕ} {held : List Address} where
  -- Whatever the system answers, for an open socket: behind success exactly the resources of the
  -- stream are held. Behind a failure no memory is held. With IECREATESTREAM at most one descriptor
  -- is open that was not; with IEFILE there is a file of -F to be opened and one descriptor stays
  -- open; with IEINITSTREAM the file of -F stays open where there is one, and nothing else; no
  -- other error is set.
  pub iperf_new_stream-Safe :
      (s : ℕ) (sender has_diskfile : Bool)
      → Holds s fds
      → Safe R
          (Whole fds held)
          (NotMade has_diskfile fds held)
          fds
          held
          (iperf_new_stream s sender has_diskfile)
  unfolding iperf_new_stream iperf_init_stream
  iperf_new_stream-Safe s sender has_diskfile open_s = s_allocate (s_fail (inl refl, refl)) (λ sp.
      s_allocate (s_free here (s_fail (inl refl, refl))) (λ result.
        Safe-bind (make_buffer-Safe sp result has_diskfile) (λ (fd, b) _ _ e. Safe-at e (
          Safe-bind (open_diskfile-Safe has_diskfile sender sp result b fd) (λ o _ _ (has, e, d).
            Safe-at (e, d)
              (let drop_at =
                  drop_stream-Safe fds o fd b sp result ie_initstream ((o, has, refl), refl) in
                Safe-then _ _
                  (s_ask (kept fds o fd open_s) tt (
                    Safe-need _ _ drop_at
                      (s_ask (kept fds o fd open_s) tt (Safe-last _ drop_at (refl, refl)))))
                  (s_ret (refl, refl))))))))

free_all-Safe :
    {E : Type 0} {R : List ℕ → Type 0} {P : Post (Unit {0})} {Q : Post E} {fds : List ℕ}
    {held : List Address} (l : List Address) {p : Prog E (Unit {0})}
    → Safe R P Q fds held p
    → Safe R P Q fds (l ++ held) (free_all l p)
unfolding free_all
free_all-Safe [] h = h
free_all-Safe (a ∷ l) h = s_free here (free_all-Safe l h)

close_files-Safe :
    {E : Type 0} {R : List ℕ → Type 0} {P : Post (Unit {0})} {Q : Post E} {held : List Address}
    (fds : List ℕ) (o : Option ℕ) (fd : ℕ) {p : Prog E (Unit {0})}
    → Safe R P Q fds held p
    → Safe R P Q (with_file o (fd ∷ fds)) held (close fd (close_file o p))
close_files-Safe fds none fd h = s_close here h
close_files-Safe fds (some d) fd h = s_close (there here) (s_close here h)

-- From exactly the resources of a stream, with any intervals, whatever the system answers:
-- iperf_free_stream gives each back once and nothing else, and ends.
pub iperf_free_stream-Safe :
    {E : Type 0} {R : List ℕ → Type 0} {Q : Post E} {fds fds' : List ℕ} {held held' : List Address}
    (p : StreamParts)
    → Whole fds held p fds' held'
    → Safe R (Same fds held) Q fds' held' (iperf_free_stream p)
unfolding iperf_free_stream
iperf_free_stream-Safe {fds} p e = Safe-at e (
    s_free here (
      close_files-Safe fds p.diskfile_fd p.buffer_fd
        (free_all-Safe p.intervals (s_free here (s_free here (s_ret (refl, refl)))))))
