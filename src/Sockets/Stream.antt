-- ===== src/Sockets/Stream.antt =====
-- iperf_api.c: what iperf_new_stream allocates, iperf_init_stream and iperf_free_stream. The fields of
-- a stream that hold no resource are in the other components; iperf_add_stream is in Control.
use expo_iperf.Common.{ℕ, Bool, if◌then◌else◌, Option, none, some, List, [], ◌∷◌}
use expo_iperf.Sockets.{
  Address, stream_memory, result_memory, buffer_mapping, get_sockname, get_peername, truncate_file,
  unlink_file, Answer, ok, err, temporary_file, disk_file, Prog, ret, fail, allocate, open_socket,
  invoke, close, free, ◌>>=◌, ◌>>◌, need, nothing, SockError, ie_createstream, ie_file,
  ie_initstream,
}

-- What a stream holds: the memory of `struct iperf_stream`, of its result and of its intervals, the
-- buffer with its file, and the file of -F.
pub record StreamParts : Type 0 where
  pub stream : Address
  pub result : Address
  pub buffer : Address
  pub buffer_fd : ℕ
  pub diskfile_fd : Option ℕ  -- `none` is -1
  pub intervals : List Address

abbrev pub Creation : Type 0 → Type 0
Creation A = Prog SockError A

abbrev pub free_memory : {A : Type 0} → Address → Address → SockError → Creation A
free_memory sp result e = free (some result) (free (some sp) (fail e))

abbrev pub allocated : Option Address → Creation Address → Creation Address
allocated none otherwise = otherwise
allocated (some a) otherwise = ret a

abbrev pub opened : Option ℕ → Creation ℕ → Creation ℕ
opened none otherwise = otherwise
opened (some s) otherwise = ret s

-- A call on no descriptor that is needed.
abbrev pub need_call : Answer → Creation (Unit {0}) → Creation (Unit {0})
need_call a otherwise = elim a [ ok n ↦ ret tt | err e ↦ otherwise ]

-- The temporary file that the buffer is mapped from.
unfoldable pub make_buffer : Address → Address → Creation (ℕ × Address)
make_buffer sp result = do
  fd ← open_socket temporary_file (λ o. opened o (free_memory sp result ie_createstream))
  invoke unlink_file (λ a. need_call a (free_memory sp result ie_createstream))
  need fd truncate_file (free_memory sp result ie_createstream)
  b ← allocate buffer_mapping (λ o. allocated o (free_memory sp result ie_createstream))
  ret (fd, b)

abbrev pub some_fd : ℕ → Creation (Option ℕ)
some_fd s = ret (some s)

-- The file of -F, where it is given.
unfoldable pub open_diskfile : Bool → Bool → Address → Address → Address → Creation (Option ℕ)
open_diskfile has_diskfile sender sp result b =
    if has_diskfile
    then open_socket (disk_file sender)
        (λ o. opened o (free (some b) (free_memory sp result ie_file)))
      >>= some_fd
    else ret none

unfoldable pub iperf_init_stream : ℕ → Creation (Unit {0}) → Creation (Unit {0})
iperf_init_stream s otherwise = need s get_sockname otherwise >> need s get_peername otherwise

-- What is done where the stream cannot be initialised: the file of -F is not closed.
abbrev pub drop_stream : {A : Type 0} → ℕ → Address → Address → Address → SockError → Creation A
drop_stream fd b sp result e = close fd (free (some b) (free_memory sp result e))

-- What fills the buffer returns 0: `readentropy` ends the program where it fails.
unfoldable pub iperf_new_stream : (s : ℕ) (sender has_diskfile : Bool) → Creation StreamParts
unfolding make_buffer open_diskfile iperf_init_stream
iperf_new_stream s sender has_diskfile = do
  sp ← allocate stream_memory (λ o. allocated o (fail ie_createstream))
  result ← allocate result_memory (λ o. allocated o (free (some sp) (fail ie_createstream)))
  (fd, b) ← make_buffer sp result
  disk ← open_diskfile has_diskfile sender sp result b
  iperf_init_stream s (drop_stream fd b sp result ie_initstream)
  ret (record {
    stream = sp;
    result = result;
    buffer = b;
    buffer_fd = fd;
    diskfile_fd = disk;
    intervals = [];
  })

unfoldable pub free_all : {E : Type 0} → List Address → Prog E (Unit {0}) → Prog E (Unit {0})
free_all [] p = p
free_all (a ∷ l) p = free (some a) (free_all l p)

abbrev pub close_file : {E : Type 0} → Option ℕ → Prog E (Unit {0}) → Prog E (Unit {0})
close_file none p = p
close_file (some s) p = close s p

-- The timer of the stream is in Timer.
unfoldable pub iperf_free_stream : {E : Type 0} → StreamParts → Prog E (Unit {0})
unfolding free_all
iperf_free_stream p = free (some p.buffer) (
    close p.buffer_fd (
      close_file p.diskfile_fd
        (free_all p.intervals (free (some p.result) (free (some p.stream) nothing)))))
