-- ===== src/Files.antt =====
-- iperf_api.c, iperf_tcp.c: the file that a TCP test sends or stores (-F): diskfile_send in front of
-- iperf_tcp_send, and diskfile_recv. The system calls are answers; Nwrite (Net) is its result.
pub mod Whole
use expo_iperf.Common.{
  ℕ, ◌-◌, Bool, true, false, not, ◌&&◌, ◌||◌, if◌then◌else◌, min, Option, none, some, List, ◌++◌,
  length, take, drop, overwrite,
}
use expo_iperf.Common.Int.{ℤ, pos, negsuc, pos_part, ltb_ℤ, eq_ℤ, ◌+ℤ◌, ◌-ℤ◌}
use expo_iperf.Results.{to_uint64}

-- A stream that sends a file. `file` is what has not been read, `sent` what the network has; the
-- sizes are of type `int`.
pub record FileStream : Type 0 where
  pub blksize : ℕ
  pub file : List ℕ
  pub buffer : List ℕ
  pub diskfile_left : ℤ
  pub pending_size : ℤ
  pub done : Bool
  pub sent : List ℕ

-- A call of `read` gives at most the number of bytes that the answer holds, or fails.
abbrev pub ReadAnswer : Type 0
ReadAnswer = Option ℕ

-- The result of `Nwrite`: how many bytes of the pending ones it took, or an error.
abbrev pub WriteAnswer : Type 0
WriteAnswer = Option ℕ

-- `read(sp->diskfile_fd, sp->buffer, size)` with its result.
unfoldable pub read_file : ReadAnswer → ℕ → FileStream → ℤ × FileStream
read_file none size s = (negsuc 0, s)
read_file (some n) size s =
    let chunk = take (min n size) s.file in
    (
      pos (length chunk),
      record s { file = drop (min n size) s.file; buffer = overwrite chunk s.buffer },
    )

-- `buffer_left`, and what the code sets by it, behind a read with the result `r`.
abbrev pub filled : ℤ → ℤ × FileStream → ℤ × FileStream
filled diskfile_left (r, a) =
    let left = diskfile_left +ℤ r in
    (
      left,
      record a {
        pending_size = if eq_ℤ left (pos a.blksize) then a.pending_size else left;
        done = a.done || eq_ℤ left (pos 0);
      },
    )

-- The part that reads from the disk, with `buffer_left`.
unfoldable pub fill_buffer : ReadAnswer → FileStream → ℤ × FileStream
unfolding read_file to_uint64
fill_buffer answer s =
    filled s.diskfile_left (read_file answer (to_uint64 (pos s.blksize -ℤ s.diskfile_left)) s)

-- What iperf_tcp_send has to send.
abbrev pub pending_of : FileStream → ℤ
pending_of s = if eq_ℤ s.pending_size (pos 0) then pos s.blksize else s.pending_size

-- `Nwrite` is asked for `pending` bytes and takes `r` of them.
abbrev pub take_pending : ℤ → ℕ → FileStream → Option ℕ × FileStream
take_pending pending r s =
    (some r, record s { pending_size = pending -ℤ pos r; sent = s.sent ++ take r s.buffer })

-- `iperf_tcp_send`, without its counters: the result, and what is pending behind it.
unfoldable pub tcp_send : WriteAnswer → FileStream → Option ℕ × FileStream
unfolding to_uint64
tcp_send none s = (none, record s { pending_size = pending_of s })
tcp_send (some n) s = take_pending (pending_of s) (min n (to_uint64 (pending_of s))) s

-- What was left behind is moved to the front of the buffer.
abbrev pub slide : ℤ → FileStream → FileStream
slide left s =
    let n = pos_part left in
    if not (eq_ℤ left (pos 0)) && ltb_ℤ left (pos s.blksize)
    then record s { buffer = overwrite (take n (drop (s.blksize - n) s.buffer)) s.buffer }
    else s

abbrev pub keep_rest : ℤ → Option ℕ × FileStream → Option ℕ × FileStream
keep_rest buffer_left (none, s) = (none, s)
keep_rest buffer_left (some r, s) =
    let left = buffer_left -ℤ pos r in (some r, slide left (record s { diskfile_left = left }))

-- The part that sends.
unfoldable pub send_buffer : WriteAnswer → ℤ × FileStream → Option ℕ × FileStream
unfolding tcp_send
send_buffer answer (buffer_left, s) =
    if s.done || eq_ℤ buffer_left (pos 0)
    then (some 0, record s { done = true })
    else keep_rest buffer_left (tcp_send answer s)

-- The result, and the stream.
unfoldable pub diskfile_send : ReadAnswer → WriteAnswer → FileStream → Option ℕ × FileStream
unfolding fill_buffer send_buffer
diskfile_send rd wr s = send_buffer wr (
    if ltb_ℤ s.diskfile_left (pos s.blksize) && not s.done
    then fill_buffer rd s
    else (s.diskfile_left, s))

-- What is written of the bytes received, of which there are `r`: how many the disk takes is not looked
-- at.
unfoldable pub diskfile_recv : Option (List ℕ) → ℕ → List ℕ → List ℕ
diskfile_recv none n stored = stored
diskfile_recv (some received) n stored = stored ++ take n received
