-- ===== src/Net.antt =====
-- The transfer loops of net.c. What the operating system does is a list of the results of the calls
-- to come: each `read`, `recv` or `write` takes the next one, and where the list ends the call is
-- still waiting (`none`). Buffers are lists of bytes.
pub mod Recv
pub mod Select
pub mod Write
use expo_iperf.Common.{
  ℕ, zero, suc, ◌+◌, ◌-◌, ◌*◌, ◌%◌, ◌^◌, Bool, true, false, ◌==◌, ltb, if◌then◌else◌, Option, none,
  some, List, [], ◌∷◌, ◌++◌, length, take, drop, sub_u64, min,
}
use expo_iperf.Clock.{
  IperfTime, iperf_time_add_usecs, iperf_time_compare, Cmp, earlier, same, later,
}

-- The values of `errno` that the loops tell apart.
pub data Errno : Type 0 where
  eintr eagain ewouldblock enobufs other : Errno

-- What a loop returns, an `int`: a number of bytes, NET_SOFTERROR (-2), or NET_HARDERROR (-1) or
-- another negative number, which the callers do not tell apart.
pub data NetResult : Type 0 where
  bytes : ℕ → NetResult
  soft_error : NetResult
  hard_error : NetResult

-- A `size_t` that is returned as an `int`: its low 32 bits.
unfoldable pub as_int : ℕ → NetResult
as_int n =
    if ltb (n % 2 ^ 32) (2 ^ 31)
    then bytes (n % 2 ^ 32)
    else if n % 2 ^ 32 == 2 ^ 32 - 2
    then soft_error
    else hard_error

-- A `read` or `recv`: the bytes that it stores, with the number that it returns (0 at the end of the
-- stream), or an error.
pub data ReadResult : Type 0 where
  got : List ℕ → ℕ → ReadResult
  read_failed : Errno → ReadResult

abbrev pub is_retry : Errno → Bool
is_retry eintr = true
is_retry eagain = true
is_retry ewouldblock = true
is_retry _ = false

-- `nleft` behind a read that returned `r`. With MSG_TRUNC `r` is the length of the whole packet.
abbrev pub left_after : Bool → ℕ → ℕ → ℕ
left_after trunc nleft r =
    if trunc then sub_u64 nleft (if ltb nleft r then nleft else r) else sub_u64 nleft r

-- What a loop returns, what it stored, and the calls that it did not make.
pub record Received (R : Type 0) : Type 0 where
  pub result : NetResult
  pub stored : List ℕ
  pub to_come : List R

abbrev pub stop : {R : Type 0} → NetResult → List ℕ → List R → Option (Received R)
stop result stored to_come = some (record { result = result; stored = stored; to_come = to_come })

-- The loop of `Nrecv_no_select`: `stored` is what stands in front of `buf`.
unfoldable pub recv_loop : Bool → ℕ → ℕ → List ℕ → List ReadResult → Option (Received ReadResult)
recv_loop trunc count nleft stored [] =
    if nleft == 0 then stop (as_int (sub_u64 count nleft)) stored [] else none
recv_loop trunc count nleft stored (got xs r ∷ reads) =
    let continue = recv_loop trunc count (left_after trunc nleft r) (stored ++ xs) reads in
    if nleft == 0
    then stop (as_int (sub_u64 count nleft)) stored (got xs r ∷ reads)
    else if r == 0
    then stop (as_int (sub_u64 count nleft)) stored reads
    else continue
recv_loop trunc count nleft stored (read_failed e ∷ reads) =
    if nleft == 0
    then stop (as_int (sub_u64 count nleft)) stored (read_failed e ∷ reads)
    else if is_retry e
    then stop (as_int (sub_u64 count nleft)) stored reads
    else stop hard_error stored reads

unfoldable pub nrecv_no_select : Bool → ℕ → List ReadResult → Option (Received ReadResult)
unfolding recv_loop
nrecv_no_select trunc count reads = recv_loop trunc count count [] reads

-- `select` on one descriptor.
pub data Selected : Type 0 where
  readable timed_out select_failed : Selected

-- What the loop of `Nrecv` meets in one round: the read, the clock behind it and the `select`.
pub record Round : Type 0 where
  pub read : ReadResult
  pub now : IperfTime
  pub select : Selected

abbrev pub nread_overall_timeout : ℕ
nread_overall_timeout = 30

-- The deadline, which the first round that leaves bytes to read sets.
abbrev pub deadline : IperfTime → IperfTime → IperfTime
deadline ftimeout now =
    if ftimeout.secs == 0
    then iperf_time_add_usecs now (nread_overall_timeout * 1000000)
    else ftimeout

abbrev pub is_over : IperfTime → IperfTime → Bool
is_over ftimeout now = elim (iperf_time_compare ftimeout now) [ earlier ↦ true | _ ↦ false ]

-- The loop of `Nrecv` without MSG_TRUNC, as `Nread` calls it.
unfoldable pub read_loop : ℕ → ℕ → List ℕ → IperfTime → List Round → Option (Received Round)
read_loop count nleft stored ftimeout [] =
    if nleft == 0 then stop (as_int (sub_u64 count nleft)) stored [] else none
read_loop count nleft stored ftimeout (round ∷ rounds) =
    if nleft == 0
    then stop (as_int (sub_u64 count nleft)) stored (round ∷ rounds)
    else elim round.read [
      | read_failed e ↦
          if is_retry e
          then stop (as_int (sub_u64 count nleft)) stored rounds
          else stop hard_error stored rounds
      | got xs r ↦
          let nleft' = sub_u64 nleft r in
          let stored' = stored ++ xs in
          let ftimeout' = deadline ftimeout round.now in
          let selected : Option (Received Round) = elim round.select [
            | select_failed ↦ stop hard_error stored' rounds
            | timed_out ↦ stop (as_int (sub_u64 count nleft')) stored' rounds
            | readable ↦ read_loop count nleft' stored' ftimeout' rounds
          ] in
          if r == 0
          then stop (as_int (sub_u64 count nleft)) stored rounds
          else if nleft' == 0
          then stop (as_int (sub_u64 count nleft')) stored' rounds
          else if is_over ftimeout' round.now
          then stop (as_int (sub_u64 count nleft')) stored' rounds
          else selected
    ]

-- `Nread`: the `select` on entry, then the loop.
unfoldable pub nread : ℕ → Selected → List Round → Option (Received Round)
unfolding read_loop
nread count first rounds = elim first [
  | select_failed ↦ some (record { result = hard_error; stored = []; to_come = rounds })
  | timed_out ↦ some (record { result = bytes 0; stored = []; to_come = rounds })
  | readable ↦ read_loop count count [] (record { secs = 0; usecs = 0 }) rounds
]

-- A `write`: the number of bytes that it took, or an error.
pub data WriteResult : Type 0 where
  wrote : ℕ → WriteResult
  write_failed : Errno → WriteResult

-- What `Nwrite` returns, and the bytes that the operating system took.
pub record Written : Type 0 where
  pub result : NetResult
  pub sent : List ℕ

-- `buf` is what is left to write, so `nleft` is its length.
unfoldable pub write_loop : ℕ → List ℕ → List ℕ → List WriteResult → Option Written
write_loop count sent [] writes = some (record { result = as_int count; sent = sent })
write_loop count sent (x ∷ buf) [] = none
write_loop count sent (x ∷ buf) (wrote r ∷ writes) =
    let continue = write_loop count (sent ++ take r (x ∷ buf)) (drop r (x ∷ buf)) writes in
    if r == 0 then some (record { result = soft_error; sent = sent }) else continue
write_loop count sent (x ∷ buf) (write_failed e ∷ writes) =
    let partial =
      if count == length (x ∷ buf) then soft_error else as_int (sub_u64 count (length (x ∷ buf))) in
    elim e [
      | eintr ↦ some (record { result = partial; sent = sent })
      | eagain ↦ some (record { result = partial; sent = sent })
      | ewouldblock ↦ some (record { result = partial; sent = sent })
      | enobufs ↦ some (record { result = soft_error; sent = sent })
      | other ↦ some (record { result = hard_error; sent = sent })
    ]

unfoldable pub nwrite : List ℕ → List WriteResult → Option Written
unfolding write_loop
nwrite buf writes = write_loop (length buf) [] buf writes
